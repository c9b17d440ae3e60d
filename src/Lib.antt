-- ===== src/Lib.antt =====
-- Verification library of the concurrent servers: one TCP protocol, served by several concurrency
-- models in C.
--
-- The protocol: on connect the server sends '*'; '^' opens a frame and '$' closes it; each byte of a
-- frame is echoed with 1 added (modulo 256), and bytes outside of frames are dropped. Framing.antt
-- states it as a function of the byte stream, and Framing/Grammar.antt as a grammar. All servers are
-- compared with this one description.
--
-- The parts, and the code that they model:
--
--   Metrics.antt      src/metrics.c: the registry and its mutators; Metrics/Label is set_model and
--                     model_label, Metrics/Buckets the latency histogram, Metrics/Render.antt and
--                     its children metrics_render, byte by byte.
--   Protocol.antt     src/protocol.c: send_all and serve_connection, which the blocking servers
--                     (sequential, threaded, thread pool) call. Its children are named for send_all
--                     (Sending), the transformation in place (Scanning), the loop (Conversation),
--                     and the whole (Serving).
--   Peer.antt         src/peer_state.c: the parser of the event-driven servers. An operation is
--                     defined on one peer_state_t; Peer/Table.antt has the table, and the functions
--                     on descriptors with their calls of recv and send. Peer/Consuming, Peer/Stream
--                     and Peer/Sent follow the staged output; Peer/Runs.antt has all the connections
--                     that can come about, and Peer/Table/Live.antt the same on the table, with
--                     Peer/Table/Moved for the calls of io_uring. Peer/Answers and Peer/Keeping
--                     say when a connection is closed, and with which reason.
--   Select.antt       src/select_server.c: apply_status, the start of main and the rounds of its
--                     loop. Select/Watch says what the master sets stand for, Select/Accepting is
--                     about new connections, Select/Parts about the two parts of the loop's body,
--                     Select/Rounds about one round, Select/Life about any number of them.
--   Epoll.antt        src/epoll_server.c: apply_status, the interest set with what epoll_ctl does to
--                     it, the start of main and the rounds of its loop. Epoll/Interest says what the
--                     interest set stands for, Epoll/Accepting is about new connections,
--                     Epoll/Rounds about the events of one answer, Epoll/Life about any number of
--                     rounds.
--   Uring.antt        src/uring_server.c: submissions and completions. Uring/UserData has pack and
--                     what undoes it, Uring/Mine the submissions of one descriptor, Uring/Arming
--                     what must be outstanding, Uring/Queueing the submissions, Uring/Completing,
--                     Uring/Admitting and Uring/Life the completions, Uring/Whole the rounds of the
--                     server from its start.
--   Threadpool.antt   src/threadpool_server.c: Threadpool/Queue.antt is fd_queue_t, with the proof
--                     that it is a bounded first-in first-out queue in Queue/Fifo, over the slots of
--                     Queue/Slots; Threadpool/Threads.antt is the acceptor and the workers as
--                     threads whose steps interleave, with the connections and gauges in
--                     Threads/Sound, Threads/Sections and Threads/Steps, and the signals in
--                     Threads/Waits and Threads/Waking. Threadpool/Arguments.antt is parse_port and
--                     the arguments of main, compared in Arguments/Denoting and Arguments/Ports with
--                     the texts that denote a port; Threadpool/Startup.antt is main up to its loop
--                     and behind it, on the models of the metrics, of their endpoint and of the
--                     queue, with the proof in Startup/Up.
--   Blocking.antt     src/sequential_server.c and src/threaded_server.c over serve_connection.
--                     Blocking/InTurn follows the clients of the one, Blocking/Owned the descriptors
--                     of the other, whose threads are steps that interleave.
--   MetricsServer.antt src/metrics_server.c: a request of the metrics endpoint read, routed and
--                     answered. MetricsServer/Prefixes, Storing, BlankLine and Requests are about
--                     read_request,
--                     Responses about the bytes of the answers, Accepting about the loop over the
--                     connections; MetricsServer/Life.antt is the start and the stop, and
--                     Life/Owning what is open over any number of them.
--   Isprime.antt      src/uv_isprime_server.c: isprime, with its proof in Isprime/Primality. The
--                     callbacks are in Isprime/Serving.antt; Serving/Answers and Serving/Reading are
--                     about them.
--   UvServer.antt     src/uv_server.c: the callbacks. UvServer/Consuming is about the bytes of one
--                     read, Killing about the kill switch, Rounds about reads and completed writes,
--                     Resending about a read before the write is completed, Greeting about a
--                     connection from its start.
--   Loadgen.antt      bench/loadgen.c: one connection of the load generator. Loadgen/Framed is about
--                     the request and the expected answer, Receiving about recv_exact, Messages,
--                     Rounds and Verdict about the exchange and its counters, Arguments about the
--                     arguments of main, Totals about the exit status. Loadgen/Barrier is main and
--                     the threads at start_barrier, Loadgen/Connecting is connect_to.
--   Sockets.antt      src/utils.c: listen_inet_socket, which the mains of the select, epoll,
--                     io_uring and thread pool servers call.
--   Agreement.antt    src/protocol.c and src/peer_state.c on the same bytes.
--   Sys.antt          errno and the results of recv, send and clock_gettime; Sys/Streams has the
--                     bytes that the results of recv bring, and Sys/Numbers strtol and atoi.
--   Exec.antt         what a step of an event loop comes to: a state, the end of the process, a
--                     fault.
--   Text.antt         the texts of numbers that printf makes. Prelude.antt: lists, tests and
--                     integers.
--
-- How the code is modelled. The results of system calls are arguments: a list of results in the order
-- of the calls, or a function of the descriptor for one round of an event loop, so that a theorem over
-- all of them is one over every behaviour of the kernel. recv and send keep to their documented limits:
-- Peer/Table.antt cuts what the kernel has to offer to what the call asks for, and accept returns a
-- descriptor that is not in use, which is a hypothesis where it is needed. An access out of the bounds
-- of an array, and in the event loops a call on a descriptor that is not open, is a fault, a value of
-- its own (`none` or `fault`). die and perror_die are an outcome. size_t and uint64_t sums and
-- differences wrap at 2 ^ 64, uint8_t sums at 256; int64_t gauges are the patterns of their two's
-- complement. Descriptors are natural numbers once they are known not to be negative. Atomic updates
-- of the metrics, critical sections and signals are steps; a wait may end without a signal. Whatever
-- the threads do between two such steps touches only what is their own.
--
-- Bounds and fuel: the `for` loop of the select server has FD_SETSIZE rounds as fuel, and running out
-- of it counts as a fault, so that the absence of faults says that the fuel is enough. The loop of
-- isprime runs on fuel, and with enough of it there is an answer for all numbers that the theorem is
-- about. All other loops are structural in the results of the calls, in what is left to do, or in the
-- bytes.
--
-- Where the metrics endpoint, the libuv programs and the load generator keep to the library: the order
-- of libuv's callbacks and what its calls answer are arguments; a peer state is an entry of a heap that
-- can be freed. The timeouts that are set on sockets only make a call fail in time, which is among its
-- answers.
--
-- Not modelled: output to the terminal, signal handlers beyond the flag they set, the mains of the
-- libuv programs, which only call the library, the times and statistics of the load generator, which
-- are doubles, the listeners and demonstrations, which print what the kernel answers, the unit tests
-- and the Python programs. libuv and liburing are not part of the repository; of liburing the model
-- takes which submission completes, its result, and whether a full submission queue can be flushed.
pub mod Agreement
pub mod Blocking
pub mod Epoll
pub mod Exec
pub mod Framing
pub mod Isprime
pub mod Loadgen
pub mod Metrics
pub mod MetricsServer
pub mod Peer
pub mod Prelude
pub mod Protocol
pub mod Select
pub mod Sockets
pub mod Sys
pub mod Text
pub mod Threadpool
pub mod Uring
pub mod UvServer
