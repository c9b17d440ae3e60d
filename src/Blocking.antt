-- ===== src/Blocking.antt =====
-- src/sequential_server.c and src/threaded_server.c: the loops of the two mains over serve_connection.
-- Neither exposes its metrics.
pub mod InTurn
pub mod Owned
pub mod Tests
use concurrent_servers.Prelude.{
  remove, ℕ, suc, ◌≡◌, List, [], ◌∷◌, ◌++◌, Option, some, Bool, true, false, ◌||◌, ◌==◌,
  if◌then◌else◌, get_elem?,
}
use concurrent_servers.Sys.{Errno, is_eintr, RecvResult, SendResult, ClockReading}
use concurrent_servers.Exec.{is_aborted}
use concurrent_servers.Metrics.{Registry}
use concurrent_servers.Protocol.{
  ServeResult, ServeStatus, returned, blocked_recv, blocked_send, fault, Conn, serve_connection,
}

-- A connection: its descriptor, and what the kernel does with it.
pub record Client : Type 0 where
  pub fd : ℕ
  pub clock : ℕ → ClockReading
  pub recvs : List RecvResult
  pub sends : List SendResult

-- The answer of accept.
pub data Accept : Type 0 where
  incoming : Client → Accept
  accept_failed : Errno → Accept

abbrev pub is_retried : Errno → Bool
is_retried e = is_eintr e || is_aborted e

-- A conversation: the client, the registry before, and the answer of serve_connection.
pub record Visit : Type 0 where
  pub client : Client
  pub before : Registry
  pub answer : ServeStatus × Conn

abbrev pub serve_client : Client → Registry → ServeStatus × Conn
serve_client k g = serve_connection k.clock k.recvs k.sends g

-- The sequential server, with all it has served.
pub record Server : Type 0 where
  pub metrics : Registry
  pub open_fds : List ℕ
  pub visits : List Visit

-- It waits in accept, has died of perror_die, is blocked in serve_connection, or has gone out of bounds.
pub data How : Type 0 where
  waits dies blocks faults : How

-- What follows serve_connection, by its status. `continue` is the next round of the loop.
pub after_serve : ServeStatus → ℕ → Server → (Server → How × Server) → How × Server
after_serve (returned r) fd s continue = continue (record s { open_fds = remove fd s.open_fds })
after_serve blocked_recv fd s continue = (blocks, s)
after_serve blocked_send fd s continue = (blocks, s)
after_serve fault fd s continue = (faults, s)

pub on_client : Client → Server → (Server → How × Server) → How × Server
on_client k s continue =
    let a = serve_client k s.metrics in
    after_serve a.0 k.fd
      (record {
        metrics = a.1.metrics;
        open_fds = k.fd ∷ s.open_fds;
        visits = s.visits ++ (record { client = k; before = s.metrics; answer = a } ∷ []);
      })
      continue

-- The loop of the sequential server, by what accept answers.
pub serve_clients : List Accept → Server → How × Server
serve_clients [] s = (waits, s)
serve_clients (incoming k ∷ accepts) s = on_client k s (serve_clients accepts)
serve_clients (accept_failed e ∷ accepts) s =
    let rest = serve_clients accepts s in if is_retried e then rest else (dies, s)

-- The threaded server: whether the process runs, the connections that have a thread, and the open descriptors.
pub record Threads : Type 0 where
  pub runs : Bool
  pub serving : List Client
  pub open_fds : List ℕ

-- What follows accept; `created` is whether pthread_create succeeds.
pub on_accepted : Client → Bool → Threads → Threads
on_accepted k true s = record s { serving = k ∷ s.serving; open_fds = k.fd ∷ s.open_fds }
on_accepted k false s = record s { open_fds = remove k.fd (k.fd ∷ s.open_fds) }

pub on_failed : Errno → Threads → Threads
on_failed e s = if is_retried e then s else record s { runs = false }

-- `server_thread` for the client `k`, from the return of serve_connection to its end.
pub end_thread : Client → List Client → Threads → Threads
end_thread k others s = record s { serving = others; open_fds = remove k.fd s.open_fds }

-- A step of main, or of a thread whose serve_connection has returned; `before` is the registry then.
pub data Step (s : Threads) : Threads → Type 0 where
  accepts : (k : Client) (created : Bool) → s.runs ≡ true → Step s (on_accepted k created s)
  fails : (e : Errno) → s.runs ≡ true → Step s (on_failed e s)
  -- xmalloc for the configuration of a new thread fails.
  out_of_memory : s.runs ≡ true → Step s (record s { runs = false })
  ends :
      (k : Client) (front back : List Client) (before : Registry) (r : ServeResult)
      → s.serving ≡ front ++ (k ∷ back)
      → s.runs ≡ true
      → (serve_client k before).0 ≡ returned r
      → Step s (end_thread k (front ++ back) s)
