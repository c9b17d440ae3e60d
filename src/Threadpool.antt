-- ===== src/Threadpool.antt =====
-- src/threadpool_server.c: the queue of accepted connections (Queue), the acceptor and the workers
-- as threads (Threads), and the arguments of the command line (Ports).
pub mod Queue
pub mod Threads
pub mod Arguments
pub mod Startup
pub mod Tests
