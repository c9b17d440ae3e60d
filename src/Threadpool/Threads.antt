-- ===== src/Threadpool/Threads.antt =====
-- src/threadpool_server.c: the acceptor (the loop of `main`) and the workers (`worker_main`), as
-- threads whose steps interleave. A step is what a thread does between two points at which another
-- may come in: one critical section, one signal, one update of the metrics.
pub mod Sound
pub mod Sections
pub mod Steps
pub mod Waits
pub mod Waking
use concurrent_servers.Prelude.{
  ℕ, suc, ◌+◌, ◌≡◌, ◌≢◌, List, [], ◌∷◌, ◌++◌, Option, none, some, Bool, true, false, ◌||◌,
  if◌then◌else◌, get_elem?, set, replicate, pos, negsuc,
}
use concurrent_servers.Sys.{Errno, emfile, enfile, enobufs, enomem, is_eintr}
use concurrent_servers.Exec.{is_aborted}
use concurrent_servers.Metrics.{
  Registry, metrics_connection_accepted, metrics_connection_refused, metrics_connection_closed,
  metrics_workers_busy_add, metrics_request_observed,
}
use concurrent_servers.Threadpool.Queue.{
  FdQueue, queue_push, queue_pop, Pushed, full, queued, Popped, empty, popped,
}

-- Where the acceptor stands: about to test `stop_requested` and call accept; with a connection, before
-- `metrics_connection_accepted` or before it tests for room; in the wait on `not_full`; after a push,
-- before its signal; past the loop; or dead of `perror_die`.
pub data Acceptor : Type 0 where
  accepting : Acceptor
  counting pushing blocked : ℕ → Acceptor
  signalling_not_empty stopped dead : Acceptor

-- Where a worker stands: about to test for a connection; in the wait on `not_empty`; with a connection,
-- before its signal, before the busy gauge goes up, in `serve_connection`, before the gauge goes down,
-- before `close`, or before `metrics_connection_closed`.
pub data Worker : Type 0 where
  testing waiting : Worker
  signalling_not_full starting serving served closing : ℕ → Worker
  counting_closed : Worker

pub record Pool : Type 0 where
  pub queue : FdQueue
  pub metrics : Registry
  pub acceptor : Acceptor
  pub workers : List Worker
  pub arrived : List ℕ
  pub taken : List ℕ

-- The errno values for which the acceptor tries again at once, and those for which it counts a
-- refusal and backs off.
abbrev pub is_retried : Errno → Bool
is_retried e = is_eintr e || is_aborted e

abbrev pub is_refusal : Errno → Bool
is_refusal emfile = true
is_refusal enfile = true
is_refusal enobufs = true
is_refusal enomem = true
is_refusal _ = false

-- What follows a failed accept.
pub after_failed_accept : Errno → Pool → Pool
after_failed_accept e s =
    if is_retried e
    then s
    else if is_refusal e
    then record s { metrics = metrics_connection_refused s.metrics }
    else record s { acceptor = dead }

-- What follows one test of the condition in `queue_push`, and in `queue_pop` of worker `i`.
unfoldable pub after_push : ℕ → Option Pushed → Pool → Option Pool
after_push fd none s = none
after_push fd (some (full q)) s = some (record s { queue = q; acceptor = blocked fd })
after_push fd (some (queued q g)) s =
    some (record s { queue = q; metrics = g; acceptor = signalling_not_empty })

pub after_pop : ℕ → Option Popped → Pool → Option Pool
after_pop i none s = none
after_pop i (some empty) s = some (record s { workers = set s.workers i waiting })
after_pop i (some (popped fd q g)) s = some (record s {
  queue = q;
  metrics = g;
  workers = set s.workers i (signalling_not_full fd);
  taken = s.taken ++ (fd ∷ []);
})

-- pthread_cond_signal on `not_full`: the acceptor goes on if it waits.
abbrev pub roused : Acceptor → Acceptor
roused (blocked fd) = pushing fd
roused a = a

abbrev pub with_worker : Pool → ℕ → Worker → Pool
with_worker s i w = record s { workers = set s.workers i w }

-- The steps. `none` is a fault.
pub data Step (s : Pool) : Option Pool → Type 0 where
  accepts :
      (fd : ℕ)
      → s.acceptor ≡ accepting
      → Step s (some (record s { acceptor = counting fd; arrived = s.arrived ++ (fd ∷ []) }))
  fails : (e : Errno) → s.acceptor ≡ accepting → Step s (some (after_failed_accept e s))
  stops : s.acceptor ≡ accepting → Step s (some (record s { acceptor = stopped }))
  counts :
      (fd : ℕ)
      → s.acceptor ≡ counting fd
      → Step s (
          some
            (record s { acceptor = pushing fd; metrics = metrics_connection_accepted s.metrics }))
  pushes :
      (fd : ℕ)
      → s.acceptor ≡ pushing fd
      → Step s (after_push fd (queue_push s.queue fd s.metrics) s)
  -- pthread_cond_signal on `not_empty`: a worker that waits goes on; none does if none waits.
  signals :
      (i : ℕ)
      → s.acceptor ≡ signalling_not_empty
      → get_elem? s.workers i ≡ some waiting
      → Step s (some (record s { acceptor = accepting; workers = set s.workers i testing }))
  signals_nobody :
      s.acceptor ≡ signalling_not_empty
      → ((i : ℕ) → get_elem? s.workers i ≢ some waiting)
      → Step s (some (record s { acceptor = accepting }))
  -- pthread_cond_wait may return without a signal.
  acceptor_wakes :
      (fd : ℕ) → s.acceptor ≡ blocked fd → Step s (some (record s { acceptor = pushing fd }))
  worker_wakes :
      (i : ℕ) → get_elem? s.workers i ≡ some waiting → Step s (some (with_worker s i testing))
  pops :
      (i : ℕ)
      → get_elem? s.workers i ≡ some testing
      → Step s (after_pop i (queue_pop s.queue s.metrics) s)
  signals_room :
      (i fd : ℕ)
      → get_elem? s.workers i ≡ some (signalling_not_full fd)
      → Step s (
          some (record s { acceptor = roused s.acceptor; workers = set s.workers i (starting fd) }))
  starts :
      (i fd : ℕ)
      → get_elem? s.workers i ≡ some (starting fd)
      → Step s (
          some (record s {
            metrics = metrics_workers_busy_add (pos 1) s.metrics;
            workers = set s.workers i (serving fd);
          }))
  -- serve_connection observes each request that it has answered.
  observes :
      (i fd duration : ℕ)
      → get_elem? s.workers i ≡ some (serving fd)
      → Step s (some (record s { metrics = metrics_request_observed duration s.metrics }))
  serves :
      (i fd : ℕ)
      → get_elem? s.workers i ≡ some (serving fd)
      → Step s (some (with_worker s i (served fd)))
  finishes :
      (i fd : ℕ)
      → get_elem? s.workers i ≡ some (served fd)
      → Step s (
          some (record s {
            metrics = metrics_workers_busy_add (negsuc 0) s.metrics;
            workers = set s.workers i (closing fd);
          }))
  closes :
      (i fd : ℕ)
      → get_elem? s.workers i ≡ some (closing fd)
      → Step s (some (with_worker s i counting_closed))
  counts_closed :
      (i : ℕ)
      → get_elem? s.workers i ≡ some counting_closed
      → Step s (
          some (record s {
            metrics = metrics_connection_closed s.metrics;
            workers = set s.workers i testing;
          }))

-- `main` up to its loop: an empty queue, and `num_workers` workers.
unfoldable pub started : FdQueue → ℕ → Registry → Pool
started q num_workers g = record {
  queue = q;
  metrics = g;
  acceptor = accepting;
  workers = replicate num_workers testing;
  arrived = [];
  taken = [];
}

-- The states that can come about.
pub data Reachable (start : Pool) : Pool → Type 0 where
  at_start : Reachable start start
  after : (s : Pool) {s' : Pool} → Reachable start s → Step s (some s') → Reachable start s'
