-- ===== src/Threadpool/Threads/Waking.antt =====
-- The waits of src/threadpool_server.c end: no signal goes missing.
use concurrent_servers.Prelude.{
  ℕ, zero, suc, ◌≡◌, refl, ap, subst, [], ◌∷◌, ◌++◌, Option, some, arith, get_elem?, replicate, pos,
  negsuc,
}
use concurrent_servers.Metrics.{
  Registry, metrics_connection_accepted, metrics_connection_closed, metrics_workers_busy_add,
}
use concurrent_servers.Threadpool.Queue.{FdQueue}
use concurrent_servers.Threadpool.Queue.Fifo.{queue_push-PushIs, queue_pop-PopIs}
use concurrent_servers.Threadpool.Threads.{
  accepting, counting, pushing, blocked, stopped, testing, waiting, signalling_not_full, starting,
  serving, served, closing, counting_closed, Pool, roused, Step, accepts, fails, stops, counts,
  pushes, signals, signals_nobody, acceptor_wakes, worker_wakes, pops, signals_room, starts,
  observes, serves, finishes, closes, counts_closed, started, Reachable, at_start, after,
}
use concurrent_servers.Threadpool.Threads.Sound.{IsSound}
use concurrent_servers.Threadpool.Threads.Steps.{Reachable-IsSound}
use concurrent_servers.Threadpool.Threads.Waits.{
  signals_due, IsAwake, worker_goes_on, acceptor_goes_on, the_pool, failed-IsAwake, pushed-IsAwake,
  popped-IsAwake, roused-ne, signals_due-roused,
}

Step-IsAwake :
    (s : Pool) {answer : Option Pool} (s' : Pool)
    → Step s answer
    → answer ≡ some s'
    → IsSound s
    → IsAwake s
    → IsAwake s'
Step-IsAwake s s' (accepts fd at) e sound h = subst IsAwake (the_pool e) (
    acceptor_goes_on s (counting fd) s.metrics (s.arrived ++ (fd ∷ [])) h
      (omega (arith, ap signals_due at)) (λ fd' e'. cc))
Step-IsAwake s s' (fails err at) e sound h = subst IsAwake (the_pool e) (failed-IsAwake err s h at)
Step-IsAwake s s' (stops at) e sound h = subst IsAwake (the_pool e) (
    acceptor_goes_on s stopped s.metrics s.arrived h (omega (arith, ap signals_due at))
      (λ fd e'. cc))
Step-IsAwake s s' (counts fd at) e sound h = subst IsAwake (the_pool e) (
    acceptor_goes_on s (pushing fd) (metrics_connection_accepted s.metrics) s.arrived h
      (omega (arith, ap signals_due at)) (λ fd' e'. cc))
Step-IsAwake s s' (pushes fd at) e sound h =
    pushed-IsAwake s fd h at (queue_push-PushIs s.queue fd s.metrics sound.queue) e
Step-IsAwake s s' (signals i at at') e sound h = subst IsAwake (the_pool e) (
    worker_goes_on s i waiting testing accepting s.metrics h at' (λ e'. cc)
      (omega (arith, ap signals_due at)) (λ fd e'. absurd (clash e')))
  where
    clash : {fd : ℕ} → accepting ≡ blocked fd → ⊥
    clash e = cc
Step-IsAwake s s' (signals_nobody at none_waits) e sound h = subst IsAwake (the_pool e) (record {
  workers = λ j waits. absurd (none_waits j waits);
  acceptor = λ fd e'. absurd (clash e');
})
  where
    clash : {fd : ℕ} → accepting ≡ blocked fd → ⊥
    clash e = cc
Step-IsAwake s s' (acceptor_wakes fd at) e sound h = subst IsAwake (the_pool e) (
    acceptor_goes_on s (pushing fd) s.metrics s.arrived h (omega (arith, ap signals_due at))
      (λ fd' e'. cc))
Step-IsAwake s s' (worker_wakes i at) e sound h = subst IsAwake (the_pool e) (
    worker_goes_on s i waiting testing s.acceptor s.metrics h at (λ e'. cc) (omega arith)
      (λ fd e'. (e', omega arith)))
Step-IsAwake s s' (pops i at) e sound h =
    popped-IsAwake s i h at (queue_pop-PopIs s.queue s.metrics sound.queue) e
Step-IsAwake s s' (signals_room i fd at) e sound h = subst IsAwake (the_pool e) (
    worker_goes_on s i (signalling_not_full fd) (starting fd) (roused s.acceptor) s.metrics h at
      (λ e'. cc) (omega (arith, signals_due-roused s.acceptor))
      (λ fd' e'. absurd (roused-ne s.acceptor fd' e')))
Step-IsAwake s s' (starts i fd at) e sound h = subst IsAwake (the_pool e) (
    worker_goes_on s i (starting fd) (serving fd) s.acceptor
      (metrics_workers_busy_add (pos 1) s.metrics) h at (λ e'. cc) (omega arith)
      (λ fd e'. (e', omega arith)))
Step-IsAwake s s' (observes i fd duration at) e sound h =
    subst IsAwake (the_pool e) (record { workers = h.workers; acceptor = h.acceptor })
Step-IsAwake s s' (serves i fd at) e sound h = subst IsAwake (the_pool e) (
    worker_goes_on s i (serving fd) (served fd) s.acceptor s.metrics h at (λ e'. cc) (omega arith)
      (λ fd e'. (e', omega arith)))
Step-IsAwake s s' (finishes i fd at) e sound h = subst IsAwake (the_pool e) (
    worker_goes_on s i (served fd) (closing fd) s.acceptor
      (metrics_workers_busy_add (negsuc 0) s.metrics) h at (λ e'. cc) (omega arith)
      (λ fd e'. (e', omega arith)))
Step-IsAwake s s' (closes i fd at) e sound h = subst IsAwake (the_pool e) (
    worker_goes_on s i (closing fd) counting_closed s.acceptor s.metrics h at (λ e'. cc)
      (omega arith) (λ fd e'. (e', omega arith)))
Step-IsAwake s s' (counts_closed i at) e sound h = subst IsAwake (the_pool e) (
    worker_goes_on s i counting_closed testing s.acceptor (metrics_connection_closed s.metrics) h at
      (λ e'. cc) (omega arith) (λ fd e'. (e', omega arith)))

started-IsAwake : (q : FdQueue) (num_workers : ℕ) (g : Registry) → IsAwake (started q num_workers g)
unfolding started
started-IsAwake q num_workers g = record {
  workers = λ i waits. absurd (none_waits num_workers i waits);
  acceptor = λ fd e. absurd (clash e);
}
  where
    none_waits : (n i : ℕ) → get_elem? (replicate n testing) i ≡ some waiting → ⊥
    none_waits zero i e = cc
    none_waits (suc n) zero e = cc
    none_waits (suc n) (suc i) e = none_waits n i e

    clash : {fd : ℕ} → accepting ≡ blocked fd → ⊥
    clash e = cc

-- However the threads interleave, and whichever waits end without a signal, no wakeup is lost: while
-- a worker waits, the queued connections are no more than the workers about to test for one and the
-- signals due; and while the acceptor waits, the queue is full or a worker is about to signal room. The
-- start is as it should be.
pub Reachable-IsAwake :
    (q : FdQueue) (num_workers : ℕ) (g : Registry) (s : Pool)
    → IsSound (started q num_workers g)
    → Reachable (started q num_workers g) s
    → IsAwake s
Reachable-IsAwake q num_workers g s sound at_start = started-IsAwake q num_workers g
Reachable-IsAwake q num_workers g s sound (after s' r step) =
    Step-IsAwake s' s step refl (Reachable-IsSound (started q num_workers g) s' r sound)
      (Reachable-IsAwake q num_workers g s' sound r)
