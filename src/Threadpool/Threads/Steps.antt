-- ===== src/Threadpool/Threads/Steps.antt =====
-- Every step of the threads of src/threadpool_server.c keeps the connections and the gauges.
use concurrent_servers.Prelude.{
  ℕ, zero, suc, ◌<◌, ◌^◌, ◌≡◌, ◌≢◌, refl, sym, ap, ◌∙◌, subst, [], ◌∷◌, ◌++◌, Option, none, some,
  arith, replicate, pos, negsuc, length-replicate,
}
use concurrent_servers.Metrics.{
  Registry, metrics_connection_accepted, metrics_connection_closed, metrics_workers_busy_add,
  metrics_request_observed,
}
use concurrent_servers.Threadpool.Queue.{FdQueue}
use concurrent_servers.Threadpool.Queue.Slots.{IsQueue, contents}
use concurrent_servers.Threadpool.Queue.Fifo.{queue_push-PushIs, queue_pop-PopIs}
use concurrent_servers.Threadpool.Threads.{
  accepting, counting, pushing, stopped, Worker, testing, waiting, signalling_not_full, starting,
  serving, served, closing, counting_closed, Pool, roused, Step, accepts, fails, stops, counts,
  pushes, signals, signals_nobody, acceptor_wakes, worker_wakes, pops, signals_room, starts,
  observes, serves, finishes, closes, counts_closed, started, Reachable, at_start, after,
}
use concurrent_servers.Threadpool.Threads.Sound.{
  total, total-set, is_busy, holds, in_hand, counted, IsSound, gauges_small, worker_moved,
  acceptor_moved,
}
use concurrent_servers.Threadpool.Threads.Sections.{
  order_without, order_with, SoundAfter, failed-Sound, pushed-Sound, popped-Sound, in_hand-roused,
  counted-roused, counted_small,
}

Step-IsSound : (s : Pool) {answer : Option Pool} → Step s answer → IsSound s → SoundAfter answer
unfolding metrics_connection_accepted metrics_connection_closed metrics_workers_busy_add
    metrics_request_observed
Step-IsSound s (accepts fd at) h = (
  _,
  refl,
  acceptor_moved s (counting fd) s.metrics (s.arrived ++ (fd ∷ [])) h (order_with s fd h at) refl
      refl (omega (arith, ap counted at)),
)
Step-IsSound s (fails e at) h = (_, refl, failed-Sound e s h at)
Step-IsSound s (stops at) h = (
  _,
  refl,
  acceptor_moved s stopped s.metrics s.arrived h (order_without s stopped h (ap in_hand (sym at)))
      refl refl (omega (arith, ap counted at)),
)
Step-IsSound s (counts fd at) h = (
  _,
  refl,
  acceptor_moved s (pushing fd) (metrics_connection_accepted s.metrics) s.arrived h
      (order_without s (pushing fd) h (ap in_hand (sym at))) refl refl
      (omega (arith, ap counted at, h.active, gauges_small s h)),
)
Step-IsSound s (pushes fd at) h =
    pushed-Sound s fd h at (queue_push-PushIs s.queue fd s.metrics h.queue)
Step-IsSound s (signals i at at') h = (
  _,
  refl,
  worker_moved s i waiting testing accepting s.metrics h at' (ap in_hand (sym at))
      (ap counted (sym at)) refl refl refl,
)
Step-IsSound s (signals_nobody at none_waits) h = (
  _,
  refl,
  acceptor_moved s accepting s.metrics s.arrived h
      (order_without s accepting h (ap in_hand (sym at))) refl refl (omega (arith, ap counted at)),
)
Step-IsSound s (acceptor_wakes fd at) h = (
  _,
  refl,
  acceptor_moved s (pushing fd) s.metrics s.arrived h
      (order_without s (pushing fd) h (ap in_hand (sym at))) refl refl
      (omega (arith, ap counted at)),
)
Step-IsSound s (worker_wakes i at) h =
    (_, refl, worker_moved s i waiting testing s.acceptor s.metrics h at refl refl refl refl refl)
Step-IsSound s (pops i at) h = popped-Sound s i h at (queue_pop-PopIs s.queue s.metrics h.queue)
Step-IsSound s (signals_room i fd at) h = (
  _,
  refl,
  worker_moved s i (signalling_not_full fd) (starting fd) (roused s.acceptor) s.metrics h at
      (in_hand-roused s.acceptor) (counted-roused s.acceptor) refl refl refl,
)
Step-IsSound s (starts i fd at) h = (
  _,
  refl,
  worker_moved s i (starting fd) (serving fd) s.acceptor
      (metrics_workers_busy_add (pos 1) s.metrics) h at refl refl refl
      (omega (arith, h.busy, gauges_small s h)) refl,
)
Step-IsSound s (observes i fd duration at) h = (
  _,
  refl,
  record {
    queue = h.queue;
    order = h.order;
    depth = h.depth;
    busy = h.busy;
    active = h.active;
    few = h.few;
  },
)
Step-IsSound s (serves i fd at) h = (
  _,
  refl,
  worker_moved s i (serving fd) (served fd) s.acceptor s.metrics h at refl refl refl refl refl,
)
Step-IsSound s (finishes i fd at) h = (
  _,
  refl,
  worker_moved s i (served fd) (closing fd) s.acceptor
      (metrics_workers_busy_add (negsuc 0) s.metrics) h at refl refl refl
      (omega (
        arith,
        h.busy,
        gauges_small s h,
        total-set is_busy s.workers i (served fd) (closing fd) at,
      ))
      refl,
)
Step-IsSound s (closes i fd at) h = (
  _,
  refl,
  worker_moved s i (closing fd) counting_closed s.acceptor s.metrics h at refl refl refl refl refl,
)
Step-IsSound s (counts_closed i at) h = (
  _,
  refl,
  worker_moved s i counting_closed testing s.acceptor (metrics_connection_closed s.metrics) h at
      refl refl refl refl
      (omega (
        arith,
        h.active,
        gauges_small s h,
        counted_small s.acceptor,
        total-set holds s.workers i counting_closed testing at,
      )),
)

pub started-IsSound :
    (q : FdQueue) (num_workers : ℕ) (g : Registry)
    → IsQueue q
    → contents q ≡ []
    → q.count ≡ 0
    → num_workers < 2 ^ 62
    → g.queue_depth ≡ 0
    → g.workers_busy ≡ 0
    → g.active ≡ 0
    → IsSound (started q num_workers g)
unfolding started
started-IsSound q num_workers g v nothing none_queued few depth busy active = record {
  queue = v;
  order = ap (λ xs. xs ++ []) nothing;
  depth = depth ∙ sym none_queued;
  busy = busy ∙ sym (idle is_busy num_workers refl);
  active = omega (arith, active, none_queued, idle holds num_workers refl);
  few = omega (arith, few, length-replicate num_workers testing);
}
  where
    idle :
        (weight : Worker → ℕ) (n : ℕ) → weight testing ≡ 0 → total weight (replicate n testing) ≡ 0
    idle weight zero e = refl
    idle weight (suc n) e = omega (arith, e, idle weight n e)

-- Between any two steps of the threads, however they interleave, the connections taken by workers,
-- those in the queue and the one in the acceptor's hand are, in this order, those that arrived; the
-- depth gauge is the length of the queue; the busy gauge is the number of workers within its bracket;
-- and the active gauge is the number of connections that are counted and not yet counted as closed.
-- The start is as it should be.
pub Reachable-IsSound : (start s : Pool) → Reachable start s → IsSound start → IsSound s
Reachable-IsSound start s at_start h = h
Reachable-IsSound start s (after s' r step) h =
    let (q, e, v) = Step-IsSound s' step (Reachable-IsSound start s' r h) in
    subst IsSound (the_pool e) v
  where
    the_pool : {p q : Pool} → some p ≡ some q → q ≡ p
    the_pool e = cc

-- No step of the threads makes an access out of bounds, in any state that can come about from a start
-- that is as it should be.
pub Step-some :
    (start s : Pool) {answer : Option Pool}
    → Reachable start s
    → IsSound start
    → Step s answer
    → answer ≢ none
Step-some start s r h step e =
    let (q, e', _) = Step-IsSound s step (Reachable-IsSound start s r h) in clash e' e
  where
    clash : {answer : Option Pool} {q : Pool} → answer ≡ some q → answer ≡ none → ⊥
    clash e' e = cc
