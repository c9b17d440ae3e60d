-- ===== src/Threadpool/Threads/Sound.antt =====
-- What holds between any two steps of the threads of src/threadpool_server.c: the connections and
-- the gauges.
use concurrent_servers.Prelude.{
  ℕ, zero, suc, ◌+◌, ◌≤◌, ◌<◌, ◌^◌, ◌≡◌, ap, ◌∙◌, List, [], ◌∷◌, ◌++◌, some, arith, length,
  get_elem?, set, length-set,
}
use concurrent_servers.Metrics.{Registry}
use concurrent_servers.Threadpool.Queue.Slots.{IsQueue, contents}
use concurrent_servers.Threadpool.Threads.{
  Acceptor, counting, pushing, blocked, Worker, testing, waiting, signalling_not_full, starting,
  serving, served, closing, counting_closed, Pool,
}

abbrev pub total : (Worker → ℕ) → List Worker → ℕ
total weight [] = 0
total weight (w ∷ ws) = weight w + total weight ws

pub total-set :
    (weight : Worker → ℕ) (ws : List Worker) (i : ℕ) (w v : Worker)
    → get_elem? ws i ≡ some w
    → total weight (set ws i v) + weight w ≡ total weight ws + weight v
total-set weight [] i w v at = cc
total-set weight (x ∷ ws) zero w v at = omega (arith, weight_lem at)
  where
    weight_lem : get_elem? (x ∷ ws) zero ≡ some w → weight x ≡ weight w
    weight_lem at = cc
total-set weight (x ∷ ws) (suc i) w v at = omega (arith, total-set weight ws i w v at)

total_le :
    (weight : Worker → ℕ) (ws : List Worker)
    → ((w : Worker) → weight w ≤ 1)
    → total weight ws ≤ length ws
total_le weight [] h = omega arith
total_le weight (w ∷ ws) h = omega (arith, h w, total_le weight ws h)

-- Whether a worker is within the bracket of the busy gauge, and whether it holds a connection that
-- the active gauge counts.
abbrev pub is_busy : Worker → ℕ
is_busy (serving fd) = 1
is_busy (served fd) = 1
is_busy _ = 0

abbrev pub holds : Worker → ℕ
holds testing = 0
holds waiting = 0
holds _ = 1

-- The connection that the acceptor has in its hand, and how many of such the active gauge counts.
abbrev pub in_hand : Acceptor → List ℕ
in_hand (counting fd) = fd ∷ []
in_hand (pushing fd) = fd ∷ []
in_hand (blocked fd) = fd ∷ []
in_hand _ = []

abbrev pub counted : Acceptor → ℕ
counted (pushing fd) = 1
counted (blocked fd) = 1
counted _ = 0

pub record IsSound (s : Pool) : Type 0 where
  pub queue : IsQueue s.queue
  pub order : s.taken ++ (contents s.queue ++ in_hand s.acceptor) ≡ s.arrived
  pub depth : s.metrics.queue_depth ≡ s.queue.count
  pub busy : s.metrics.workers_busy ≡ total is_busy s.workers
  pub active : s.metrics.active ≡ s.queue.count + counted s.acceptor + total holds s.workers
  pub few : length s.workers < 2 ^ 62

is_busy_le : (w : Worker) → is_busy w ≤ 1
is_busy_le testing = omega arith
is_busy_le waiting = omega arith
is_busy_le (signalling_not_full fd) = omega arith
is_busy_le (starting fd) = omega arith
is_busy_le (serving fd) = omega arith
is_busy_le (served fd) = omega arith
is_busy_le (closing fd) = omega arith
is_busy_le counting_closed = omega arith

holds_le : (w : Worker) → holds w ≤ 1
holds_le testing = omega arith
holds_le waiting = omega arith
holds_le (signalling_not_full fd) = omega arith
holds_le (starting fd) = omega arith
holds_le (serving fd) = omega arith
holds_le (served fd) = omega arith
holds_le (closing fd) = omega arith
holds_le counting_closed = omega arith

-- The gauges are small, so that they do not wrap.
pub gauges_small :
    (s : Pool)
    → IsSound s
    → (total is_busy s.workers < 2 ^ 62)
      × (total holds s.workers < 2 ^ 62)
      × (s.queue.count < 2 ^ 63)
gauges_small s h = (
  omega (arith, h.few, total_le is_busy s.workers is_busy_le),
  omega (arith, h.few, total_le holds s.workers holds_le),
  omega (arith, h.queue.bounded, h.queue.small),
)

-- A step of worker `i`, which leaves the queue alone. The acceptor may be roused in it.
pub worker_moved :
    (s : Pool) (i : ℕ) (w v : Worker) (a : Acceptor) (g : Registry)
    → IsSound s
    → get_elem? s.workers i ≡ some w
    → in_hand a ≡ in_hand s.acceptor
    → counted a ≡ counted s.acceptor
    → g.queue_depth ≡ s.metrics.queue_depth
    → g.workers_busy + is_busy w ≡ s.metrics.workers_busy + is_busy v
    → g.active + holds w ≡ s.metrics.active + holds v
    → IsSound (record s { metrics = g; acceptor = a; workers = set s.workers i v })
worker_moved s i w v a g h at same same' depth busy active = record {
  queue = h.queue;
  order = ap (λ xs. s.taken ++ (contents s.queue ++ xs)) same ∙ h.order;
  depth = depth ∙ h.depth;
  busy = omega (arith, busy, h.busy, total-set is_busy s.workers i w v at);
  active = omega (arith, active, h.active, same', total-set holds s.workers i w v at);
  few = omega (arith, h.few, length-set s.workers i v);
}

-- A step of the acceptor that leaves the queue alone.
pub acceptor_moved :
    (s : Pool) (a : Acceptor) (g : Registry) (arrived : List ℕ)
    → IsSound s
    → s.taken ++ (contents s.queue ++ in_hand a) ≡ arrived
    → g.queue_depth ≡ s.metrics.queue_depth
    → g.workers_busy ≡ s.metrics.workers_busy
    → g.active + counted s.acceptor ≡ s.metrics.active + counted a
    → IsSound (record s { metrics = g; acceptor = a; arrived = arrived })
acceptor_moved s a g arrived h order depth busy active = record {
  queue = h.queue;
  order = order;
  depth = depth ∙ h.depth;
  busy = busy ∙ h.busy;
  active = omega (arith, active, h.active);
  few = h.few;
}
