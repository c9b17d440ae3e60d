-- ===== src/Threadpool/Queue/Fifo.antt =====
-- The circular queue of src/threadpool_server.c is a bounded first-in first-out queue.
use concurrent_servers.Prelude.{
  ℕ, suc, ◌-◌, ◌^◌, ◌<◌, ◌≡◌, refl, ap, ◌∙◌, inl, inr, ◌⊎◌, false, List, [], ◌∷◌, ◌++◌, Option,
  some, arith, ◌==◌, Bool-cases, length, set, write_at, length-set, get_elem?-some,
}
use concurrent_servers.Sys.{add_u64, sub_u64}
use concurrent_servers.Metrics.{Registry, metrics_queue_depth_set}
use concurrent_servers.Threadpool.Queue.{
  FdQueue, queue_init, Pushed, full, queued, enqueue, queue_push, Popped, empty, popped, dequeue,
  queue_pop,
}
use concurrent_servers.Threadpool.Queue.Slots.{
  following, slots_from, slots_from-some, contents, IsQueue, following-cases, slots_from-set,
}

-- What a push leads to: a wait that changes nothing that is queued, and only when the queue is full;
-- or the descriptor behind all others, with the gauge at the new depth.
pub data PushIs (q : FdQueue) (fd : ℕ) (g : Registry) : Option Pushed → Type 0 where
  push_waits :
      (q' : FdQueue)
      → q.count ≡ q.capacity
      → IsQueue q'
      → contents q' ≡ contents q
      → q'.count ≡ q.count
      → q'.capacity ≡ q.capacity
      → PushIs q fd g (some (full q'))
  push_queues :
      (q' : FdQueue)
      → q.count < q.capacity
      → IsQueue q'
      → contents q' ≡ contents q ++ (fd ∷ [])
      → q'.count ≡ suc q.count
      → q'.capacity ≡ q.capacity
      → PushIs q fd g (some (queued q' (metrics_queue_depth_set (suc q.count) g)))

-- What a pop leads to: a wait, only when the queue is empty; or the oldest descriptor.
pub data PopIs (q : FdQueue) (g : Registry) : Option Popped → Type 0 where
  pop_waits : q.count ≡ 0 → contents q ≡ [] → PopIs q g (some empty)
  pop_takes :
      (fd : ℕ) (q' : FdQueue)
      → IsQueue q'
      → contents q ≡ fd ∷ contents q'
      → q.count ≡ suc q'.count
      → q'.capacity ≡ q.capacity
      → PopIs q g (some (popped fd q' (metrics_queue_depth_set q'.count g)))

pub queue_init-IsQueue :
    (slots : List ℕ) (capacity : ℕ)
    → length slots ≡ capacity
    → 0 < capacity
    → capacity < 2 ^ 63
    → IsQueue (queue_init slots capacity) × (contents (queue_init slots capacity) ≡ [])
unfolding queue_init
queue_init-IsQueue slots capacity size some_room small = (
  record {
    size = size;
    small = small;
    head_in = some_room;
    tail_in = some_room;
    bounded = omega arith;
    apart = inl (omega arith);
  },
  refl,
)

-- queue_push on a queue that is as it should be: a wait that changes nothing that is queued, and only
-- when the queue is full; or the descriptor stored within the array behind all others, with the queue
-- as it should be, and the gauge at the new depth.
pub queue_push-PushIs :
    (q : FdQueue) (fd : ℕ) (g : Registry) → IsQueue q → PushIs q fd g (queue_push q fd g)
unfolding queue_push enqueue
queue_push-PushIs q fd g v = elim (Bool-cases (q.count == q.capacity)) [
  | inl at_capacity ↦ rw at_capacity (
      push_waits (record q { acceptor_blocked = add_u64 q.acceptor_blocked 1 })
        (ground (arith, at_capacity))
        (record {
          size = v.size;
          small = v.small;
          head_in = v.head_in;
          tail_in = v.tail_in;
          bounded = v.bounded;
          apart = v.apart;
        })
        refl refl refl)
  | inr room ↦
      let not_full = ltb_of room in
      rw (room, stored, counted)
        (push_queues
          (record q {
            fds = set q.fds q.tail fd;
            tail = following q.capacity q.tail;
            count = suc q.count;
            total_enqueued = add_u64 q.total_enqueued 1;
          })
          not_full
          (record {
            size = length-set q.fds q.tail fd ∙ v.size;
            small = v.small;
            head_in = v.head_in;
            tail_in = omega (arith, v.tail_in, next);
            bounded = not_full;
            apart = ground (arith, next, v.apart, v.head_in, v.tail_in);
          })
          (slots_from-set q.fds q.capacity q.head q.count q.tail fd v.size v.small v.head_in
            v.tail_in not_full v.apart)
          refl refl)
]
  where
    ltb_of : (q.count == q.capacity) ≡ false → q.count < q.capacity
    ltb_of room = ground (arith, room, v.bounded)

    stored : write_at q.fds q.tail fd ≡ some (set q.fds q.tail fd)
    stored = ground (arith, v.size, v.tail_in)

    counted : add_u64 q.count 1 ≡ suc q.count
    counted = omega (arith, v.bounded, v.small)

    next :
        ((following q.capacity q.tail ≡ suc q.tail) × (suc q.tail < q.capacity))
        ⊎ ((following q.capacity q.tail ≡ 0) × (suc q.tail ≡ q.capacity))
    next = following-cases q.capacity q.tail v.tail_in v.small

-- queue_pop on a queue that is as it should be: a wait, and only when the queue is empty; or the oldest
-- descriptor, read from within the array, with the others left in their order, the queue as it should
-- be, and the gauge at the new depth.
pub queue_pop-PopIs : (q : FdQueue) (g : Registry) → IsQueue q → PopIs q g (queue_pop q g)
unfolding queue_pop dequeue
queue_pop-PopIs q g v = elim (Bool-cases (q.count == 0)) [
  | inl none_left ↦
      rw none_left (pop_waits (ground (arith, none_left)) (nothing (ground (arith, none_left))))
  | inr some_left ↦
      let (fd, at) = get_elem?-some q.fds q.head (omega (arith, v.size, v.head_in)) in
      rw (some_left, at, counted some_left)
        (pop_takes fd (record q { head = following q.capacity q.head; count = q.count - 1 })
          (record {
            size = v.size;
            small = v.small;
            head_in = omega (arith, v.head_in, next);
            tail_in = v.tail_in;
            bounded = omega (arith, v.bounded);
            apart = ground (arith, next, v.apart, v.head_in, v.tail_in, one_more some_left);
          })
          (ap (slots_from q.fds q.capacity q.head) (one_more some_left)
            ∙ slots_from-some q.fds q.capacity q.head (q.count - 1) at)
          (one_more some_left) refl)
]
  where
    nothing : q.count ≡ 0 → contents q ≡ []
    nothing e = ap (slots_from q.fds q.capacity q.head) e

    one_more : (q.count == 0) ≡ false → q.count ≡ suc (q.count - 1)
    one_more some_left = ground (arith, some_left)

    counted : (q.count == 0) ≡ false → sub_u64 q.count 1 ≡ q.count - 1
    counted some_left = ground (arith, some_left, v.bounded, v.small)

    next :
        ((following q.capacity q.head ≡ suc q.head) × (suc q.head < q.capacity))
        ⊎ ((following q.capacity q.head ≡ 0) × (suc q.head ≡ q.capacity))
    next = following-cases q.capacity q.head v.head_in v.small
