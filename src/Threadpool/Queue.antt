-- ===== src/Threadpool/Queue.antt =====
-- src/threadpool_server.c: `fd_queue_t`. A function is what one thread does while it holds the lock;
-- `none` is an access out of bounds.
pub mod Slots
pub mod Fifo
use concurrent_servers.Prelude.{
  ℕ, suc, ◌+◌, ◌*◌, ◌%◌, ◌^◌, List, Option, none, some, ◌>>=◌, Bool, ◌==◌, if◌then◌else◌, get_elem?,
  write_at,
}
use concurrent_servers.Sys.{add_u64, sub_u64}
use concurrent_servers.Metrics.{Registry, metrics_queue_depth_set}

pub record FdQueue : Type 0 where
  pub fds : List ℕ
  pub capacity : ℕ
  pub head : ℕ
  pub tail : ℕ
  pub count : ℕ
  pub total_enqueued : ℕ
  pub acceptor_blocked : ℕ

-- `queue_init`. `slots` is what xmalloc returned, for `capacity` descriptors.
unfoldable pub queue_init : List ℕ → ℕ → FdQueue
queue_init slots capacity = record {
  fds = slots;
  capacity = capacity;
  head = 0;
  tail = 0;
  count = 0;
  total_enqueued = 0;
  acceptor_blocked = 0;
}

-- What one test of the condition of `queue_push` leads to: a wait on `not_full`, or the push.
pub data Pushed : Type 0 where
  full : FdQueue → Pushed
  queued : FdQueue → Registry → Pushed

unfoldable pub enqueue : FdQueue → ℕ → Registry → Option Pushed
enqueue q fd g = write_at q.fds q.tail fd >>= λ fds. some (
    queued
      (record q {
        fds = fds;
        tail = add_u64 q.tail 1 % q.capacity;
        count = add_u64 q.count 1;
        total_enqueued = add_u64 q.total_enqueued 1;
      })
      (metrics_queue_depth_set (add_u64 q.count 1) g))

unfoldable pub queue_push : FdQueue → ℕ → Registry → Option Pushed
queue_push q fd g =
    if q.count == q.capacity
    then some (full (record q { acceptor_blocked = add_u64 q.acceptor_blocked 1 }))
    else enqueue q fd g

-- What one test of the condition of `queue_pop` leads to: a wait on `not_empty`, or the pop.
pub data Popped : Type 0 where
  empty : Popped
  popped : ℕ → FdQueue → Registry → Popped

pub dequeue : FdQueue → Registry → Option Popped
dequeue q g = get_elem? q.fds q.head >>= λ fd. some (
    popped fd (record q { head = add_u64 q.head 1 % q.capacity; count = sub_u64 q.count 1 })
      (metrics_queue_depth_set (sub_u64 q.count 1) g))

pub queue_pop : FdQueue → Registry → Option Popped
queue_pop q g = if q.count == 0 then some empty else dequeue q g
