-- ===== src/Threadpool/Threads/Waits.antt =====
-- The waits of src/threadpool_server.c, and what the critical sections and the signals do to them.
use concurrent_servers.Prelude.{
  ℕ, zero, suc, ◌+◌, ◌≤◌, ◌<◌, ◌≡◌, ◌≢◌, refl, ap, subst, inl, inr, ◌⊎◌, List, [], ◌∷◌, Option,
  some, arith, Bool-cases, get_elem?, set,
}
use concurrent_servers.Sys.{Errno}
use concurrent_servers.Metrics.{Registry}
use concurrent_servers.Threadpool.Queue.{Pushed, Popped}
use concurrent_servers.Threadpool.Queue.Fifo.{
  PushIs, push_waits, push_queues, PopIs, pop_waits, pop_takes,
}
use concurrent_servers.Threadpool.Threads.{
  Acceptor, accepting, counting, pushing, blocked, signalling_not_empty, stopped, dead, Worker,
  testing, waiting, signalling_not_full, Pool, is_retried, is_refusal, after_failed_accept,
  after_push, after_pop, roused,
}
use concurrent_servers.Threadpool.Threads.Sound.{total, total-set}

abbrev pub is_testing : Worker → ℕ
is_testing testing = 1
is_testing _ = 0

abbrev pub is_signalling : Worker → ℕ
is_signalling (signalling_not_full fd) = 1
is_signalling _ = 0

-- 1 when a signal on `not_empty` is due.
abbrev pub signals_due : Acceptor → ℕ
signals_due signalling_not_empty = 1
signals_due _ = 0

-- No wakeup is lost: while a worker waits, every queued connection has a worker about to test for it
-- or a signal due; and while the acceptor waits, the queue is full or a worker is about to signal.
pub record IsAwake (s : Pool) : Type 0 where
  pub workers :
      (i : ℕ)
      → get_elem? s.workers i ≡ some waiting
      → s.queue.count ≤ total is_testing s.workers + signals_due s.acceptor
  pub acceptor :
      (fd : ℕ)
      → s.acceptor ≡ blocked fd
      → (s.queue.count ≡ s.queue.capacity) ⊎ (0 < total is_signalling s.workers)

-- Only the worker that a step is about can have come to wait.
still_waiting :
    (ws : List Worker) (i j : ℕ) (v : Worker)
    → v ≢ waiting
    → get_elem? (set ws j v) i ≡ some waiting
    → get_elem? ws i ≡ some waiting
still_waiting [] i j v ne at = at
still_waiting (w ∷ ws) zero zero v ne at = absurd (ne (first at))
  where
    first : some v ≡ some waiting → v ≡ waiting
    first e = cc
still_waiting (w ∷ ws) zero (suc j) v ne at = at
still_waiting (w ∷ ws) (suc i) zero v ne at = at
still_waiting (w ∷ ws) (suc i) (suc j) v ne at = still_waiting ws i j v ne at

-- A step of worker `i` that leaves the queue alone, and does not put it to sleep.
pub worker_goes_on :
    (s : Pool) (i : ℕ) (w v : Worker) (a : Acceptor) (g : Registry)
    → IsAwake s
    → get_elem? s.workers i ≡ some w
    → v ≢ waiting
    → is_testing w + signals_due s.acceptor ≤ is_testing v + signals_due a
    → ((fd : ℕ) → a ≡ blocked fd → (s.acceptor ≡ blocked fd) × (is_signalling w ≤ is_signalling v))
    → IsAwake (record s { metrics = g; acceptor = a; workers = set s.workers i v })
worker_goes_on s i w v a g h at ne more kept = record {
  workers = λ j waits. omega (
    arith,
    h.workers j (still_waiting s.workers j i v ne waits),
    more,
    total-set is_testing s.workers i w v at,
  );
  acceptor = λ fd e.
      let (e', le) = kept fd e in
      elim (h.acceptor fd e') [
        | inl full_up ↦ inl full_up
        | inr due ↦ inr (omega (arith, due, le, total-set is_signalling s.workers i w v at))
      ];
}

-- A step of the acceptor that leaves the queue alone.
pub acceptor_goes_on :
    (s : Pool) (a : Acceptor) (g : Registry) (arrived : List ℕ)
    → IsAwake s
    → signals_due s.acceptor ≤ signals_due a
    → ((fd : ℕ) → a ≢ blocked fd)
    → IsAwake (record s { metrics = g; acceptor = a; arrived = arrived })
acceptor_goes_on s a g arrived h more ne = record {
  workers = λ j waits. omega (arith, h.workers j waits, more);
  acceptor = λ fd e. absurd (ne fd e);
}

pub the_pool : {p q : Pool} → some p ≡ some q → p ≡ q
the_pool e = cc

pub failed-IsAwake :
    (e : Errno) (s : Pool) → IsAwake s → s.acceptor ≡ accepting → IsAwake (after_failed_accept e s)
unfolding after_failed_accept
failed-IsAwake e s h at = elim (Bool-cases (is_retried e)) [
  | inl again ↦ rw again h
  | inr not_again ↦ rw not_again (elim (Bool-cases (is_refusal e)) [
    | inl refusal ↦ rw refusal (record { workers = h.workers; acceptor = h.acceptor })
    | inr fatal ↦ rw fatal (
        acceptor_goes_on s dead s.metrics s.arrived h (omega (arith, ap signals_due at))
          (λ fd e. cc))
  ])
]

pub pushed-IsAwake :
    (s : Pool) (fd : ℕ) {answer : Option Pushed} {s' : Pool}
    → IsAwake s
    → s.acceptor ≡ pushing fd
    → PushIs s.queue fd s.metrics answer
    → after_push fd answer s ≡ some s'
    → IsAwake s'
unfolding after_push
pushed-IsAwake s fd h at (push_waits q at_capacity v same same_count same_capacity) e =
    subst IsAwake (the_pool e) (record {
      workers = λ j waits. omega (arith, h.workers j waits, same_count, ap signals_due at);
      acceptor = λ fd' _. inl (omega (arith, same_count, same_capacity, at_capacity));
    })
pushed-IsAwake s fd h at (push_queues q room v more more_count same_capacity) e =
    subst IsAwake (the_pool e) (record {
      workers = λ j waits. omega (arith, h.workers j waits, more_count, ap signals_due at);
      acceptor = λ fd' e'. absurd (clash e');
    })
  where
    clash : {fd' : ℕ} → signalling_not_empty ≡ blocked fd' → ⊥
    clash e = cc

pub popped-IsAwake :
    (s : Pool) (i : ℕ) {answer : Option Popped} {s' : Pool}
    → IsAwake s
    → get_elem? s.workers i ≡ some testing
    → PopIs s.queue s.metrics answer
    → after_pop i answer s ≡ some s'
    → IsAwake s'
unfolding after_pop
popped-IsAwake s i h at (pop_waits none_queued _) e = subst IsAwake (the_pool e) (record {
  workers = λ j waits. omega (arith, none_queued);
  acceptor = λ fd e'. elim (h.acceptor fd e') [
    | inl full_up ↦ inl full_up
    | inr due ↦ inr (omega (arith, due, total-set is_signalling s.workers i testing waiting at))
  ];
})
popped-IsAwake s i h at (pop_takes fd q v first less same_capacity) e =
    subst IsAwake (the_pool e) (record {
      workers = λ j waits. omega (
        arith,
        less,
        h.workers j (still_waiting s.workers j i (signalling_not_full fd) (λ e'. cc) waits),
        total-set is_testing s.workers i testing (signalling_not_full fd) at,
      );
      acceptor = λ fd' e'.
          inr (
            omega (arith, total-set is_signalling s.workers i testing (signalling_not_full fd) at));
    })

-- A signal leaves the acceptor out of its wait.
pub roused-ne : (a : Acceptor) (fd : ℕ) → roused a ≢ blocked fd
roused-ne accepting fd e = cc
roused-ne (counting fd') fd e = cc
roused-ne (pushing fd') fd e = cc
roused-ne (blocked fd') fd e = cc
roused-ne signalling_not_empty fd e = cc
roused-ne stopped fd e = cc
roused-ne dead fd e = cc

pub signals_due-roused : (a : Acceptor) → signals_due (roused a) ≡ signals_due a
signals_due-roused accepting = refl
signals_due-roused (counting fd) = refl
signals_due-roused (pushing fd) = refl
signals_due-roused (blocked fd) = refl
signals_due-roused signalling_not_empty = refl
signals_due-roused stopped = refl
signals_due-roused dead = refl
