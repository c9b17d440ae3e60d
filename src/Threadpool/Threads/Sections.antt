-- ===== src/Threadpool/Threads/Sections.antt =====
-- What the critical sections of src/threadpool_server.c do to the connections and the gauges.
use concurrent_servers.Prelude.{
  ℕ, ◌≤◌, ◌≡◌, refl, sym, ap, ◌∙◌, inl, inr, [], ◌∷◌, ◌++◌, Option, some, arith, Bool-cases,
  get_elem?, length-set, append-nil, append_assoc,
}
use concurrent_servers.Sys.{Errno}
use concurrent_servers.Metrics.{metrics_connection_refused, metrics_queue_depth_set}
use concurrent_servers.Threadpool.Queue.{Pushed, Popped}
use concurrent_servers.Threadpool.Queue.Slots.{contents}
use concurrent_servers.Threadpool.Queue.Fifo.{
  PushIs, push_waits, push_queues, PopIs, pop_waits, pop_takes,
}
use concurrent_servers.Threadpool.Threads.{
  Acceptor, accepting, counting, pushing, blocked, signalling_not_empty, stopped, dead, testing,
  waiting, signalling_not_full, Pool, is_retried, is_refusal, after_failed_accept, after_push,
  after_pop, roused,
}
use concurrent_servers.Threadpool.Threads.Sound.{
  total-set, is_busy, holds, in_hand, counted, IsSound, worker_moved, acceptor_moved,
}

-- What is in nobody's hand does not show in the order.
pub order_without :
    (s : Pool) (a : Acceptor)
    → IsSound s
    → in_hand a ≡ in_hand s.acceptor
    → s.taken ++ (contents s.queue ++ in_hand a) ≡ s.arrived
order_without s a h e = ap (λ xs. s.taken ++ (contents s.queue ++ xs)) e ∙ h.order

-- A connection that is accepted comes last.
pub order_with :
    (s : Pool) (fd : ℕ)
    → IsSound s
    → s.acceptor ≡ accepting
    → s.taken ++ (contents s.queue ++ (fd ∷ [])) ≡ s.arrived ++ (fd ∷ [])
order_with s fd h e =
    sym (append_assoc s.taken (contents s.queue) (fd ∷ []))
    ∙ ap (λ xs. xs ++ (fd ∷ []))
        (ap (λ xs. s.taken ++ xs) (sym (append-nil (contents s.queue)))
          ∙ order_without s accepting h (ap in_hand (sym e)))

-- A step finds the state as it should be, makes no access out of bounds, and leaves it so.
abbrev pub SoundAfter : Option Pool → Type 0
SoundAfter answer = (s' : Pool) × (answer ≡ some s') × IsSound s'

pub failed-Sound :
    (e : Errno) (s : Pool) → IsSound s → s.acceptor ≡ accepting → IsSound (after_failed_accept e s)
unfolding after_failed_accept metrics_connection_refused
failed-Sound e s h at = elim (Bool-cases (is_retried e)) [
  | inl again ↦ rw again h
  | inr not_again ↦ rw not_again (elim (Bool-cases (is_refusal e)) [
    | inl refusal ↦ rw refusal (
        acceptor_moved s s.acceptor (metrics_connection_refused s.metrics) s.arrived h h.order refl
          refl refl)
    | inr fatal ↦ rw fatal (
        acceptor_moved s dead s.metrics s.arrived h (order_without s dead h (ap in_hand (sym at)))
          refl refl (omega (arith, ap counted at)))
  ])
]

pub pushed-Sound :
    (s : Pool) (fd : ℕ) {answer : Option Pushed}
    → IsSound s
    → s.acceptor ≡ pushing fd
    → PushIs s.queue fd s.metrics answer
    → SoundAfter (after_push fd answer s)
unfolding after_push metrics_queue_depth_set
pushed-Sound s fd h at (push_waits q at_capacity v same same_count same_capacity) = (
  _,
  refl,
  record {
    queue = v;
    order =
        ap (λ xs. s.taken ++ (xs ++ (fd ∷ []))) same
        ∙ order_without s (pushing fd) h (ap in_hand (sym at));
    depth = h.depth ∙ sym same_count;
    busy = h.busy;
    active = omega (arith, h.active, same_count, ap counted at);
    few = h.few;
  },
)
pushed-Sound s fd h at (push_queues q room v more more_count same_capacity) = (
  _,
  refl,
  record {
    queue = v;
    order =
        ap (λ xs. s.taken ++ xs) (append-nil (contents q) ∙ more)
        ∙ order_without s (pushing fd) h (ap in_hand (sym at));
    depth = sym more_count;
    busy = h.busy;
    active = omega (arith, h.active, more_count, ap counted at);
    few = h.few;
  },
)

pub popped-Sound :
    (s : Pool) (i : ℕ) {answer : Option Popped}
    → IsSound s
    → get_elem? s.workers i ≡ some testing
    → PopIs s.queue s.metrics answer
    → SoundAfter (after_pop i answer s)
unfolding after_pop metrics_queue_depth_set
popped-Sound s i h at (pop_waits _ _) =
    (_, refl, worker_moved s i testing waiting s.acceptor s.metrics h at refl refl refl refl refl)
popped-Sound s i h at (pop_takes fd q v first less same_capacity) = (
  _,
  refl,
  record {
    queue = v;
    order =
        append_assoc s.taken (fd ∷ []) (contents q ++ in_hand s.acceptor)
        ∙ ap (λ xs. s.taken ++ (xs ++ in_hand s.acceptor)) (sym first)
        ∙ h.order;
    depth = refl;
    busy = omega (arith, h.busy, total-set is_busy s.workers i testing (signalling_not_full fd) at);
    active =
        omega
          (arith, h.active, less, total-set holds s.workers i testing (signalling_not_full fd) at);
    few = omega (arith, h.few, length-set s.workers i (signalling_not_full fd));
  },
)

pub in_hand-roused : (a : Acceptor) → in_hand (roused a) ≡ in_hand a
in_hand-roused accepting = refl
in_hand-roused (counting fd) = refl
in_hand-roused (pushing fd) = refl
in_hand-roused (blocked fd) = refl
in_hand-roused signalling_not_empty = refl
in_hand-roused stopped = refl
in_hand-roused dead = refl

pub counted-roused : (a : Acceptor) → counted (roused a) ≡ counted a
counted-roused accepting = refl
counted-roused (counting fd) = refl
counted-roused (pushing fd) = refl
counted-roused (blocked fd) = refl
counted-roused signalling_not_empty = refl
counted-roused stopped = refl
counted-roused dead = refl

pub counted_small : (a : Acceptor) → counted a ≤ 1
counted_small accepting = omega arith
counted_small (counting fd) = omega arith
counted_small (pushing fd) = omega arith
counted_small (blocked fd) = omega arith
counted_small signalling_not_empty = omega arith
counted_small stopped = omega arith
counted_small dead = omega arith
