-- ===== src/Loadgen/Barrier.antt =====
-- src/bench/loadgen.c, `main` and `conn_main` at `start_barrier`. Where pthread_create has failed, main
-- waits at the barrier once for each thread that is missing and once more.
use concurrent_servers.Prelude.{
  ℕ, suc, ◌+◌, ◌-◌, ◌≤◌, ◌<◌, ◌≡◌, refl, ap, ◌∙◌, inl, inr, Bool, true, false, ◌==◌, arith,
  if◌then◌else◌, Bool-cases,
}

-- The barrier's count, the threads that wait at it, the connections that have not reached it, whether
-- main waits, the waits that main has still to make, and how often the barrier has opened.
pub record Gate : Type 0 where
  pub count : ℕ
  pub waiting : ℕ
  pub workers_left : ℕ
  pub main_waits : Bool
  pub waits_left : ℕ
  pub opened : ℕ

-- pthread_barrier_wait: the last of `count` threads lets all go on.
unfoldable pub arrive : Gate → Gate
arrive g =
    if g.waiting + 1 == g.count
    then record g { waiting = 0; main_waits = false; opened = g.opened + 1 }
    else record g { waiting = g.waiting + 1 }

-- `main` up to its first wait, with `spawned` of `connections` threads.
unfoldable pub gate : ℕ → ℕ → Gate
gate connections spawned = record {
  count = connections + 1;
  waiting = 0;
  workers_left = spawned;
  main_waits = false;
  waits_left = (connections - spawned) + 1;
  opened = 0;
}

pub data Step (g : Gate) : Gate → Type 0 where
  worker : (k : ℕ) → g.workers_left ≡ suc k → Step g (arrive (record g { workers_left = k }))
  main :
      (k : ℕ)
      → g.main_waits ≡ false
      → g.waits_left ≡ suc k
      → Step g (arrive (record g { main_waits = true; waits_left = k }))

pub data Reachable (start : Gate) : Gate → Type 0 where
  at_start : Reachable start start
  after : (g : Gate) {g' : Gate} → Reachable start g → Step g g' → Reachable start g'

-- The threads that can still come to the barrier before it opens are too few.
record Short (g : Gate) : Type 0 where
  closed : g.opened ≡ 0
  few : g.waiting + g.workers_left + (if g.main_waits then 0 else 1) < g.count

arrive-Short :
    (g : Gate)
    → g.opened ≡ 0
    → g.waiting + 1 + g.workers_left + (if g.main_waits then 0 else 1) < g.count
    → Short (arrive g)
unfolding arrive
arrive-Short g closed few = elim (Bool-cases (g.waiting + 1 == g.count)) [
  | inl last ↦ absurd (ground arith)
  | inr more ↦ rw more (record { closed = closed; few = few })
]

Step-Short : {g g' : Gate} → Step g g' → Short g → Short g'
Step-Short {g} (worker k e) h =
    arrive-Short (record g { workers_left = k }) h.closed (omega (arith, e, h.few))
Step-Short {g} (main k free e) h =
    arrive-Short (record g { main_waits = true; waits_left = k }) h.closed
      (let one : ◌≡◌ {A = ℕ} (if g.main_waits then 0 else 1) 1 =
          ap (λ b. if b then 0 else 1) free in
        omega (arith, h.few, one))

-- All threads are there: as many are still to come as the barrier lacks, and main waits once; or it has
-- opened, once, and nobody is left to come.
data Complete (g : Gate) : Type 0 where
  before :
      g.opened ≡ 0
      → g.waiting < g.count
      → g.waiting + g.workers_left + g.waits_left ≡ g.count
      → g.waits_left ≡ (if g.main_waits then 0 else 1)
      → Complete g
  past : g.opened ≡ 1 → g.workers_left ≡ 0 → g.waits_left ≡ 0 → Complete g

arrive-Complete :
    (g : Gate)
    → g.opened ≡ 0
    → g.waiting < g.count
    → g.waiting + 1 + g.workers_left + g.waits_left ≡ g.count
    → g.waits_left ≡ (if g.main_waits then 0 else 1)
    → Complete (arrive g)
unfolding arrive
arrive-Complete g closed room exact once = elim (Bool-cases (g.waiting + 1 == g.count)) [
  | inl last ↦ rw last (past (omega (arith, closed)) (ground arith) (ground arith))
  | inr more ↦ rw more (before closed (ground arith) exact once)
]

Step-Complete : {g g' : Gate} → Step g g' → Complete g → Complete g'
Step-Complete {g} (worker k e) (before closed room exact once) =
    arrive-Complete (record g { workers_left = k }) closed room (omega (arith, e, exact)) once
Step-Complete {g} (main k free e) (before closed room exact once) =
    let one : g.waits_left ≡ 1 = once ∙ ap (λ b. if b then 0 else 1) free in
    arrive-Complete (record g { main_waits = true; waits_left = k }) closed room
      (omega (arith, e, exact)) (omega (arith, e, one))
Step-Complete {g} (worker k e) (past opened none_left main_past) =
    absurd (omega (arith, e, none_left))
Step-Complete {g} (main k free e) (past opened none_left main_past) =
    absurd (omega (arith, e, main_past))

Reachable-Short : {start g : Gate} → Reachable start g → Short start → Short g
Reachable-Short at_start h = h
Reachable-Short (after g r step) h = Step-Short step (Reachable-Short r h)

Reachable-Complete : {start g : Gate} → Reachable start g → Complete start → Complete g
Reachable-Complete at_start h = h
Reachable-Complete (after g r step) h = Step-Complete step (Reachable-Complete r h)

-- Where every thread could be created, the barrier has opened once when nobody is left to come. Where
-- a thread could not be created, it never opens, in whatever order the others and main come to it.
pub gate_opens :
    (connections spawned : ℕ) (g : Gate)
    → spawned ≤ connections
    → Reachable (gate connections spawned) g
    → (spawned < connections → g.opened ≡ 0)
      × (spawned ≡ connections → g.workers_left ≡ 0 → g.waits_left ≡ 0 → g.opened ≡ 1)
unfolding gate
gate_opens connections spawned g h r = (
  λ missing. (Reachable-Short r (record { closed = refl; few = omega arith })).closed,
  λ all none_left main_past.
      ended
        (Reachable-Complete r (before refl (omega arith) (omega (arith, all)) (omega (arith, all))))
        none_left main_past,
)
  where
    ended : {g : Gate} → Complete g → g.workers_left ≡ 0 → g.waits_left ≡ 0 → g.opened ≡ 1
    ended (past opened none_left main_past) a b = opened
    ended (before closed room exact once) a b = absurd (omega (arith, exact, room, a, b))
