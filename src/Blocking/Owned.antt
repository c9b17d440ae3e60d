-- ===== src/Blocking/Owned.antt =====
-- src/threaded_server.c: every open descriptor belongs to one thread.
use concurrent_servers.Prelude.{
  remove, remove_head, ℕ, suc, ◌<◌, ◌+◌, ◌≡◌, refl, sym, ap, ◌∙◌, inl, inr, List, [], ◌∷◌, ◌++◌,
  true, false, ◌==◌, Bool-cases, if◌then◌else◌, map, arith,
}
use mathlib.Core.Quot
use mathlib.Core.Quot.{Quot}
use concurrent_servers.Blocking.{
  out_of_memory, Client, is_retried, Threads, on_accepted, on_failed, end_thread, Step, accepts,
  fails, ends,
}

-- How often a descriptor is in a list.
abbrev pub times : ℕ → List ℕ → ℕ
times fd [] = 0
times fd (x ∷ xs) = (if x == fd then 1 else 0) + times fd xs

abbrev pub serving_fds : List Client → List ℕ
serving_fds ks = map (λ k. k.fd) ks

-- Every descriptor is open as often as it is among `others` and the threads have it.
abbrev Counts : List ℕ → Threads → Type 0
Counts others s =
    (fd : ℕ) → times fd s.open_fds ≡ times fd others + times fd (serving_fds s.serving)

times-remove :
    (x fd : ℕ) (xs : List ℕ)
    → 0 < times x xs
    → times fd xs ≡ (if x == fd then 1 else 0) + times fd (remove x xs)
times-remove x fd [] h = absurd (omega (arith, h))
times-remove x fd (y ∷ ys) h = elim (Bool-cases (y == x)) [
  | inl here ↦ let same : y ≡ x = ground arith in rw (here, same) refl
  | inr there ↦
      let rest : times fd ys ≡ (if x == fd then 1 else 0) + times fd (remove x ys) =
        times-remove x fd ys (
          let k : ◌≡◌ {A = ℕ} (if y == x then 1 else 0) 0 = ap (λ b. if b then 1 else 0) there in
          omega (arith, h, k)) in
      rw there (omega (arith, rest))
]

times-serving :
    (fd : ℕ) (k : Client) (front back : List Client)
    → times fd (serving_fds (front ++ (k ∷ back)))
      ≡ (if k.fd == fd then 1 else 0) + times fd (serving_fds (front ++ back))
times-serving fd k [] back = refl
times-serving fd k (c ∷ front) back = omega (arith, times-serving fd k front back)

times_self : (fd : ℕ) → (if fd == fd then 1 else 0) ≡ suc 0
times_self fd = ground arith

-- Nobody but the threads keeps a descriptor open.
Step-Counts : {s s' : Threads} (others : List ℕ) → Step s s' → Counts others s → Counts others s'
unfolding on_accepted on_failed end_thread
Step-Counts {s} others (accepts k true runs) h fd = omega (arith, h fd)
Step-Counts {s} others (accepts k false runs) h fd =
    ap (times fd) (remove_head k.fd s.open_fds) ∙ h fd
Step-Counts {s} others (fails e runs) h fd = elim (Bool-cases (is_retried e)) [
  | inl again ↦ rw again (h fd)
  | inr over ↦ rw over (h fd)
]
Step-Counts {s} others (out_of_memory runs) h fd = h fd
Step-Counts {s} others (ends k front back before r e runs status) h fd =
    let split : (x : ℕ)
        → times x s.open_fds
          ≡ times x others
            + ((if k.fd == x then 1 else 0) + times x (serving_fds (front ++ back))) =
      λ x.
        h x
        ∙ ap (λ n. times x others + n)
            (ap (λ ks. times x (serving_fds ks)) e ∙ times-serving x k front back) in
    let there : 0 < times k.fd s.open_fds = omega (arith, split k.fd, times_self k.fd) in
    omega (arith, split fd, times-remove k.fd fd s.open_fds there)

pub data Reachable (start : Threads) : Threads → Type 0 where
  at_start : Reachable start start
  after : (s : Threads) {s' : Threads} → Reachable start s → Step s s' → Reachable start s'

Reachable-Counts :
    (others : List ℕ) (start s : Threads)
    → Reachable start s
    → Counts others start
    → Counts others s
Reachable-Counts others start s at_start h = h
Reachable-Counts others start s (after s' r step) h =
    Step-Counts others step (Reachable-Counts others start s' r h)

-- Two lists hold the same descriptors, as often: the table of open descriptors has no order.
abbrev SameDescriptors : List ℕ → List ℕ → Type 0
SameDescriptors xs ys = (fd : ℕ) → times fd xs ≡ times fd ys

abbrev pub Descriptors : Type 0
Descriptors = Quot SameDescriptors

abbrev pub held : List ℕ → Descriptors
held xs = Quot.mk xs

times-append : (fd : ℕ) (xs ys : List ℕ) → times fd (xs ++ ys) ≡ times fd xs + times fd ys
times-append fd [] ys = omega arith
times-append fd (x ∷ xs) ys = omega (arith, times-append fd xs ys)

-- The open descriptors are those of `others`, and one for each connection that has a thread.
abbrev pub IsOwned : List ℕ → Threads → Type 0
IsOwned others s = held s.open_fds ≡ held (others ++ serving_fds s.serving)

-- However main and the threads of the threaded server interleave, and whichever calls of accept,
-- xmalloc and pthread_create fail, the open descriptors are at any time, in whatever order, those from
-- before and one for each connection that has a thread, so that none is left behind. No connection has
-- a thread at the start.
pub Reachable-IsOwned :
    (start s : Threads) → start.serving ≡ [] → Reachable start s → IsOwned start.open_fds s
Reachable-IsOwned start s idle r = Quot.sound (λ fd.
    Reachable-Counts start.open_fds start s r
      (λ x. omega (arith, ap (λ ks. times x (serving_fds ks)) idle)) fd
    ∙ sym (times-append fd start.open_fds (serving_fds s.serving)))
