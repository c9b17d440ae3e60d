-- ===== src/Threadpool/Queue/Slots.antt =====
-- The slots of the circular queue in src/threadpool_server.c, in the order of the queue.
use concurrent_servers.Prelude.{
  ℕ, zero, suc, ◌+◌, ◌%◌, ◌^◌, ◌≤◌, ◌<◌, ◌≡◌, ◌≢◌, refl, sym, ap, ◌∙◌, inl, inr, ◌⊎◌, false, List,
  [], ◌∷◌, ◌++◌, none, some, arith, ltb, Bool-cases, length, get_elem?, set, get_elem?-some,
  get_elem?-set_self, get_elem?-set_ne,
}
use native.Mathlib.Nat.{mod-eq_of_lt, mod_self}
use concurrent_servers.Sys.{add_u64}
use concurrent_servers.Threadpool.Queue.{FdQueue}

abbrev pub following : ℕ → ℕ → ℕ
following capacity i = add_u64 i 1 % capacity

-- The `n` elements from slot `i` on, round the end of the array.
abbrev pub slots_from : List ℕ → ℕ → ℕ → ℕ → List ℕ
slots_from fds capacity i zero = []
slots_from fds capacity i (suc n) = elim (get_elem? fds i) [
  | none ↦ []
  | some fd ↦ fd ∷ slots_from fds capacity (following capacity i) n
]

pub slots_from-some :
    (fds : List ℕ) (capacity i n : ℕ) {fd : ℕ}
    → get_elem? fds i ≡ some fd
    → slots_from fds capacity i (suc n) ≡ fd ∷ slots_from fds capacity (following capacity i) n
slots_from-some fds capacity i n at =
    ap (λ o. elim o [ none ↦ [] | some fd ↦ fd ∷ slots_from fds capacity (following capacity i) n ])
      at

-- What is in the queue, the oldest first.
abbrev pub contents : FdQueue → List ℕ
contents q = slots_from q.fds q.capacity q.head q.count

-- `j` is the slot `n` places after `i`.
abbrev After : ℕ → ℕ → ℕ → ℕ → Type 0
After capacity i n j = (j ≡ i + n) ⊎ (j + capacity ≡ i + n)

pub record IsQueue (q : FdQueue) : Type 0 where
  pub size : length q.fds ≡ q.capacity
  pub small : q.capacity < 2 ^ 63
  pub head_in : q.head < q.capacity
  pub tail_in : q.tail < q.capacity
  pub bounded : q.count ≤ q.capacity
  pub apart : After q.capacity q.head q.count q.tail

pub following-cases :
    (capacity i : ℕ)
    → i < capacity
    → capacity < 2 ^ 63
    → ((following capacity i ≡ suc i) × (suc i < capacity))
      ⊎ ((following capacity i ≡ 0) × (suc i ≡ capacity))
following-cases capacity i lt small = elim (Bool-cases (ltb (suc i) capacity)) [
  | inl inside ↦ inl (
    ap (λ k. k % capacity) no_wrap ∙ mod-eq_of_lt (ground (arith, inside)),
    ground (arith, inside),
  )
  | inr edge ↦
      inr (ap (λ k. k % capacity) (no_wrap ∙ at_edge edge) ∙ mod_self capacity, at_edge edge)
]
  where
    no_wrap : add_u64 i 1 ≡ suc i
    no_wrap = omega (arith, lt, small)

    at_edge : ltb (suc i) capacity ≡ false → suc i ≡ capacity
    at_edge edge = ground (arith, edge, lt)

length-slots_from :
    (fds : List ℕ) (capacity i n : ℕ)
    → length fds ≡ capacity
    → capacity < 2 ^ 63
    → i < capacity
    → length (slots_from fds capacity i n) ≡ n
length-slots_from fds capacity i zero size small lt = refl
length-slots_from fds capacity i (suc n) size small lt =
    let (fd, at) = get_elem?-some fds i (omega (arith, size, lt)) in
    ap length (slots_from-some fds capacity i n at)
    ∙ ap suc (
        length-slots_from fds capacity (following capacity i) n size small
          (omega (arith, lt, following-cases capacity i lt small)))

-- A write to the slot after the elements comes last among them.
pub slots_from-set :
    (fds : List ℕ) (capacity i n j fd : ℕ)
    → length fds ≡ capacity
    → capacity < 2 ^ 63
    → i < capacity
    → j < capacity
    → n < capacity
    → After capacity i n j
    → slots_from (set fds j fd) capacity i (suc n) ≡ slots_from fds capacity i n ++ (fd ∷ [])
slots_from-set fds capacity i zero j fd size small i_in j_in n_in a =
    slots_from-some (set fds j fd) capacity i zero (
      ap (λ k. get_elem? (set fds j fd) k) here
      ∙ get_elem?-set_self fds j fd (omega (arith, size, j_in)))
  where
    here : i ≡ j
    here = omega (arith, a, i_in, j_in)
slots_from-set fds capacity i (suc n) j fd size small i_in j_in n_in a =
    let (x, at) = get_elem?-some fds i (omega (arith, size, i_in)) in
    slots_from-some (set fds j fd) capacity i (suc n) (get_elem?-set_ne fds j i fd elsewhere ∙ at)
    ∙ ap (◌∷◌ x) (
        slots_from-set fds capacity (following capacity i) n j fd size small
          (omega (arith, i_in, next)) j_in (omega (arith, n_in)) (after next))
    ∙ ap (λ xs. xs ++ (fd ∷ [])) (sym (slots_from-some fds capacity i n at))
  where
    next :
        ((following capacity i ≡ suc i) × (suc i < capacity))
        ⊎ ((following capacity i ≡ 0) × (suc i ≡ capacity))
    next = following-cases capacity i i_in small

    elsewhere : j ≢ i
    elsewhere = omega (arith, a, i_in, j_in, n_in)

    after :
        ((following capacity i ≡ suc i) × (suc i < capacity))
          ⊎ ((following capacity i ≡ 0) × (suc i ≡ capacity))
        → After capacity (following capacity i) n j
    after moved = ground (arith, moved, a, n_in, i_in, j_in)
