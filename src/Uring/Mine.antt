-- ===== src/Uring/Mine.antt =====
-- The outstanding submissions of src/uring_server.c that carry a given descriptor.
use concurrent_servers.Prelude.{
  ℕ, zero, suc, ◌%◌, ◌^◌, ◌<◌, ◌≡◌, ◌≢◌, refl, sym, ap, ◌∙◌, inl, inr, Bool, true, false, List, [],
  ◌∷◌, ◌++◌, none, some, arith, ◌==◌, if◌then◌else◌, Bool-cases, get_elem?, pos,
}
use concurrent_servers.Uring.{Sqe, without}
use concurrent_servers.Uring.UserData.{UringOp, pack, pack-fd}

abbrev pub is_for : ℕ → Sqe → Bool
is_for fd sqe = sqe.user_data % 2 ^ 32 == fd

abbrev pub mine : ℕ → List Sqe → List Sqe
mine fd [] = []
mine fd (x ∷ xs) = if is_for fd x then x ∷ mine fd xs else mine fd xs

pub mine-append :
    (fd : ℕ) (xs : List Sqe) (x : Sqe) → mine fd (xs ++ (x ∷ [])) ≡ mine fd xs ++ mine fd (x ∷ [])
mine-append fd [] x = refl
mine-append fd (y ∷ xs) x = elim (Bool-cases (is_for fd y)) [
  | inl own ↦ rw own (ap (◌∷◌ y) (mine-append fd xs x))
  | inr other ↦ rw other (mine-append fd xs x)
]

-- A submission for `fd` is its own, and no other descriptor's.
pub mine-own :
    (op : UringOp) (fd len : ℕ)
    → fd < 2 ^ 31
    → mine fd (record { user_data = pack op (pos fd); len = len } ∷ [])
      ≡ record { user_data = pack op (pos fd); len = len } ∷ []
mine-own op fd len small = rw (own (pack-fd op fd small)) refl
  where
    own : pack op (pos fd) % 2 ^ 32 ≡ fd → (pack op (pos fd) % 2 ^ 32 == fd) ≡ true
    own e = ground (arith, e)

pub mine-others :
    (op : UringOp) (fd len j : ℕ)
    → fd < 2 ^ 31
    → j ≢ fd
    → mine j (record { user_data = pack op (pos fd); len = len } ∷ []) ≡ []
mine-others op fd len j small ne = rw (other (pack-fd op fd small)) refl
  where
    other : pack op (pos fd) % 2 ^ 32 ≡ fd → (pack op (pos fd) % 2 ^ 32 == j) ≡ false
    other e = ground (arith, e, ne)

pub mine-without :
    (fd : ℕ) (xs : List Sqe) (i : ℕ) (x : Sqe)
    → get_elem? xs i ≡ some x
    → is_for fd x ≡ false
    → mine fd (without xs i) ≡ mine fd xs
mine-without fd [] i x at other = cc
mine-without fd (y ∷ xs) zero x at other = rw (is_same at) refl
  where
    is_same : get_elem? (y ∷ xs) zero ≡ some x → is_for fd y ≡ false
    is_same at = ap (is_for fd) (first at) ∙ other
      where
        first : some y ≡ some x → y ≡ x
        first e = cc
mine-without fd (y ∷ xs) (suc i) x at other = elim (Bool-cases (is_for fd y)) [
  | inl own ↦ rw own (ap (◌∷◌ y) (mine-without fd xs i x at other))
  | inr not_own ↦ rw not_own (mine-without fd xs i x at other)
]

mine-first :
    (fd : ℕ) (y : Sqe) (xs : List Sqe) → is_for fd y ≡ true → mine fd (y ∷ xs) ≡ y ∷ mine fd xs
mine-first fd y xs own = rw own refl

mine-rest : (fd : ℕ) (y : Sqe) (xs : List Sqe) → is_for fd y ≡ false → mine fd (y ∷ xs) ≡ mine fd xs
mine-rest fd y xs other = rw other refl

cons_ne : {x : Sqe} {xs : List Sqe} → x ∷ xs ≡ [] → ⊥
cons_ne e = cc

same_head : {x y : Sqe} {xs ys : List Sqe} → x ∷ xs ≡ y ∷ ys → (x ≡ y) × (xs ≡ ys)
same_head e = (cc, cc)

the_first : {x y : Sqe} → some x ≡ some y → x ≡ y
the_first e = cc

pub none_mine :
    (fd : ℕ) (xs : List Sqe) (i : ℕ) (x : Sqe)
    → get_elem? xs i ≡ some x
    → is_for fd x ≡ true
    → mine fd xs ≡ []
    → ⊥
none_mine fd [] i x at own e = cc
none_mine fd (y ∷ xs) zero x at own e =
    cons_ne (sym (mine-first fd y xs (ap (is_for fd) (the_first at) ∙ own)) ∙ e)
none_mine fd (y ∷ xs) (suc i) x at own e = elim (Bool-cases (is_for fd y)) [
  | inl here ↦ cons_ne (sym (mine-first fd y xs here) ∙ e)
  | inr other ↦ none_mine fd xs i x at own (sym (mine-rest fd y xs other) ∙ e)
]

-- The only submission of a descriptor, once it has completed.
pub mine-without_own :
    (fd : ℕ) (xs : List Sqe) (i : ℕ) (x y : Sqe)
    → get_elem? xs i ≡ some x
    → is_for fd x ≡ true
    → mine fd xs ≡ y ∷ []
    → (x ≡ y) × (mine fd (without xs i) ≡ [])
mine-without_own fd [] i x y at own e = absurd (no_elem at)
  where
    no_elem : none ≡ some x → ⊥
    no_elem e = cc
mine-without_own fd (z ∷ xs) zero x y at own e =
    let (same, rest) =
      same_head (sym (mine-first fd z xs (ap (is_for fd) (the_first at) ∙ own)) ∙ e) in
    (sym (the_first at) ∙ same, rest)
mine-without_own fd (z ∷ xs) (suc i) x y at own e = elim (Bool-cases (is_for fd z)) [
  | inl here ↦ absurd (none_mine fd xs i x at own (same_head (sym (mine-first fd z xs here) ∙ e)).1)
  | inr other ↦
      let (same, rest) = mine-without_own fd xs i x y at own (sym (mine-rest fd z xs other) ∙ e) in
      (same, mine-rest fd z (without xs i) other ∙ rest)
]
