-- ===== src/Prelude/Lists.antt =====
-- C arrays and byte strings as lists with native lengths and indices.
use Prim.Native.Nat.{ℕ, zero, suc, ◌+◌, ◌-◌, ◌≤◌, ◌<◌, min}
use mathlib.Core.Path.{◌≡◌, refl, sym, ap, ◌∙◌}
use mathlib.Core.Logic.{◌≢◌}
use mathlib.Core.List.{List, [], ◌∷◌, ◌++◌, append-nil, append_assoc}
use mathlib.Core.Option.{Option, none, some}
use native.Mathlib.Omega.{arith}
use concurrent_servers.Prelude.Tests.{ltb, ◌==◌, if◌then◌else◌}

module _ {ℓ} {A : Type ℓ} where
  abbrev pub length : List A → ℕ
  length [] = 0
  length (x ∷ xs) = suc (length xs)

  abbrev pub get_elem? : List A → ℕ → Option A
  get_elem? [] i = none
  get_elem? (x ∷ xs) zero = some x
  get_elem? (x ∷ xs) (suc i) = get_elem? xs i

  abbrev pub set : List A → ℕ → A → List A
  set [] i v = []
  set (x ∷ xs) zero v = v ∷ xs
  set (x ∷ xs) (suc i) v = x ∷ set xs i v

  -- A write out of bounds is a fault.
  abbrev pub write_at : List A → ℕ → A → Option (List A)
  write_at xs i v = if ltb i (length xs) then some (set xs i v) else none

  abbrev pub take : ℕ → List A → List A
  take zero xs = []
  take (suc n) [] = []
  take (suc n) (x ∷ xs) = x ∷ take n xs

  abbrev pub drop : ℕ → List A → List A
  drop zero xs = xs
  drop (suc n) [] = []
  drop (suc n) (x ∷ xs) = drop n xs

  abbrev pub replicate : ℕ → A → List A
  replicate zero a = []
  replicate (suc n) a = a ∷ replicate n a

  -- memcpy of `ys` to index `i` on.
  abbrev pub splice : List A → ℕ → List A → List A
  splice xs i [] = xs
  splice xs i (y ∷ ys) = splice (set xs i y) (suc i) ys

  pub length-append : (xs ys : List A) → length (xs ++ ys) ≡ length xs + length ys
  length-append [] ys = omega arith
  length-append (x ∷ xs) ys = omega (arith, length-append xs ys)

  pub length-set : (xs : List A) (i : ℕ) (v : A) → length (set xs i v) ≡ length xs
  length-set [] i v = refl
  length-set (x ∷ xs) zero v = refl
  length-set (x ∷ xs) (suc i) v = ap suc (length-set xs i v)

  pub length-take : (n : ℕ) (xs : List A) → length (take n xs) ≡ min n (length xs)
  length-take zero xs = omega arith
  length-take (suc n) [] = omega arith
  length-take (suc n) (x ∷ xs) = omega (arith, length-take n xs)

  pub length-drop : (n : ℕ) (xs : List A) → length (drop n xs) ≡ length xs - n
  length-drop zero xs = omega arith
  length-drop (suc n) [] = omega arith
  length-drop (suc n) (x ∷ xs) = omega (arith, length-drop n xs)

  pub length-replicate : (n : ℕ) (a : A) → length (replicate n a) ≡ n
  length-replicate zero a = refl
  length-replicate (suc n) a = ap suc (length-replicate n a)

  pub take-append-drop : (n : ℕ) (xs : List A) → take n xs ++ drop n xs ≡ xs
  take-append-drop zero xs = refl
  take-append-drop (suc n) [] = refl
  take-append-drop (suc n) (x ∷ xs) = ap (◌∷◌ x) (take-append-drop n xs)

  pub take_all : (n : ℕ) (xs : List A) → length xs ≤ n → take n xs ≡ xs
  take_all zero [] h = refl
  take_all zero (x ∷ xs) h = absurd (omega arith)
  take_all (suc n) [] h = refl
  take_all (suc n) (x ∷ xs) h = ap (◌∷◌ x) (take_all n xs (omega arith))

  pub take-length-take : (k : ℕ) (xs : List A) → take (length (take k xs)) xs ≡ take k xs
  take-length-take zero xs = refl
  take-length-take (suc k) [] = refl
  take-length-take (suc k) (x ∷ xs) = ap (◌∷◌ x) (take-length-take k xs)

  pub drop_all : (n : ℕ) (xs : List A) → length xs ≤ n → drop n xs ≡ []
  drop_all zero [] h = refl
  drop_all zero (x ∷ xs) h = absurd (omega arith)
  drop_all (suc n) [] h = refl
  drop_all (suc n) (x ∷ xs) h = drop_all n xs (omega arith)

  pub length-splice : (xs : List A) (i : ℕ) (ys : List A) → length (splice xs i ys) ≡ length xs
  length-splice xs i [] = refl
  length-splice xs i (y ∷ ys) = length-splice (set xs i y) (suc i) ys ∙ length-set xs i y

  pub splice-append :
      (xs : List A) (i n : ℕ) (ys zs : List A)
      → n ≡ i + length ys
      → splice xs i (ys ++ zs) ≡ splice (splice xs i ys) n zs
  splice-append xs i n [] zs e = ap (λ k. splice xs k zs) {x = i} {y = n} (omega arith)
  splice-append xs i n (y ∷ ys) zs e = splice-append (set xs i y) (suc i) n ys zs (omega arith)

  -- Writes past a prefix leave it; a write just past it extends it; writes before a suffix leave it.
  pub take-set_of_le : (n i : ℕ) (xs : List A) (v : A) → n ≤ i → take n (set xs i v) ≡ take n xs
  take-set_of_le zero i xs v h = refl
  take-set_of_le (suc n) i [] v h = refl
  take-set_of_le (suc n) zero (x ∷ xs) v h = absurd (omega arith)
  take-set_of_le (suc n) (suc i) (x ∷ xs) v h = ap (◌∷◌ x) (take-set_of_le n i xs v (omega arith))

  pub take-set_next :
      (i : ℕ) (xs : List A) (v : A)
      → i < length xs
      → take (suc i) (set xs i v) ≡ take i xs ++ (v ∷ [])
  take-set_next i [] v h = absurd (omega arith)
  take-set_next zero (x ∷ xs) v h = refl
  take-set_next (suc i) (x ∷ xs) v h = ap (◌∷◌ x) (take-set_next i xs v (omega arith))

  pub drop-set_of_lt : (n i : ℕ) (xs : List A) (v : A) → i < n → drop n (set xs i v) ≡ drop n xs
  drop-set_of_lt zero i xs v h = absurd (omega arith)
  drop-set_of_lt (suc n) i [] v h = refl
  drop-set_of_lt (suc n) zero (x ∷ xs) v h = refl
  drop-set_of_lt (suc n) (suc i) (x ∷ xs) v h = drop-set_of_lt n i xs v (omega arith)

  pub take-splice_of_le : (n i : ℕ) (xs ys : List A) → n ≤ i → take n (splice xs i ys) ≡ take n xs
  take-splice_of_le n i xs [] h = refl
  take-splice_of_le n i xs (y ∷ ys) h =
      take-splice_of_le n (suc i) (set xs i y) ys (omega arith) ∙ take-set_of_le n i xs y h

  -- A copy behind a prefix extends it by what is copied.
  pub take-splice_next :
      (i n : ℕ) (xs ys : List A)
      → n ≡ i + length ys
      → n ≤ length xs
      → take n (splice xs i ys) ≡ take i xs ++ ys
  take-splice_next i n xs [] e h =
      ap (λ k. take k xs) {x = n} {y = i} (omega arith) ∙ sym (append-nil (take i xs))
  take-splice_next i n xs (y ∷ ys) e h =
      take-splice_next (suc i) n (set xs i y) ys (omega arith) (omega (arith, length-set xs i y))
      ∙ ap (λ zs. zs ++ ys) (take-set_next i xs y (omega arith))
      ∙ append_assoc (take i xs) (y ∷ []) ys

  -- What stands at the head of a suffix.
  pub get_elem?-of_drop :
      (i : ℕ) (xs : List A) {x : A} {rest : List A}
      → drop i xs ≡ x ∷ rest
      → (get_elem? xs i ≡ some x) × (drop (suc i) xs ≡ rest)
  get_elem?-of_drop zero [] e = cc
  get_elem?-of_drop zero (y ∷ xs) e = (cc, cc)
  get_elem?-of_drop (suc i) [] e = cc
  get_elem?-of_drop (suc i) (y ∷ xs) e = get_elem?-of_drop i xs e

  pub drop-drop : (m n : ℕ) (xs : List A) → drop m (drop n xs) ≡ drop (n + m) xs
  drop-drop m zero xs = ap (λ k. drop k xs) (omega arith)
  drop-drop m (suc n) [] = drop_all m [] (omega arith) ∙ sym (drop_all (suc n + m) [] (omega arith))
  drop-drop m (suc n) (x ∷ xs) =
      drop-drop m n xs ∙ ap (λ k. drop k (x ∷ xs)) {x = suc (n + m)} {y = suc n + m} (omega arith)

  pub take-add : (m n : ℕ) (xs : List A) → take m xs ++ take n (drop m xs) ≡ take (m + n) xs
  take-add zero n xs = ap (λ k. take k xs) (omega arith)
  take-add (suc m) n [] = take_all n [] (omega arith) ∙ sym (take_all (suc m + n) [] (omega arith))
  take-add (suc m) n (x ∷ xs) =
      ap (◌∷◌ x) (take-add m n xs)
      ∙ ap (λ k. take k (x ∷ xs)) {x = suc (m + n)} {y = suc m + n} (omega arith)

  pub take-append_left : (n : ℕ) (xs ys : List A) → n ≤ length xs → take n (xs ++ ys) ≡ take n xs
  take-append_left zero xs ys h = refl
  take-append_left (suc n) [] ys h = absurd (omega arith)
  take-append_left (suc n) (x ∷ xs) ys h = ap (◌∷◌ x) (take-append_left n xs ys (omega arith))

  pub take-append_right :
      (n : ℕ) (xs ys : List A) → take (length xs + n) (xs ++ ys) ≡ xs ++ take n ys
  take-append_right n [] ys = ap (λ k. take k ys) {x = 0 + n} {y = n} (omega arith)
  take-append_right n (x ∷ xs) ys =
      ap (λ k. take k (x ∷ (xs ++ ys))) {x = suc (length xs) + n} {y = suc (length xs + n)}
        (omega arith)
      ∙ ap (◌∷◌ x) (take-append_right n xs ys)

  pub drop-append_left :
      (n : ℕ) (xs ys : List A) → n ≤ length xs → drop n (xs ++ ys) ≡ drop n xs ++ ys
  drop-append_left zero xs ys h = refl
  drop-append_left (suc n) [] ys h = absurd (omega arith)
  drop-append_left (suc n) (x ∷ xs) ys h = drop-append_left n xs ys (omega arith)

  pub drop-append_right : (n : ℕ) (xs ys : List A) → drop (length xs + n) (xs ++ ys) ≡ drop n ys
  drop-append_right n [] ys = ap (λ k. drop k ys) {x = 0 + n} {y = n} (omega arith)
  drop-append_right n (x ∷ xs) ys =
      ap (λ k. drop k (x ∷ (xs ++ ys))) {x = suc (length xs) + n} {y = suc (length xs + n)}
        (omega arith)
      ∙ drop-append_right n xs ys

  pub take-append :
      (n : ℕ) (xs ys : List A) → take n (xs ++ ys) ≡ take n xs ++ take (n - length xs) ys
  take-append zero [] ys = refl
  take-append zero (x ∷ xs) ys = ap (λ k. take k ys) {x = 0} {y = 0 - suc (length xs)} (omega arith)
  take-append (suc n) [] ys = ap (λ k. take k ys) {x = suc n} {y = suc n - 0} (omega arith)
  take-append (suc n) (x ∷ xs) ys = ap (◌∷◌ x) (
      take-append n xs ys
      ∙ ap (λ k. take n xs ++ take k ys) {x = n - length xs} {y = suc n - suc (length xs)}
          (omega arith))

  pub get_elem?-append_length :
      (xs ys : List A) (y : A) → get_elem? (xs ++ (y ∷ ys)) (length xs) ≡ some y
  get_elem?-append_length [] ys y = refl
  get_elem?-append_length (x ∷ xs) ys y = get_elem?-append_length xs ys y

  -- An element within a prefix is read off the prefix.
  pub get_elem?-take : (n i : ℕ) (xs : List A) → i < n → get_elem? (take n xs) i ≡ get_elem? xs i
  get_elem?-take zero i xs h = absurd (omega arith)
  get_elem?-take (suc n) i [] h = refl
  get_elem?-take (suc n) zero (x ∷ xs) h = refl
  get_elem?-take (suc n) (suc i) (x ∷ xs) h = get_elem?-take n i xs (omega arith)

  pub get_elem?-some : (xs : List A) (i : ℕ) → i < length xs → (x : A) × (get_elem? xs i ≡ some x)
  get_elem?-some [] i h = absurd (omega arith)
  get_elem?-some (x ∷ xs) zero h = (x, refl)
  get_elem?-some (x ∷ xs) (suc i) h = get_elem?-some xs i (omega arith)

  pub get_elem?-lt : (xs : List A) (i : ℕ) {x : A} → get_elem? xs i ≡ some x → i < length xs
  get_elem?-lt [] i e = cc
  get_elem?-lt (x ∷ xs) zero e = omega arith
  get_elem?-lt (x ∷ xs) (suc i) e = omega (arith, get_elem?-lt xs i e)

  pub get_elem?-set_self :
      (xs : List A) (i : ℕ) (v : A) → i < length xs → get_elem? (set xs i v) i ≡ some v
  get_elem?-set_self [] i v h = absurd (omega arith)
  get_elem?-set_self (x ∷ xs) zero v h = refl
  get_elem?-set_self (x ∷ xs) (suc i) v h = get_elem?-set_self xs i v (omega arith)

  pub get_elem?-set_ne :
      (xs : List A) (i j : ℕ) (v : A) → i ≢ j → get_elem? (set xs i v) j ≡ get_elem? xs j
  get_elem?-set_ne [] i j v h = refl
  get_elem?-set_ne (x ∷ xs) zero zero v h = absurd (h refl)
  get_elem?-set_ne (x ∷ xs) zero (suc j) v h = refl
  get_elem?-set_ne (x ∷ xs) (suc i) zero v h = refl
  get_elem?-set_ne (x ∷ xs) (suc i) (suc j) v h = get_elem?-set_ne xs i j v (λ e. h (ap suc e))

abbrev pub All {ℓ κ} : {A : Type ℓ} → (A → Type κ) → List A → Type κ
All P [] = Unit
All P (x ∷ xs) = P x × All P xs

-- The text that a char array holds: all before its first NUL.
abbrev pub c_string : List ℕ → List ℕ
c_string [] = []
c_string (c ∷ cs) = if c == 0 then [] else c ∷ c_string cs

pub c_string-append_nul :
    (xs rest : List ℕ) → All (λ c. c ≢ 0) xs → c_string (xs ++ (0 ∷ rest)) ≡ xs
c_string-append_nul [] rest h = refl
c_string-append_nul (x ∷ xs) rest h = ground (arith, c_string-append_nul xs rest h.1, h.0)
