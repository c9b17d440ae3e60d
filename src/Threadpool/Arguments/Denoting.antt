-- ===== src/Threadpool/Arguments/Denoting.antt =====
-- The texts that denote a port, and that `parse_port` of src/threadpool_server.c accepts no others.
use concurrent_servers.Prelude.{
  ℕ, zero, suc, ◌+◌, ◌-◌, ◌*◌, ◌≤◌, ◌<◌, ◌≡◌, refl, ap, ◌∙◌, inl, inr, List, [], ◌∷◌, ◌++◌, Bool,
  true, false, not, ◌==◌, ◌||◌, arith, ltb, if◌then◌else◌, Bool-cases, length, All, ℤ, pos, negsuc,
  append-nil,
}
use concurrent_servers.Exec.{done, died}
use concurrent_servers.Sys.Numbers.{
  is_space, is_digit, skip_space, read_sign, read_digits, starts_digit, with_sign, Strtol,
  of_digits, read_signed, strtol,
}
use concurrent_servers.Threadpool.Arguments.{is_empty, check_range, check_port}

-- The number that digits denote, behind `n`.
abbrev pub value_of : List ℕ → ℕ → ℕ
value_of [] n = n
value_of (c ∷ cs) n = value_of cs (10 * n + (c - b'0'))

abbrev pub IsSpace : ℕ → Type 0
IsSpace c = is_space c ≡ true

abbrev pub IsDigit : ℕ → Type 0
IsDigit c = is_digit c ≡ true

-- A sign with the numbers that may follow it.
pub data Sign (n : ℕ) : List ℕ → Type 0 where
  unsigned : Sign n []
  plus : Sign n (b'+' ∷ [])
  minus : n ≡ 0 → Sign n (b'-' ∷ [])

-- Space, a sign, and digits to the end, for a number that is a port.
pub record Denotes (text : List ℕ) (n : ℕ) : Type 0 where
  pub spaces : List ℕ
  pub sign : List ℕ
  pub digits : List ℕ
  pub spelled : text ≡ spaces ++ (sign ++ digits)
  pub only_space : All IsSpace spaces
  pub signed : Sign n sign
  pub some_digit : 0 < length digits
  pub only_digits : All IsDigit digits
  pub denoted : value_of digits 0 ≡ n
  pub port : n ≤ 65535

skip_space-split :
    (t : List ℕ) → (spaces : List ℕ) × (t ≡ spaces ++ skip_space t) × All IsSpace spaces
unfolding skip_space
skip_space-split [] = ([], refl, tt)
skip_space-split (c ∷ cs) = elim (Bool-cases (is_space c)) [
  | inl space ↦
      let (spaces, e, h) = skip_space-split cs in rw space (c ∷ spaces, ap (◌∷◌ c) e, (space, h))
  | inr other ↦ rw other ([], refl, tt)
]

read_digits-split :
    (t : List ℕ) (n : ℕ)
    → (digits : List ℕ) × (t ≡ digits ++ (read_digits t n).1)
      × All IsDigit digits
      × (value_of digits n ≡ (read_digits t n).0)
      × (starts_digit t ≡ true → 0 < length digits)
unfolding read_digits
read_digits-split [] n = ([], refl, tt, refl, λ h. cc)
read_digits-split (c ∷ cs) n = elim (Bool-cases (is_digit c)) [
  | inl digit ↦
      let (digits, e, h, v, _) = read_digits-split cs (10 * n + (c - b'0')) in
      rw digit (c ∷ digits, ap (◌∷◌ c) e, (digit, h), v, λ _. omega arith)
  | inr other ↦ rw other ([], refl, tt, refl, λ h. cc)
]

read_sign-split :
    (t : List ℕ)
    → (sign : List ℕ) × (t ≡ sign ++ (read_sign t).1)
      × ((n : ℕ) → ((read_sign t).0 ≡ true → n ≡ 0) → Sign n sign)
unfolding read_sign
read_sign-split [] = ([], refl, λ n h. unsigned)
read_sign-split (c ∷ cs) = elim (Bool-cases (c == b'-')) [
  | inl dash ↦
      let e : c ≡ b'-' = ground arith in
      rw dash (b'-' ∷ [], ap (λ x. x ∷ cs) e, λ n h. minus (h refl))
  | inr no_dash ↦ elim (Bool-cases (c == b'+')) [
    | inl cross ↦
        let e : c ≡ b'+' = ground arith in
        rw (no_dash, cross) (b'+' ∷ [], ap (λ x. x ∷ cs) e, λ n h. plus)
    | inr other ↦ rw (no_dash, other) ([], refl, λ n h. unsigned)
  ]
]

-- What the test of `parse_port` lets through.
pub record Passes (r : Strtol) (n : ℕ) : Type 0 where
  parsed : r.parsed ≡ true
  at_end : r.rest ≡ []
  value : r.value ≡ pos n
  small : n ≤ 65535

check_range-done : (v : ℤ) (n : ℕ) → check_range v ≡ done n → (v ≡ pos n) × (n ≤ 65535)
unfolding check_range
check_range-done (pos m) n h = elim (Bool-cases (ltb 65535 m)) [
  | inl large ↦ absurd (let clash : died ≡ done n = rw large at h in cc)
  | inr fits ↦
      let e : done m ≡ done n = rw fits at h in let same : m ≡ n = cc in (ap pos same, ground arith)
]
check_range-done (negsuc m) n h = cc

pub check_port-done : (r : Strtol) (n : ℕ) → check_port r ≡ done n → Passes r n
unfolding check_port
check_port-done r n h = go r.out_of_range r.parsed r.rest refl refl h
  where
    go :
        (o p : Bool) (xs : List ℕ)
        → r.parsed ≡ p
        → r.rest ≡ xs
        → (if o || (not p || not (is_empty xs)) then died else check_range r.value) ≡ done n
        → Passes r n
    go true p xs e f h = cc
    go false false xs e f h = cc
    go false true (x ∷ xs) e f h = cc
    go false true [] e f h =
        let (v, small) = check_range-done r.value n h in
        record { parsed = e; at_end = f; value = v; small = small }

with_sign-pos :
    (negative : Bool) (v n : ℕ) → with_sign negative v ≡ pos n → (v ≡ n) × (negative ≡ true → n ≡ 0)
with_sign-pos false v n h = (cc, λ e. cc)
with_sign-pos true zero n h = (cc, λ e. cc)
with_sign-pos true (suc v) n h = absurd (ground arith)

-- strtol on a text that passes.
read_signed-Denotes :
    (text spaces sign digits : List ℕ) (negative : Bool) (n : ℕ)
    → text ≡ spaces ++ (sign ++ digits)
    → All IsSpace spaces
    → ((k : ℕ) → (negative ≡ true → k ≡ 0) → Sign k sign)
    → Passes (read_signed text (negative, digits)) n
    → Denotes text n
unfolding read_signed
read_signed-Denotes text spaces sign digits negative n e sp signs p =
    go (starts_digit digits) refl p
  where
    go :
        (b : Bool)
        → starts_digit digits ≡ b
        → Passes
            (if b
              then of_digits negative (read_digits digits 0)
              else record { value = pos 0; out_of_range = false; parsed = false; rest = text })
            n
        → Denotes text n
    go false q p = absurd (let clash = p.parsed in cc)
    go true q p =
        let (ds, split, only, v, some_digit) = read_digits-split digits 0 in
        let (same, zero_lem) = with_sign-pos negative (read_digits digits 0).0 n p.value in
        record {
          spaces = spaces;
          sign = sign;
          digits = ds;
          spelled =
              e ∙ ap (λ xs. spaces ++ (sign ++ xs)) (split ∙ ap (◌++◌ ds) p.at_end ∙ append-nil ds);
          only_space = sp;
          signed = signs n zero_lem;
          some_digit = some_digit q;
          only_digits = only;
          denoted = v ∙ same;
          port = p.small;
        }

pub strtol-Denotes : (text : List ℕ) (n : ℕ) → Passes (strtol text) n → Denotes text n
unfolding strtol
strtol-Denotes text n p =
    let (spaces, e, sp) = skip_space-split text in
    let (sign, e', signs) = read_sign-split (skip_space text) in
    read_signed-Denotes text spaces sign (read_sign (skip_space text)).1
      (read_sign (skip_space text)).0 n (e ∙ ap (◌++◌ spaces) e') sp signs p
