-- ===== src/MetricsServer/BlankLine.antt =====
-- The search for a blank line in src/metrics_server.c, and what it finds.
use concurrent_servers.Prelude.{
  ℕ, zero, suc, ◌≡◌, refl, ap, ◌∙◌, inl, inr, ◌⊎◌, List, [], ◌∷◌, ◌++◌, some, Bool, true, false,
  ◌&&◌, ◌||◌, arith, ◌==◌, Bool-cases, take, get_elem?, c_string, if◌then◌else◌, ==_iff,
}
use concurrent_servers.Text.{codes}
use concurrent_servers.MetricsServer.{starts_with, contains, has_blank_line}

-- `needle` stands somewhere in the text.
abbrev pub Has : List ℕ → List ℕ → Type 0
Has needle text = (front : List ℕ) × (rest : List ℕ) × (text ≡ front ++ (needle ++ rest))

-- The line breaks of a blank line, in either form, stand in the text.
abbrev pub HasBlankLine : List ℕ → Type 0
HasBlankLine text = Has (codes "\r\n\r\n") text ⊎ Has (codes "\n\n") text

starts_with-append : (p rest : List ℕ) → starts_with p (p ++ rest) ≡ true
starts_with-append [] rest = refl
starts_with-append (c ∷ p) rest = ground (arith, starts_with-append p rest)

starts_with→append :
    (p text : List ℕ) → starts_with p text ≡ true → (rest : List ℕ) × (text ≡ p ++ rest)
starts_with→append [] text h = (text, refl)
starts_with→append (c ∷ p) [] h = cc
starts_with→append (c ∷ p) (x ∷ text) h = elim (Bool-cases (c == x)) [
  | inl same ↦
      let (rest, e) = starts_with→append p text (by_rest same h) in
      (rest, cc ((==_iff c x).0 same, e))
  | inr other ↦ absurd (not_same other h)
]
  where
    by_rest : (c == x) ≡ true → (c == x && starts_with p text) ≡ true → starts_with p text ≡ true
    by_rest e h = ground (arith, e, h)

    not_same : (c == x) ≡ false → (c == x && starts_with p text) ≡ true → ⊥
    not_same e h = ground (arith, e, h)

contains-of_Has :
    (c : ℕ) (needle front rest : List ℕ)
    → contains (c ∷ needle) (front ++ ((c ∷ needle) ++ rest)) ≡ true
contains-of_Has c needle [] rest = rw (starts_with-append (c ∷ needle) rest) refl
contains-of_Has c needle (x ∷ front) rest = or_right _ _ (contains-of_Has c needle front rest)
  where
    or_right : (a b : Bool) → b ≡ true → (a || b) ≡ true
    or_right true b h = refl
    or_right false b h = h

contains→Has : (needle text : List ℕ) → contains needle text ≡ true → Has needle text
contains→Has needle [] h = cc
contains→Has needle (x ∷ text) h = elim (Bool-cases (starts_with needle (x ∷ text))) [
  | inl here ↦ let (rest, e) = starts_with→append needle (x ∷ text) here in ([], rest, e)
  | inr other ↦
      let (front, rest, e) = contains→Has needle text (later other h) in
      (x ∷ front, rest, ap (◌∷◌ x) e)
]
  where
    later :
        starts_with needle (x ∷ text) ≡ false
        → (starts_with needle (x ∷ text) || contains needle text) ≡ true
        → contains needle text ≡ true
    later e h = cc

-- The code's search finds a blank line exactly where there is one.
pub has_blank_line-of_Has : (text : List ℕ) → HasBlankLine text → has_blank_line text ≡ true
has_blank_line-of_Has text (inl (front, rest, e)) =
    either (contains (codes "\n\n") text)
      (ap (contains (codes "\r\n\r\n")) e ∙ contains-of_Has 13 (10 ∷ 13 ∷ 10 ∷ []) front rest)
  where
    either : {a : Bool} (b : Bool) → a ≡ true → (a || b) ≡ true
    either b h = rw h refl
has_blank_line-of_Has text (inr (front, rest, e)) =
    either (contains (codes "\r\n\r\n") text)
      (ap (contains (codes "\n\n")) e ∙ contains-of_Has 10 (10 ∷ []) front rest)
  where
    either : (a : Bool) {b : Bool} → b ≡ true → (a || b) ≡ true
    either true h = refl
    either false h = h

pub has_blank_line→Has : (text : List ℕ) → has_blank_line text ≡ true → HasBlankLine text
has_blank_line→Has text h = elim (Bool-cases (contains (codes "\r\n\r\n") text)) [
  | inl found ↦ inl (contains→Has (codes "\r\n\r\n") text found)
  | inr other ↦ inr (contains→Has (codes "\n\n") text (later _ _ other h))
]
  where
    later : (a b : Bool) → a ≡ false → (a || b) ≡ true → b ≡ true
    later a b e h = cc

pub no_blank_line : (text : List ℕ) → has_blank_line text ≡ false → ¬ HasBlankLine text
no_blank_line text h blank = cc (h, has_blank_line-of_Has text blank)

-- What a string that is closed with a NUL holds.
pub c_string-closed :
    (n : ℕ) (xs : List ℕ) → get_elem? xs n ≡ some 0 → c_string xs ≡ c_string (take n xs)
c_string-closed n [] h = cc
c_string-closed zero (x ∷ xs) h = ground (arith, h)
c_string-closed (suc n) (x ∷ xs) h = ap (λ t. if x == 0 then [] else x ∷ t) (c_string-closed n xs h)
