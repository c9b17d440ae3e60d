-- ===== src/Text.antt =====
-- Text as the list of its bytes, and the conversions of printf that the sources use.
use Prim.Native.Char.{code}
use Prim.Native.String.{String}
use concurrent_servers.Prelude.{
  ℕ, zero, suc, ◌+◌, ◌-◌, ◌/◌, ◌%◌, ◌≤◌, List, [], ◌∷◌, ◌++◌, ltb, if◌then◌else◌, length, replicate,
  ℤ, pos, negsuc, arith, length-append, length-replicate, ◌<◌, ◌*◌, ◌^◌, ◌≡◌, sym, ap, ◌∙◌, inl,
  inr, Bool-cases,
}

-- The bytes of an ASCII text, without its final NUL.
abbrev pub codes : String → List ℕ
codes String.[] = []
codes (String.◌∷◌ c s) = code c ∷ codes s

abbrev pub zero_digit : ℕ
zero_digit = b'0'

-- The decimal digits of `n`, put in front of `acc`. A fuel of 20 is enough below 2 ^ 64.
digits_onto : ℕ → ℕ → List ℕ → List ℕ
digits_onto zero n acc = acc
digits_onto (suc f) n acc =
    let rest = digits_onto f (n / 10) ((zero_digit + n % 10) ∷ acc) in
    if ltb n 10 then (zero_digit + n) ∷ acc else rest

-- "%" PRIu64 and "%zu".
pub decimal : ℕ → List ℕ
decimal n = digits_onto 20 n []

-- "%" PRId64.
pub decimal_signed : ℤ → List ℕ
decimal_signed (pos n) = decimal n
decimal_signed (negsuc n) = b'-' ∷ decimal (n + 1)

-- "%09" PRIu64.
pub decimal_padded : ℕ → List ℕ
decimal_padded n = replicate (9 - length (decimal n)) zero_digit ++ decimal n

length-digits_onto : (f n : ℕ) (acc : List ℕ) → length (digits_onto f n acc) ≤ f + length acc
unfolding digits_onto
length-digits_onto zero n acc = omega arith
length-digits_onto (suc f) n acc =
    ground (arith, length-digits_onto f (n / 10) ((zero_digit + n % 10) ∷ acc))

pub length-decimal : (n : ℕ) → length (decimal n) ≤ 20
unfolding decimal
length-decimal n = omega (arith, length-digits_onto 20 n [])

pub length-decimal_signed : (n : ℤ) → length (decimal_signed n) ≤ 21
unfolding decimal_signed
length-decimal_signed (pos n) = omega (arith, length-decimal n)
length-decimal_signed (negsuc n) = omega (arith, length-decimal (n + 1))

pub length-decimal_padded : (n : ℕ) → length (decimal_padded n) ≤ 20
unfolding decimal_padded
length-decimal_padded n = omega (
  arith,
  length-append (replicate (9 - length (decimal n)) zero_digit) (decimal n),
  length-replicate (9 - length (decimal n)) zero_digit,
  length-decimal n,
)

-- `f` digits are enough for `n`.
Fits : ℕ → ℕ → Type 0
Fits zero n = n ≡ 0
Fits (suc f) n = Fits f (n / 10)

-- A reader that takes up one digit after the other.
module _ {ℓ} {A : Type ℓ} (read : List ℕ → ℕ → A)
    (step : (d k : ℕ) (cs : List ℕ)
      → d < 10
      → 10 * k + d < 2 ^ 64
      → read ((zero_digit + d) ∷ cs) k ≡ read cs (10 * k + d)) where
  read-digits_onto :
      (f n : ℕ) (acc rest : List ℕ)
      → Fits f n
      → n < 2 ^ 64
      → read (digits_onto f n acc ++ rest) 0 ≡ read (acc ++ rest) n
  unfolding digits_onto Fits
  read-digits_onto zero n acc rest fits small = ap (read (acc ++ rest)) (sym fits)
  read-digits_onto (suc f) n acc rest fits small = elim (Bool-cases (ltb n 10)) [
    | inl short ↦ rw short (
        step n 0 (acc ++ rest) (ground arith) (omega arith)
        ∙ ap (read (acc ++ rest)) {x = 10 * 0 + n} {y = n} (omega arith))
    | inr long ↦ rw long (
        read-digits_onto f (n / 10) ((zero_digit + n % 10) ∷ acc) rest fits (omega arith)
        ∙ step (n % 10) (n / 10) (acc ++ rest) (omega arith) (omega arith)
        ∙ ap (read (acc ++ rest)) {x = 10 * (n / 10) + n % 10} {y = n} (omega arith))
  ]

  -- It reads a number back from its decimal digits.
  pub read-decimal : (n : ℕ) (rest : List ℕ) → n < 2 ^ 64 → read (decimal n ++ rest) 0 ≡ read rest n
  unfolding decimal Fits
  read-decimal n rest small = read-digits_onto 20 n [] rest (omega arith) small
