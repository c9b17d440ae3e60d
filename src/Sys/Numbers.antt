-- ===== src/Sys/Numbers.antt =====
-- strtol in base 10 and atoi, of the C library. A text comes without its NUL.
use concurrent_servers.Prelude.{
  ℕ, ◌<◌, ◌≡◌, arith, Option, none, some, ◌+◌, ◌-◌, ◌*◌, ◌^◌, List, [], ◌∷◌, Bool, true, false,
  ◌==◌, ◌&&◌, ◌||◌, leb, ltb, if◌then◌else◌, ℤ, pos, negsuc,
}

-- isspace and isdigit, in the C locale.
abbrev pub is_space : ℕ → Bool
is_space c = c == 32 || (leb 9 c && leb c 13)

abbrev pub is_digit : ℕ → Bool
is_digit c = leb b'0' c && leb c b'9'

unfoldable pub skip_space : List ℕ → List ℕ
skip_space [] = []
skip_space (c ∷ cs) = if is_space c then skip_space cs else c ∷ cs

-- A sign, and what follows it.
unfoldable pub read_sign : List ℕ → Bool × List ℕ
read_sign [] = (false, [])
read_sign (c ∷ cs) =
    if c == b'-' then (true, cs) else if c == b'+' then (false, cs) else (false, c ∷ cs)

-- The number at the start, and what follows it.
unfoldable pub read_digits : List ℕ → ℕ → ℕ × List ℕ
read_digits [] n = (n, [])
read_digits (c ∷ cs) n =
    let rest = read_digits cs (10 * n + (c - b'0')) in if is_digit c then rest else (n, c ∷ cs)

abbrev pub starts_digit : List ℕ → Bool
starts_digit [] = false
starts_digit (c ∷ cs) = is_digit c

abbrev pub with_sign : Bool → ℕ → ℤ
with_sign true n = if n == 0 then pos 0 else negsuc (n - 1)
with_sign false n = pos n

-- The value, where it fits a long; whether errno is ERANGE; whether there was a number at all
-- (`end != text`); and the text at `end`.
pub record Strtol : Type 0 where
  pub value : ℤ
  pub out_of_range : Bool
  pub parsed : Bool
  pub rest : List ℕ

abbrev pub of_digits : Bool → ℕ × List ℕ → Strtol
of_digits negative (n, rest) = record {
  value = with_sign negative n;
  out_of_range = if negative then ltb (2 ^ 63) n else leb (2 ^ 63) n;
  parsed = true;
  rest = rest;
}

-- The digits behind the sign; `text` is where the whole starts.
unfoldable pub read_signed : List ℕ → Bool × List ℕ → Strtol
read_signed text (negative, digits) =
    if starts_digit digits
    then of_digits negative (read_digits digits 0)
    else record { value = pos 0; out_of_range = false; parsed = false; rest = text }

unfoldable pub strtol : List ℕ → Strtol
strtol text = read_signed text (read_sign (skip_space text))

-- atoi. For a value that no int holds C says nothing; here it is the value.
unfoldable pub atoi : List ℕ → ℤ
atoi text = (strtol text).value

-- The number of an argument that may be missing.
abbrev pub number_or : Option (List ℕ) → ℤ → ℤ
number_or none otherwise = otherwise
number_or (some text) otherwise = atoi text

-- Whether an int is below 1, and an int that is not.
abbrev pub below_one : ℤ → Bool
below_one (pos n) = n == 0
below_one (negsuc n) = true

abbrev pub natural : ℤ → ℕ
natural (pos n) = n
natural (negsuc n) = 0

pub positive : (k : ℤ) → below_one k ≡ false → 0 < natural k
positive (pos n) h = ground arith
positive (negsuc n) h = cc
