-- ===== src/Isprime/Serving/Reading.antt =====
-- The number of a request.
use concurrent_servers.Prelude.{
  ℕ, ◌+◌, ◌-◌, ◌*◌, ◌^◌, ◌<◌, ◌≡◌, refl, ap, ◌∙◌, List, [], ◌∷◌, ◌++◌, true, false, arith,
}
use concurrent_servers.Sys.{add_u64}
use concurrent_servers.Text.{decimal, read-decimal, zero_digit}
use concurrent_servers.Isprime.{mul_u64}
use concurrent_servers.Isprime.Serving.{is_digit, read_number}

-- What may follow the number: nothing, or anything that does not start with a digit.
abbrev pub Ends : List ℕ → Type 0
Ends [] = Unit
Ends (c ∷ cs) = is_digit c ≡ false

read_number-digit :
    (d k : ℕ) (cs : List ℕ)
    → d < 10
    → 10 * k + d < 2 ^ 64
    → read_number ((zero_digit + d) ∷ cs) k ≡ read_number cs (10 * k + d)
unfolding read_number
read_number-digit d k cs h small =
    let digit : is_digit (zero_digit + d) ≡ true = ground arith in
    rw digit (
      ap (read_number cs) {x = add_u64 (mul_u64 k 10) (zero_digit + d - b'0')} {y = 10 * k + d}
        (omega arith))

read_number-end : (rest : List ℕ) (n : ℕ) → Ends rest → read_number rest n ≡ n
unfolding read_number
read_number-end [] n h = refl
read_number-end (c ∷ cs) n h = rw h

-- The server reads the number back from its decimal digits, whatever follows them but another digit,
-- for every number that a uint64_t holds.
pub read_number-decimal :
    (n : ℕ) (rest : List ℕ) → n < 2 ^ 64 → Ends rest → read_number (decimal n ++ rest) 0 ≡ n
read_number-decimal n rest small h =
    read-decimal read_number read_number-digit n rest small ∙ read_number-end rest n h
