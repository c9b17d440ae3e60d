-- ===== src/Isprime.antt =====
-- src/uv_isprime_server.c: the primality test, the number of a request, and the callbacks. libuv is a
-- parameter: which callback it runs next, and what its calls answer.
pub mod Primality
pub mod Serving
pub mod Tests
use concurrent_servers.Prelude.{
  ℕ, zero, suc, ◌+◌, ◌*◌, ◌%◌, ◌^◌, List, [], ◌∷◌, Option, none, some, Bool, true, false, ◌==◌,
  ◌&&◌, leb, if◌then◌else◌,
}
use concurrent_servers.Sys.{add_u64}

-- uint64_t multiplication.
abbrev pub mul_u64 : ℕ → ℕ → ℕ
mul_u64 a b = a * b % 2 ^ 64

-- The loop over the odd `r`; `none` means that the fuel has run out before the test fails.
pub isprime_from : ℕ → ℕ → ℕ → Option Bool
isprime_from zero r n = none
isprime_from (suc f) r n =
    let rest = isprime_from f (add_u64 r 2) n in
    let step = if n % r == 0 then some false else rest in
    if leb (mul_u64 r r) n then step else some true

-- `fuel` bounds how often the loop tests its condition.
pub isprime : ℕ → ℕ → Option Bool
isprime fuel n = if n % 2 == 0 then some (n == 2) else isprime_from fuel 3 n
