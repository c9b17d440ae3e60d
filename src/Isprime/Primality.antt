-- ===== src/Isprime/Primality.antt =====
-- `isprime` decides primality, below (2 ^ 32 - 1) ^ 2.
use Prim.Native.Nat.{◌∣◌}
use native.Mathlib.Nat
use concurrent_servers.Prelude.{
  ℕ, zero, suc, ◌+◌, ◌*◌, ◌/◌, ◌%◌, ◌≤◌, ◌<◌, ◌≡◌, refl, sym, subst, ◌⊎◌, inl, inr, Option, some,
  Bool, true, false, ◌==◌, leb, ltb, if◌then◌else◌, Bool-cases, arith, ==_iff,
}
use concurrent_servers.Sys.{add_u64}
use concurrent_servers.Isprime.{mul_u64, isprime_from, isprime}

pub record IsPrime (n : ℕ) : Type 0 where
  pub above_one : 1 < n
  pub only : (d : ℕ) → d ∣ n → (d ≡ 1) ⊎ (d ≡ n)

pub data Decides (n : ℕ) : Option Bool → Type 0 where
  prime : IsPrime n → Decides n (some true)
  composite : ¬ IsPrime n → Decides n (some false)

-- (2 ^ 32 - 1) ^ 2
abbrev pub square_max : ℕ
square_max = 18446744065119617025

not-IsPrime : (d n : ℕ) → d ∣ n → 1 < d → d < n → ¬ IsPrime n
not-IsPrime d n h big small p = elim (p.only d h) [ inl e ↦ omega arith | inr e ↦ omega arith ]

-- No number from 2 to below `r` divides `n`.
abbrev Clear : ℕ → ℕ → Type 0
Clear r n = (d : ℕ) → 1 < d → d < r → ¬ (d ∣ n)

odd_divisor : (d n : ℕ) → n % 2 ≡ 1 → d ∣ n → d % 2 ≡ 1
odd_divisor d n odd h = elim (Bool-cases (d % 2 == 0)) [
  | inl even ↦
      let two : 2 ∣ n = Nat.dvd_trans 2 (Nat.dvd_of_mod-eq-zero 2 ((==_iff (d % 2) 0).0 even)) h in
      absurd (omega (arith, Nat.mod-eq-zero_of_dvd 2 two))
  | inr other ↦ ground arith
]

Clear-step : (r n : ℕ) → n % 2 ≡ 1 → r % 2 ≡ 1 → Clear r n → ¬ (r ∣ n) → Clear (r + 2) n
Clear-step r n odd odd_r clear last d big small h = elim (Bool-cases (ltb d r)) [
  | inl below ↦ clear d big (ground arith) h
  | inr above ↦ elim (Bool-cases (d == r)) [
    | inl same ↦ last (subst (λ k. k ∣ n) ((==_iff d r).0 same) h)
    | inr next ↦
        let odd_d : d % 2 ≡ 1 = odd_divisor d n odd h in
        let here : d ≡ r + 1 = ground arith in absurd (omega arith)
  ]
]

-- Two factors of a number below r * r: one of them is below `r`.
factors : (r n d q : ℕ) → n < r * r → Clear r n → 1 < n → d ∣ n → d * q ≡ n → (d ≡ 1) ⊎ (d ≡ n)
factors r n zero q small clear big h e = absurd (omega (arith, Nat.eq-zero_of_zero-dvd h))
factors r n (suc zero) q small clear big h e = inl refl
factors r n (suc (suc d)) zero small clear big h e = absurd (omega arith)
factors r n (suc (suc d)) (suc zero) small clear big h e = inr (omega arith)
factors r n (suc (suc d)) (suc (suc q)) small clear big h e =
    elim (Bool-cases (ltb (suc (suc d)) r)) [
      | inl below ↦ absurd (clear (suc (suc d)) (omega arith) (ground arith) h)
      | inr above ↦ elim (Bool-cases (ltb (suc (suc q)) r)) [
        | inl below ↦
            let other : suc (suc q) ∣ n =
              subst (λ k. suc (suc q) ∣ k) e (Nat.dvd-mul_left (suc (suc q)) (suc (suc d))) in
            absurd (clear (suc (suc q)) (omega arith) (ground arith) other)
        | inr above' ↦
            let le_d : r ≤ suc (suc d) = ground arith in
            let le_q : r ≤ suc (suc q) = ground arith in
            absurd (omega (arith, Nat.mul-le-mul le_d le_q))
      ]
    ]

-- Once `r` is past the square root, a number with no divisor below `r` is prime.
Clear-IsPrime : (r n : ℕ) → 1 < n → n < r * r → Clear r n → IsPrime n
Clear-IsPrime r n big small clear = record {
  above_one = big;
  only = λ d h. factors r n d (n / d) small clear big h (Nat.mul-div_cancel' d h);
}

-- Below the bound the square of `r` does not wrap as long as the loop runs.
below_root : (r n : ℕ) → r * r ≤ n → n < square_max → r < 4294967295
below_root r n h small = elim (Bool-cases (ltb r 4294967295)) [
  | inl below ↦ ground arith
  | inr above ↦
      let le : 4294967295 ≤ r = ground arith in absurd (omega (arith, Nat.mul-le-mul le le))
]

no_wrap : (r : ℕ) → r ≤ 4294967295 → mul_u64 r r ≡ r * r
no_wrap r h = Nat.mod-eq_of_lt (omega (arith, Nat.mul-le-mul h h))

one_round :
    (r n : ℕ) (rest : Option Bool)
    → 1 < n
    → 3 ≤ r
    → r ≤ 4294967295
    → Clear r n
    → (r * r ≤ n → ¬ (r ∣ n) → Decides n rest)
    → Decides n
        (if leb (mul_u64 r r) n then (if n % r == 0 then some false else rest) else some true)
one_round r n rest big three room clear later = elim (Bool-cases (leb (mul_u64 r r) n)) [
  | inr past ↦
      rw past (prime (Clear-IsPrime r n big (let exact = no_wrap r room in ground arith) clear))
  | inl more ↦
      let le : r * r ≤ n = let exact = no_wrap r room in ground arith in
      let below : r < n = omega (arith, Nat.mul-le-mul_right r three) in
      elim (Bool-cases (n % r == 0)) [
        | inl divides ↦
            rw (more, divides)
              (composite (
                not-IsPrime r n (Nat.dvd_of_mod-eq-zero r ((==_iff (n % r) 0).0 divides))
                  (omega arith) below))
        | inr leaves ↦
            rw (more, leaves)
              (later le (λ h. let no_rest = Nat.mod-eq-zero_of_dvd r h in ground arith))
      ]
]

isprime_from-Decides :
    (f r n m : ℕ)
    → 1 < n
    → n % 2 ≡ 1
    → n < square_max
    → 3 ≤ r
    → r % 2 ≡ 1
    → r ≤ 4294967295
    → m ≡ r + 2 * f
    → n < m * m
    → Clear r n
    → Decides n (isprime_from (suc f) r n)
unfolding isprime_from
isprime_from-Decides zero r n m big odd small three odd_r room e enough clear =
    one_round r n _ big three room clear (λ le leaves.
      absurd (omega (arith, subst (λ x. n < x * x) {x = m} {y = r} (omega arith) enough)))
isprime_from-Decides (suc f) r n m big odd small three odd_r room e enough clear =
    one_round r n _ big three room clear (λ le leaves.
      let root : r < 4294967295 = below_root r n le small in
      let next : add_u64 r 2 ≡ r + 2 = omega arith in
      subst (λ k. Decides n (isprime_from (suc f) k n)) (sym next)
        (isprime_from-Decides f (r + 2) n m big odd small (omega arith) (omega arith) (omega arith)
          (omega arith) enough (Clear-step r n odd odd_r clear leaves)))

two-IsPrime : IsPrime 2
two-IsPrime = record {
  above_one = omega arith;
  only = λ d h. below_two d h (Nat.le_of_dvd (omega arith) h);
}
  where
    below_two : (d : ℕ) → d ∣ 2 → d ≤ 2 → (d ≡ 1) ⊎ (d ≡ 2)
    below_two zero h le = absurd (omega (arith, Nat.eq-zero_of_zero-dvd h))
    below_two (suc zero) h le = inl refl
    below_two (suc (suc d)) h le = inr (omega arith)

-- `isprime` ends and answers whether `n` is prime, for every `n` above 1 and below (2 ^ 32 - 1) ^ 2, so
-- far as the squares do not wrap. Its loop tests its condition at most `f` + 1 times, where 3 + 2 f is
-- past the square root of `n`.
pub isprime-Decides :
    (f n m : ℕ) → 1 < n → n < square_max → m ≡ 3 + 2 * f → n < m * m → Decides n (isprime (suc f) n)
unfolding isprime
isprime-Decides f n m big small e enough = elim (Bool-cases (n % 2 == 0)) [
  | inr odd ↦ rw odd (
      isprime_from-Decides f 3 n m big (ground arith) small (omega arith) refl (omega arith) e
        enough
        (λ d above below h.
          let odd_d : d % 2 ≡ 1 = odd_divisor d n (ground arith) h in absurd (omega arith)))
  | inl even ↦ elim (Bool-cases (n == 2)) [
    | inl two ↦ rw (even, two) (prime (subst IsPrime (sym ((==_iff n 2).0 two)) two-IsPrime))
    | inr more ↦
        rw (even, more)
          (composite (
            not-IsPrime 2 n (Nat.dvd_of_mod-eq-zero 2 ((==_iff (n % 2) 0).0 even)) (omega arith)
              (ground arith)))
  ]
]
