-- ===== src/MetricsServer/Prefixes.antt =====
-- The test of `serve` for the path, on what `read_request` has left.
use concurrent_servers.Prelude.{
  ℕ, zero, suc, ◌≤◌, ◌<◌, ◌≡◌, ◌≢◌, refl, sym, ap, ◌∙◌, inl, inr, List, [], ◌∷◌, some, Bool, true,
  false, not, ◌&&◌, arith, ◌==◌, Bool-cases, length, take, get_elem?, All, c_string, leb, subst,
}
use concurrent_servers.Text.{codes}
use concurrent_servers.Sys.{RecvResult}
use concurrent_servers.Sys.Streams.{Fate}
use concurrent_servers.MetricsServer.BlankLine.{HasBlankLine, has_blank_line-of_Has}
use concurrent_servers.MetricsServer.{starts_with, has_blank_line, request_max}
use concurrent_servers.MetricsServer.Requests.{Stops}

abbrev pub get_line : List ℕ
get_line = codes "GET /metrics"

-- The test looks only at as many bytes as the prefix has.
starts_with-take :
    (p xs ys : List ℕ) (n : ℕ)
    → length p ≤ n
    → take n xs ≡ take n ys
    → starts_with p xs ≡ starts_with p ys
starts_with-take [] xs ys n h e = refl
starts_with-take (p ∷ ps) xs ys zero h e = absurd (omega arith)
starts_with-take (p ∷ ps) [] [] (suc n) h e = refl
starts_with-take (p ∷ ps) [] (y ∷ ys) (suc n) h e = cc
starts_with-take (p ∷ ps) (x ∷ xs) [] (suc n) h e = cc
starts_with-take (p ∷ ps) (x ∷ xs) (y ∷ ys) (suc n) h e =
    ground (arith, starts_with-take ps xs ys n)

starts_with→take :
    (p xs : List ℕ) (n : ℕ) → starts_with p xs ≡ true → n ≤ length p → take n xs ≡ take n p
starts_with→take p xs zero e h = refl
starts_with→take [] xs (suc n) e h = absurd (omega arith)
starts_with→take (p ∷ ps) [] (suc n) e h = cc
starts_with→take (p ∷ ps) (x ∷ xs) (suc n) e h = ground (arith, starts_with→take ps xs n)

starts_with-length-le : (p xs : List ℕ) → starts_with p xs ≡ true → length p ≤ length xs
starts_with-length-le [] xs e = omega arith
starts_with-length-le (p ∷ ps) [] e = cc
starts_with-length-le (p ∷ ps) (x ∷ xs) e = ground (arith, starts_with-length-le ps xs)

abbrev NoNul : List ℕ → Type 0
NoNul xs = All (λ c. c ≢ 0) xs

starts_with-nul :
    (p xs : List ℕ) (n : ℕ)
    → NoNul p
    → get_elem? xs n ≡ some 0
    → n < length p
    → starts_with p xs ≡ false
starts_with-nul [] xs n k e h = absurd (omega arith)
starts_with-nul (p ∷ ps) [] n k e h = refl
starts_with-nul (p ∷ ps) (x ∷ xs) zero k e h = let nul : x ≡ 0 = ground arith in ground (arith, k.0)
starts_with-nul (p ∷ ps) (x ∷ xs) (suc n) k e h = ground (arith, starts_with-nul ps xs n k.1 e)

NoNul-take : (n : ℕ) (xs : List ℕ) → NoNul xs → NoNul (take n xs)
NoNul-take zero xs h = tt
NoNul-take (suc n) [] h = tt
NoNul-take (suc n) (x ∷ xs) h = (h.0, NoNul-take n xs h.1)

c_string-plain : (xs : List ℕ) → NoNul xs → c_string xs ≡ xs
c_string-plain [] h = refl
c_string-plain (x ∷ xs) h = ground (arith, c_string-plain xs h.1, h.0)

-- No proper prefix of the line holds a blank line.
plain : ℕ → Bool
plain zero = true
plain (suc n) = not (has_blank_line (take n get_line)) && plain n

plain_table : plain 12 ≡ true
unfolding plain
plain_table = refl

not_and : (a b : Bool) → (not a && b) ≡ true → (a ≡ false) × (b ≡ true)
not_and true b e = cc
not_and false b e = (refl, e)

plain_sound : (n m : ℕ) → plain m ≡ true → n < m → has_blank_line (take n get_line) ≡ false
unfolding plain
plain_sound n zero e h = absurd (omega arith)
plain_sound n (suc m) e h = elim (Bool-cases (n == m)) [
  | inl same ↦
      subst (λ k. has_blank_line (take k get_line) ≡ false) {x = m} {y = n} (ground arith)
        (not_and (has_blank_line (take m get_line)) (plain m) e).0
  | inr other ↦
      plain_sound n m (not_and (has_blank_line (take m get_line)) (plain m) e).1 (ground arith)
]

get_line-NoNul : NoNul get_line
get_line-NoNul = omega arith

-- The bytes that `read_request` leaves start with the line exactly when all that the client sends
-- does.
pub starts_with-read :
    (recvs : List RecvResult) (all buf : List ℕ) (end : Fate) (n : ℕ)
    → take n buf ≡ take n all
    → get_elem? buf n ≡ some 0
    → Stops request_max recvs all end n
    → starts_with get_line buf ≡ starts_with get_line all
starts_with-read recvs all buf end n front nul stop = elim (Bool-cases (leb 12 n)) [
  | inl long ↦ starts_with-take get_line buf all n (ground arith) front
  | inr short ↦
      starts_with-nul get_line buf n get_line-NoNul nul (ground arith)
      ∙ sym (early (ground arith) stop)
]
  where
    early : n < 12 → Stops request_max recvs all end n → starts_with get_line all ≡ false
    early h (inl (blank, _)) = elim (Bool-cases (starts_with get_line all)) [
      | inr no_line ↦ no_line
      | inl line ↦
          let held : c_string (take n all) ≡ take n get_line =
            ap c_string (starts_with→take get_line all n line (omega arith))
            ∙ c_string-plain (take n get_line) (NoNul-take n get_line get_line-NoNul) in
          absurd (
            let clash : has_blank_line (take n get_line) ≡ true =
              has_blank_line-of_Has (take n get_line) (subst HasBlankLine held blank) in
            cc (clash, plain_sound n 12 plain_table h))
    ]
    early h (inr (_, inl full)) = absurd (omega arith)
    early h (inr (_, inr (whole, c))) = elim (Bool-cases (starts_with get_line all)) [
      | inr no_line ↦ no_line
      | inl line ↦ absurd (omega (arith, starts_with-length-le get_line all line))
    ]
