-- ===== src/Threadpool/Arguments/Ports.antt =====
-- `parse_port` of src/threadpool_server.c, compared with the texts that denote a port.
use concurrent_servers.Prelude.{
  ℕ, ◌+◌, ◌-◌, ◌*◌, ◌≤◌, ◌<◌, ◌≡◌, ◌↔◌, refl, sym, ap, ◌∙◌, subst, List, [], ◌∷◌, ◌++◌, some, Bool,
  true, false, ◌==◌, arith, if◌then◌else◌, length, All, pos,
}
use concurrent_servers.Exec.{done}
use concurrent_servers.Sys.Numbers.{
  is_space, skip_space, read_sign, read_digits, of_digits, read_signed, strtol,
}
use concurrent_servers.Threadpool.Arguments.{check_range, check_port, parse_port}
use concurrent_servers.Threadpool.Arguments.Denoting.{
  value_of, IsSpace, IsDigit, Sign, unsigned, plus, minus, Denotes, check_port-done, strtol-Denotes,
}

-- The other way: what each part of strtol does with a text that denotes a port.
skip_space-append :
    (spaces t : List ℕ) → All IsSpace spaces → skip_space (spaces ++ t) ≡ skip_space t
unfolding skip_space
skip_space-append [] t h = refl
skip_space-append (c ∷ cs) t h = rw h.0 (skip_space-append cs t h.1)

read_digits_end : (ds : List ℕ) (n : ℕ) → All IsDigit ds → read_digits ds n ≡ (value_of ds n, [])
unfolding read_digits
read_digits_end [] n h = refl
read_digits_end (c ∷ cs) n h = rw h.0 (read_digits_end cs (10 * n + (c - b'0')) h.1)

-- What stands behind the space is read back.
Reads : List ℕ → Bool → List ℕ → Type 0
Reads t negative digits = (skip_space t ≡ t) × (read_sign t ≡ (negative, digits))

Sign-Reads :
    (n : ℕ) (sign digits : List ℕ)
    → Sign n sign
    → 0 < length digits
    → All IsDigit digits
    → (negative : Bool) × Reads (sign ++ digits) negative digits × (negative ≡ true → n ≡ 0)
unfolding Reads skip_space read_sign
Sign-Reads n sign [] s some_digit ds = absurd (omega arith)
Sign-Reads n _ (d ∷ ds) unsigned some_digit h = (
  false,
  (
    let no_space : is_space d ≡ false = let digit = h.0 in ground arith in rw no_space refl,
    let no_dash : (d == b'-') ≡ false = let digit = h.0 in ground arith in
        let no_cross : (d == b'+') ≡ false = let digit = h.0 in ground arith in
        rw (no_dash, no_cross) refl,
  ),
  λ e. cc,
)
Sign-Reads n _ (d ∷ ds) plus some_digit h = (false, (refl, refl), λ e. cc)
Sign-Reads n _ (d ∷ ds) (minus zero_lem) some_digit h = (true, (refl, refl), λ _. zero_lem)

read_signed_digits :
    (text : List ℕ) (negative : Bool) (ds : List ℕ) (n : ℕ)
    → 0 < length ds
    → All IsDigit ds
    → value_of ds 0 ≡ n
    → read_signed text (negative, ds) ≡ of_digits negative (n, [])
unfolding read_signed
read_signed_digits text negative [] n some_digit h v = absurd (omega arith)
read_signed_digits text negative (d ∷ ds) n some_digit h v =
    ap
      (λ b.
        if b
        then of_digits negative (read_digits (d ∷ ds) 0)
        else record { value = pos 0; out_of_range = false; parsed = false; rest = text })
      h.0
    ∙ ap (of_digits negative) (read_digits_end (d ∷ ds) 0 h ∙ ap (λ k. (k, [])) v)

check_port-passes :
    (negative : Bool) (n : ℕ)
    → n ≤ 65535
    → (negative ≡ true → n ≡ 0)
    → check_port (of_digits negative (n, [])) ≡ done n
unfolding check_port check_range
check_port-passes false n small h = ground arith
check_port-passes true n small h =
    subst (λ k. check_port (of_digits true (k, [])) ≡ done k) (sym (h refl)) refl

Denotes-strtol : (text : List ℕ) (n : ℕ) → Denotes text n → check_port (strtol text) ≡ done n
unfolding strtol Reads
Denotes-strtol text n d =
    let (negative, (no_space, split), zero_lem) =
      Sign-Reads n d.sign d.digits d.signed d.some_digit d.only_digits in
    let skipped : skip_space text ≡ d.sign ++ d.digits =
      ap skip_space d.spelled
      ∙ skip_space-append d.spaces (d.sign ++ d.digits) d.only_space
      ∙ no_space in
    let signed : read_sign (skip_space text) ≡ (negative, d.digits) =
      ap read_sign skipped ∙ split in
    ap (λ r. check_port (read_signed text r)) signed
    ∙ ap check_port
        (read_signed_digits text negative d.digits n d.some_digit d.only_digits d.denoted)
    ∙ check_port-passes negative n d.port zero_lem

-- Of the texts that are not empty `parse_port` accepts exactly those that denote a port, space and a
-- sign before the digits included, and gives the number.
pub parse_port-Denotes :
    (c : ℕ) (cs : List ℕ) (fallback n : ℕ)
    → (parse_port (some (c ∷ cs)) fallback ≡ done n) ↔ Denotes (c ∷ cs) n
unfolding parse_port
parse_port-Denotes c cs fallback n = (
  λ h. strtol-Denotes (c ∷ cs) n (check_port-done (strtol (c ∷ cs)) n h),
  Denotes-strtol (c ∷ cs) n,
)
