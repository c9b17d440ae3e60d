-- ===== src/Loadgen/Totals.antt =====
-- src/bench/loadgen.c, `main`: the totals over the connections, and the exit status.
use concurrent_servers.Prelude.{
  ℕ, ◌+◌, ◌≡◌, ◌↔◌, refl, List, [], ◌∷◌, All, ltb, if◌then◌else◌, arith,
}
use concurrent_servers.Loadgen.{Ctx}

-- The totals of `main` over the contexts, and its exit status.
unfoldable pub total_errors : List Ctx → ℕ
total_errors [] = 0
total_errors (c ∷ cs) = c.errors + total_errors cs

unfoldable pub total_mismatches : List Ctx → ℕ
total_mismatches [] = 0
total_mismatches (c ∷ cs) = c.mismatches + total_mismatches cs

unfoldable pub exit_status : List Ctx → ℕ
exit_status cs = if ltb 0 (total_errors cs) then 1 else if ltb 0 (total_mismatches cs) then 1 else 0

-- No error and no wrong answer on a connection.
abbrev pub Clean : Ctx → Type 0
Clean c = (c.errors ≡ 0) × (c.mismatches ≡ 0)

totals-Clean :
    (cs : List Ctx)
    → (total_errors cs ≡ 0 → total_mismatches cs ≡ 0 → All Clean cs)
      × (All Clean cs → (total_errors cs ≡ 0) × (total_mismatches cs ≡ 0))
unfolding total_errors total_mismatches
totals-Clean [] = (λ _ _. tt, λ _. (refl, refl))
totals-Clean (c ∷ cs) =
    let (to, from) = totals-Clean cs in
    (
      λ e f. ((omega (arith, e), omega (arith, f)), to (omega (arith, e)) (omega (arith, f))),
      λ h. let (x, y) = h.0 in let (a, b) = from h.1 in (omega (arith, x, a), omega (arith, y, b)),
    )

-- The run passes exactly when no connection has counted an error or a wrong answer.
pub exit_status-Clean : (cs : List Ctx) → (exit_status cs ≡ 0) ↔ All Clean cs
unfolding exit_status
exit_status-Clean cs =
    let (to, from) = totals-Clean cs in
    (λ e. to (ground arith) (ground arith), λ h. let (x, y) = from h in ground arith)
