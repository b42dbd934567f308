-- ===== src/Cli/ValidateClocks/Bound.antt =====
-- When the check of the clocks passes.
use perf_weave.Base.{
  ℕ, ◌≤◌, ◌≡◌, ◌↔◌, refl, inl, inr, Bool-cases, ltb, true, false, Option, none, some, arith,
}
use perf_weave.Common.Clock.{ClockOffset}
use perf_weave.Cli.ValidateClocks.{check_skewed, run}

-- A fit within the budget.
abbrev pub Within : ℕ → Option ClockOffset → Type 0
Within limit none = ⊥
Within limit (some fit) = fit.residual_max_ns ≤ limit

over : (limit n : ℕ) → ltb limit n ≡ true → ¬ (n ≤ limit)
over limit n h le = ground arith

within : (limit n : ℕ) → ltb limit n ≡ false → n ≤ limit
within limit n h = ground arith

-- The command succeeds exactly if both measurements give a fit and no residual exceeds the budget.
pub run-Within :
    (host skewed : Option ClockOffset) (limit : ℕ)
    → (run host skewed limit ≡ none) ↔ (Within limit host × Within limit skewed)
unfolding run check_skewed
run-Within none skewed limit = ((λ e. cc), λ h. absurd h.0)
run-Within (some fit) none limit = elim (Bool-cases (ltb limit fit.residual_max_ns)) [
  | inl e ↦ rw e ((λ h. cc), λ h. absurd h.1)
  | inr e ↦ rw e ((λ h. cc), λ h. absurd h.1)
]
run-Within (some fit) (some other) limit = elim (Bool-cases (ltb limit fit.residual_max_ns)) [
  | inl e ↦ rw e ((λ h. cc), λ h. absurd (over limit fit.residual_max_ns e h.0))
  | inr e ↦ elim (Bool-cases (ltb limit other.residual_max_ns)) [
    | inl e2 ↦ rw (e, e2) ((λ h. cc), λ h. absurd (over limit other.residual_max_ns e2 h.1))
    | inr e2 ↦
        rw (e, e2)
          (
            (λ h. (within limit fit.residual_max_ns e, within limit other.residual_max_ns e2)),
            λ h. refl,
          )
  ]
]
