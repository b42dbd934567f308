-- ===== src/Cli/ValidateClocks.antt =====
-- crates/perfweave-cli/src/validate_clocks.rs: the check of two clock fits. The measurements of the two
-- clocks are inputs; their print is left out.
pub mod Bound
use perf_weave.Base.{ℕ, ltb, Option, none, some, if◌then◌else◌, List, [], ◌∷◌}
use perf_weave.Base.Results.{Result, err, ok}
use perf_weave.Base.Text.{Text, codes}
use perf_weave.Base.Text.Decimal.{to_string}
use perf_weave.Base.Text.Parts.{concat}
use perf_weave.Common.Clock.{ClockOffset}

abbrev pub over_budget : Text → Text → ℕ → ℕ → Text
over_budget what more residual limit = concat (
    what
    ∷ codes " residual "
    ∷ to_string residual
    ∷ codes "ns exceeds "
    ∷ to_string limit
    ∷ codes "ns budget"
    ∷ more
    ∷ [])

-- The second clock, simulated to be behind.
unfoldable pub check_skewed : Option ClockOffset → ℕ → Option Text
check_skewed none limit = some (codes "skewed fit failed")
check_skewed (some fit) limit =
    if ltb limit fit.residual_max_ns
    then some (over_budget (codes "skewed->host") [] fit.residual_max_ns limit)
    else none

-- `run`: the error that ends it, or none. The arguments are what `measure` gives for the host's clock and
-- for the skewed one.
unfoldable pub run : Option ClockOffset → Option ClockOffset → ℕ → Option Text
unfolding check_skewed
run none skewed limit = some (codes "host->host fit failed (sampling loop too short?)")
run (some fit) skewed limit =
    if ltb limit fit.residual_max_ns
    then some (
        over_budget (codes "host->host")
          (codes ". Either the host scheduler is pathological, or the bench fit is broken.")
          fit.residual_max_ns limit)
    else check_skewed skewed limit
