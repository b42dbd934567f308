-- ===== src/Common/Tests.antt =====
-- Runs of the shared crate's parts at concrete inputs.
use Prim.Native.String.{String}
use text.Mathlib.Text.{◌==◌ as str_eq}
use perf_weave.Base.{ℕ, ◌^◌, ◌≡◌, refl, some, arith, ltb_self, if◌then◌else◌, List, [], ◌∷◌}
use perf_weave.Base.Floats.{whole_numbers}
use perf_weave.Base.Int.{pos, ◌-ℤ◌}
use perf_weave.Common.Clock.{Pair}
use perf_weave.Common.Clock.Fit.{
  fit_theil_sen, fit_with, max_residual, middle, slopes, slopes_from, slope_between,
}
use perf_weave.Common.Clock.Fit.Middle.{StrictOrder}
use perf_weave.Common.Clock.Fit.Sound.{Fitted, fit_theil_sen-Fitted}

-- A hash for three texts.
abbrev toy_hash : String → ℕ
toy_hash text = if str_eq text "ms" then 1 else if str_eq text "us" then 2 else 3

abbrev texts : List String
texts = "ms" ∷ "us" ∷ "bytes" ∷ []

-- The order of whole numbers.
whole_numbers-StrictOrder : StrictOrder whole_numbers
whole_numbers-StrictOrder = record {
  irreflexive = λ a. ltb_self a;
  transitive = λ a b c h k. ground arith;
}

-- Readings of a clock that is seven behind.
abbrev readings : List Pair
readings =
    record { src_ns = 10; host_ns = 17 }
    ∷ record { src_ns = 20; host_ns = 27 }
    ∷ record { src_ns = 30; host_ns = 37 }
    ∷ []

fit_theil_sen_test :
    fit_theil_sen whole_numbers 99 readings
    ≡ some record {
      offset_ns = pos 7;
      slope_num = pos (2 ^ 30);
      slope_den = pos (2 ^ 30);
      residual_max_ns = 0;
      fitted_at_host_ns = 99;
    }
unfolding fit_theil_sen fit_with max_residual middle slopes slopes_from slope_between ◌-ℤ◌
fit_theil_sen_test = refl

fit_theil_sen-Fitted_example :
    Fitted whole_numbers 99 readings (fit_theil_sen whole_numbers 99 readings)
fit_theil_sen-Fitted_example =
    fit_theil_sen-Fitted whole_numbers 99 readings whole_numbers-StrictOrder
