-- ===== src/Common/Clock.antt =====
-- crates/perfweave-common/src/clock.rs: the affine mapping of a source clock to host time.
pub mod Fit
use perf_weave.Base.{ℕ}
use perf_weave.Base.Int.{ℤ, pos, ◌+ℤ◌, ◌*ℤ◌, ◌/ℤ◌, wrap_i128, max_zero, as_u64}

pub record ClockOffset : Type 0 where
  pub offset_ns : ℤ
  pub slope_num : ℤ
  pub slope_den : ℤ
  pub residual_max_ns : ℕ
  pub fitted_at_host_ns : ℕ

abbrev pub identity : ClockOffset
identity = record {
  offset_ns = pos 0;
  slope_num = pos 1;
  slope_den = pos 1;
  residual_max_ns = 0;
  fitted_at_host_ns = 0;
}

-- `ClockOffset::map`. The product and the sum are `i128` and wrap in a release build.
unfoldable pub map : ClockOffset → ℕ → ℕ
map c src_ns =
    let host = wrap_i128 (c.offset_ns +ℤ wrap_i128 (c.slope_num *ℤ pos src_ns) /ℤ c.slope_den) in
    as_u64 (max_zero host)

-- One paired observation.
pub record Pair : Type 0 where
  pub src_ns : ℕ
  pub host_ns : ℕ
