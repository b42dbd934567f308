-- ===== src/Common/Clock/Fit.antt =====
-- `fit_theil_sen` of crates/perfweave-common/src/clock.rs. The operations on floats are a parameter.
pub mod Middle
pub mod Sound
use perf_weave.Base.{
  ℕ, ◌/◌, ◌^◌, Option, none, some, List, [], ◌∷◌, ◌++◌, map, length, get_or, is_empty, ltb,
  if◌then◌else◌,
}
use perf_weave.Base.Floats.{Floats, sort}
use perf_weave.Base.Int.{ℤ, pos, ◌-ℤ◌, eqb_ℤ}
use perf_weave.Base.Words.{F64}
use perf_weave.Common.Clock.{ClockOffset, Pair}

module _ (f : Floats) where
  -- The slope between two pairs, unless their sources are equal.
  unfoldable pub slope_between : Pair → Pair → Option F64
  slope_between p q =
      let d_src : ℤ = pos q.src_ns -ℤ pos p.src_ns in
      let d_host : ℤ = pos q.host_ns -ℤ pos p.host_ns in
      if eqb_ℤ d_src (pos 0) then none else some (f.div (f.of_i128 d_host) (f.of_i128 d_src))

  -- The inner loop.
  unfoldable pub slopes_from : Pair → List Pair → List F64
  unfolding slope_between
  slopes_from p [] = []
  slopes_from p (q ∷ qs) =
      let rest = slopes_from p qs in elim (slope_between p q) [ none ↦ rest | some s ↦ s ∷ rest ]

  -- The outer loop.
  unfoldable pub slopes : List Pair → List F64
  unfolding slopes_from
  slopes [] = []
  slopes (p ∷ ps) = slopes_from p ps ++ slopes ps

  -- The middle of the sorted values.
  unfoldable pub middle : List F64 → F64
  middle xs = get_or (sort f xs) (length (sort f xs) / 2) (f.lit 0 0)

  abbrev pub offset_of : F64 → Pair → F64
  offset_of slope p = f.sub (f.of_u64 p.host_ns) (f.mul slope (f.of_u64 p.src_ns))

  -- How far a pair is from the prediction.
  abbrev pub residual_of : F64 → F64 → Pair → F64
  residual_of slope offset p =
      f.abs (f.sub (f.of_u64 p.host_ns) (f.add offset (f.mul slope (f.of_u64 p.src_ns))))

  unfoldable pub max_residual : F64 → F64 → List Pair → F64 → F64
  max_residual slope offset [] res_max = res_max
  max_residual slope offset (p ∷ ps) res_max =
      let residual = residual_of slope offset p in
      max_residual slope offset ps (if f.lt res_max residual then residual else res_max)

  abbrev pub den : ℤ
  den = pos (2 ^ 30)

  abbrev pub fit_of : ℕ → F64 → F64 → F64 → ClockOffset
  fit_of now slope offset res_max = record {
    offset_ns = f.round_i128 offset;
    slope_num = f.round_i128 (f.mul slope (f.of_i128 den));
    slope_den = den;
    residual_max_ns = f.ceil_u64 res_max;
    fitted_at_host_ns = now;
  }

  -- The fit under a slope.
  unfoldable pub fit_with : ℕ → List Pair → F64 → ClockOffset
  unfolding max_residual middle
  fit_with now pairs slope =
      let offset = middle (map (offset_of slope) pairs) in
      fit_of now slope offset (max_residual slope offset pairs (f.lit 0 0))

  -- `now` is the host clock's reading.
  unfoldable pub fit_theil_sen : ℕ → List Pair → Option ClockOffset
  unfolding slopes middle fit_with
  fit_theil_sen now pairs =
      if ltb (length pairs) 2
      then none
      else if is_empty (slopes pairs)
      then none
      else some (fit_with now pairs (middle (slopes pairs)))
