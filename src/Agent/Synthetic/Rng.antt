-- ===== src/Agent/Synthetic/Rng.antt =====
-- The random numbers of the library that synthetic.rs draws from: a generator with its state, and the
-- documented range of a whole number from it.
use perf_weave.Base.{ℕ, ◌≤◌, ◌<◌, Bool}
use perf_weave.Base.Words.{F64}

pub record Random : Type 1 where
  pub State : Type 0
  pub seed_from_u64 : ℕ → State
  -- `gen_range(lo..hi)`, for whole numbers and for floats.
  pub gen_range : State → ℕ → ℕ → ℕ × State
  pub gen_range_f64 : State → F64 → F64 → F64 × State
  pub gen_f64 : State → F64 × State
  pub gen_bool : State → F64 → Bool × State
  -- A sample of the gamma distribution of a shape and a scale.
  pub gamma : State → F64 → F64 → F64 × State
  pub gen_range-bounds :
      (s : State) (lo hi : ℕ)
      → lo < hi
      → (lo ≤ (gen_range s lo hi).0) × ((gen_range s lo hi).0 < hi)
