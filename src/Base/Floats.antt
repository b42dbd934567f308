-- ===== src/Base/Floats.antt =====
-- The operations on floats that the code uses, on bit patterns. They are parameters: nothing here
-- says how they round.
use perf_weave.Base.{
  ℕ, ◌+◌, ◌-◌, ◌*◌, ◌/◌, ◌%◌, Bool, List, [], ◌∷◌, leb, ltb, max, min, if◌then◌else◌,
}
use perf_weave.Base.Int.{ℤ, pos, as_u64}
use perf_weave.Base.Words.{F64, F32}

pub record Floats : Type 0 where
  pub add : F64 → F64 → F64
  pub sub : F64 → F64 → F64
  pub mul : F64 → F64 → F64
  pub div : F64 → F64 → F64
  pub sqrt : F64 → F64
  pub abs : F64 → F64
  -- `<` and `<=`, false on a NaN.
  pub lt : F64 → F64 → Bool
  pub le : F64 → F64 → Bool
  pub fmax : F64 → F64 → F64
  pub fmin : F64 → F64 → F64
  pub sin : F64 → F64
  -- The cast to `u64`, towards zero and saturating.
  pub trunc_u64 : F64 → ℕ
  pub of_u64 : ℕ → F64
  -- The casts between `f64` and `i128`, and to `u64`, after `round` and `ceil`.
  pub of_i128 : ℤ → F64
  pub round_i128 : F64 → ℤ
  pub ceil_u64 : F64 → ℕ
  -- A literal `n / 10^k`.
  pub lit : ℕ → ℕ → F64
  -- The same for `f32`, and the casts.
  pub add32 : F32 → F32 → F32
  pub max32 : F32 → F32 → F32
  pub sub32 : F32 → F32 → F32
  pub mul32 : F32 → F32 → F32
  pub rem32 : F32 → F32 → F32
  pub of_usize32 : ℕ → F32
  pub lt32 : F32 → F32 → Bool
  pub lit32 : ℕ → ℕ → F32
  pub widen : F32 → F64
  pub narrow : F64 → F32

module _ (f : Floats) where
  -- `sort_by` with `partial_cmp`, a stable sort; with a NaN the library's order is not specified.
  abbrev pub insert_sorted : F64 → List F64 → List F64
  insert_sorted x [] = x ∷ []
  insert_sorted x (y ∷ ys) =
      let rest = insert_sorted x ys in if f.lt y x then y ∷ rest else x ∷ y ∷ ys

  abbrev pub sort : List F64 → List F64
  sort [] = []
  sort (x ∷ xs) = insert_sorted x (sort xs)

-- Whole numbers in place of floats, to run the definitions on small inputs.
abbrev pub whole_numbers : Floats
whole_numbers = record {
  add = ◌+◌;
  sub = ◌-◌;
  mul = ◌*◌;
  div = ◌/◌;
  sqrt = λ x. x;
  abs = λ x. x;
  lt = ltb;
  le = leb;
  fmax = max;
  fmin = min;
  sin = λ x. x;
  trunc_u64 = λ x. x;
  of_u64 = λ n. n;
  of_i128 = λ z. as_u64 z;
  round_i128 = λ x. pos x;
  ceil_u64 = λ x. x;
  lit = λ n k. n;
  add32 = ◌+◌;
  max32 = max;
  sub32 = ◌-◌;
  mul32 = ◌*◌;
  rem32 = ◌%◌;
  of_usize32 = λ n. n;
  lt32 = ltb;
  lit32 = λ n k. n;
  widen = λ x. x;
  narrow = λ x. x;
}
