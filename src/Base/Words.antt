-- ===== src/Base/Words.antt =====
-- Unsigned machine words as plain numbers, with the wrap-around of a release build written out.
use perf_weave.Base.{ℕ, ◌+◌, ◌-◌, ◌%◌, ◌^◌, min}

abbrev pub u8_mod : ℕ
u8_mod = 2 ^ 8

abbrev pub u32_mod : ℕ
u32_mod = 2 ^ 32

abbrev pub u64_mod : ℕ
u64_mod = 2 ^ 64

abbrev pub add_u64 : ℕ → ℕ → ℕ
add_u64 a b = (a + b) % u64_mod

abbrev pub add_u32 : ℕ → ℕ → ℕ
add_u32 a b = (a + b) % u32_mod

-- `u64::saturating_sub`, which is the subtraction of ℕ.
abbrev pub saturating_sub : ℕ → ℕ → ℕ
saturating_sub a b = a - b

-- `u64::saturating_add`.
abbrev pub saturating_add_u64 : ℕ → ℕ → ℕ
saturating_add_u64 a b = min (a + b) (2 ^ 64 - 1)

-- An `f64` or an `f32` as its bit pattern. It is moved, and compared by `Base.Floats`.
abbrev pub F64 : Type 0
F64 = ℕ

abbrev pub F32 : Type 0
F32 = ℕ
