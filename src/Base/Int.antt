-- ===== src/Base/Int.antt =====
-- Signed integers over the native numbers, under the library's names (its ℤ stands on the unary ℕ),
-- with the operations of Rust's `i128`: truncating division, clamping and the casts.
use perf_weave.Base.{
  ℕ, suc, ◌+◌, ◌-◌, ◌*◌, ◌/◌, ◌%◌, ◌^◌, ◌≤◌, ◌<◌, ◌≡◌, Bool, arith, ltb, leb, ◌==◌, ◌&&◌,
  if◌then◌else◌,
}
use perf_weave.Base.Words.{u64_mod}

-- `negsuc n` is -(n + 1).
pub data ℤ : Type 0 where
  pos : ℕ → ℤ
  negsuc : ℕ → ℤ

abbrev pub pos_part : ℤ → ℕ
pos_part (pos n) = n
pos_part (negsuc n) = 0

abbrev pub neg_part : ℤ → ℕ
neg_part (pos n) = 0
neg_part (negsuc n) = suc n

-- a - b, as an integer.
abbrev pub sub_ℕ : ℕ → ℕ → ℤ
sub_ℕ a b = if leb b a then pos (a - b) else negsuc (b - a - 1)

infixl 65 ◌+ℤ◌ ◌-ℤ◌
infixl 70 ◌*ℤ◌ ◌/ℤ◌
infix 50 ◌≤ℤ◌
unfoldable pub ◌+ℤ◌ : ℤ → ℤ → ℤ
a +ℤ b = sub_ℕ (pos_part a + pos_part b) (neg_part a + neg_part b)

unfoldable pub ◌-ℤ◌ : ℤ → ℤ → ℤ
a -ℤ b = sub_ℕ (pos_part a + neg_part b) (neg_part a + pos_part b)

unfoldable pub ◌*ℤ◌ : ℤ → ℤ → ℤ
a *ℤ b =
    sub_ℕ (pos_part a * pos_part b + neg_part a * neg_part b)
      (pos_part a * neg_part b + neg_part a * pos_part b)

abbrev pub ◌≤ℤ◌ : ℤ → ℤ → Type 0
a ≤ℤ b = pos_part a + neg_part b ≤ pos_part b + neg_part a

abbrev pub leb_ℤ : ℤ → ℤ → Bool
leb_ℤ a b = leb (pos_part a + neg_part b) (pos_part b + neg_part a)

abbrev pub eqb_ℤ : ℤ → ℤ → Bool
eqb_ℤ a b = (pos_part a == pos_part b) && (neg_part a == neg_part b)

-- The negation of a natural number.
abbrev pub neg_ℕ : ℕ → ℤ
neg_ℕ n = sub_ℕ 0 n

-- Division by a positive number, rounded toward zero as Rust's `/` does.
unfoldable pub quot_ℕ : ℤ → ℕ → ℤ
quot_ℕ (pos n) d = pos (n / d)
quot_ℕ (negsuc n) d = neg_ℕ (suc n / d)

-- Rust's `/` on signed integers; a zero divisor panics there, and the callers exclude it.
unfoldable pub ◌/ℤ◌ : ℤ → ℤ → ℤ
unfolding quot_ℕ ◌-ℤ◌
a /ℤ pos d = quot_ℕ a d
a /ℤ negsuc d = pos 0 -ℤ quot_ℕ a (suc d)

-- `x as u64` of a signed integer: its residue modulo 2^64.
abbrev pub as_u64 : ℤ → ℕ
as_u64 (pos n) = n % u64_mod
as_u64 (negsuc n) = (u64_mod - suc n % u64_mod) % u64_mod

-- `x as i64` of a `u64`: its two's-complement reading.
abbrev pub u64_as_i64 : ℕ → ℤ
u64_as_i64 n = if ltb n (2 ^ 63) then pos n else neg_ℕ (u64_mod - n)

-- `i128::MAX` and `i128::MIN`.
abbrev pub i128_max : ℤ
i128_max = pos (2 ^ 127 - 1)

abbrev pub i128_min : ℤ
i128_min = negsuc (2 ^ 127 - 1)

-- The two's-complement wrap-around of `i128` arithmetic in a release build.
unfoldable pub wrap_i128 : ℤ → ℤ
wrap_i128 z =
    let r = (pos_part z + (2 ^ 128 - neg_part z % 2 ^ 128)) % 2 ^ 128 in
    if ltb r (2 ^ 127) then pos r else negsuc (2 ^ 128 - r - 1)

-- The clamping of `i128::saturating_mul`.
unfoldable pub saturate_i128 : ℤ → ℤ
saturate_i128 z = if leb_ℤ z i128_max then (if leb_ℤ i128_min z then z else i128_min) else i128_max

-- `x.max(0)`.
abbrev pub max_zero : ℤ → ℤ
max_zero z = pos (pos_part z)

-- A value in the range of `i128` is left alone by both.
abbrev pub InI128 : ℤ → Type 0
InI128 z = (pos_part z < 2 ^ 127) × (neg_part z ≤ 2 ^ 127)

pub wrap_i128-of_in : (z : ℤ) → InI128 z → wrap_i128 z ≡ z
unfolding wrap_i128
wrap_i128-of_in (pos n) h = ground arith
wrap_i128-of_in (negsuc n) h = ground arith

pub saturate_i128-of_in : (z : ℤ) → InI128 z → saturate_i128 z ≡ z
unfolding saturate_i128
saturate_i128-of_in (pos n) h = ground arith
saturate_i128-of_in (negsuc n) h = ground arith

pub wrap_i128-pos : (n : ℕ) → n < 2 ^ 127 → wrap_i128 (pos n) ≡ pos n
wrap_i128-pos n h = wrap_i128-of_in (pos n) (omega arith)

pub mul-pos : (a b : ℕ) → pos a *ℤ pos b ≡ pos (a * b)
unfolding ◌*ℤ◌
mul-pos a b = ground arith

pub add-pos : (a b : ℕ) → pos a +ℤ pos b ≡ pos (a + b)
unfolding ◌+ℤ◌
add-pos a b = ground arith
