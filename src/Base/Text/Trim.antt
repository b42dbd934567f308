-- ===== src/Base/Text/Trim.antt =====
-- `trim` leaves texts of digits alone.
use Prim.Native.Nat.{ℕ}
use mathlib.Core.Bool.{false}
use mathlib.Core.List.{[], ◌∷◌}
use mathlib.Core.Path.{◌≡◌, refl}
use native.Mathlib.Omega.{arith}
use perf_weave.Base.Lists.{All}
use perf_weave.Base.Text.{Text, is_whitespace, trim_start, trim_end, trim}
use perf_weave.Base.Text.Decimal.{IsDigit}

digit_not_whitespace : (c : ℕ) → IsDigit c → is_whitespace c ≡ false
unfolding is_whitespace
digit_not_whitespace c h = let low = h.0 in let high = h.1 in ground arith

trim_start-digits : (s : Text) → All IsDigit s → trim_start s ≡ s
unfolding trim_start
trim_start-digits [] h = refl
trim_start-digits (c ∷ s) h = rw (digit_not_whitespace c h.0) refl

trim_end-digits : (s : Text) → All IsDigit s → trim_end s ≡ s
unfolding trim_end
trim_end-digits [] h = refl
trim_end-digits (c ∷ []) h = rw (digit_not_whitespace c h.0) refl
trim_end-digits (c ∷ d ∷ s) h = rw (trim_end-digits (d ∷ s) h.1) refl

pub trim-digits : (s : Text) → All IsDigit s → trim s ≡ s
unfolding trim
trim-digits s h = rw (trim_start-digits s h, trim_end-digits s h) refl
