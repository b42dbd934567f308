-- ===== src/Base/Text/Lines.antt =====
-- Lines, words, prefixes and substrings.
use Prim.Native.Nat.{◌+◌}
use mathlib.Core.Bool.{Bool, true, false, ◌||◌}
use mathlib.Core.List.{List, [], ◌∷◌}
use mathlib.Core.Option.{Option, none, some}
use perf_weave.Base.Lists.{is_empty}
use perf_weave.Base.Tests.{◌==◌, if◌then◌else◌}
use perf_weave.Base.Text.{Text, between, is_whitespace, trim_start}
use perf_weave.Base.Text.Parts.{split}

-- A carriage return before a line feed is no part of the line.
abbrev pub strip_cr : Text → Text
strip_cr [] = []
strip_cr (c ∷ []) = if c == 13 then [] else c ∷ []
strip_cr (c ∷ d ∷ s) = c ∷ strip_cr (d ∷ s)

abbrev pub lines_of : List Text → List Text
lines_of [] = []
lines_of (p ∷ []) = if is_empty p then [] else p ∷ []
lines_of (p ∷ q ∷ ps) = strip_cr p ∷ lines_of (q ∷ ps)

-- `str::lines`.
unfoldable pub lines : Text → List Text
lines s = lines_of (split 10 s)

-- `str::strip_prefix`.
abbrev pub strip_prefix : Text → Text → Option Text
strip_prefix [] s = some s
strip_prefix (c ∷ p) [] = none
strip_prefix (c ∷ p) (d ∷ s) = if c == d then strip_prefix p s else none

abbrev pub is_some {ℓ} : {A : Type ℓ} → Option A → Bool
is_some none = false
is_some (some a) = true

-- `str::starts_with`, the text first.
abbrev pub starts_with : Text → Text → Bool
starts_with s p = is_some (strip_prefix p s)

-- `str::contains`, the text first.
abbrev pub contains : Text → Text → Bool
contains [] p = is_empty p
contains (c ∷ s) p = starts_with (c ∷ s) p || contains s p

-- A text up to its first white space.
abbrev pub word : Text → Text
word [] = []
word (c ∷ s) = if is_whitespace c then [] else c ∷ word s

abbrev pub nonempty : Text → Option Text
nonempty [] = none
nonempty (c ∷ s) = some (c ∷ s)

-- `split_whitespace().next()`.
unfoldable pub first_word : Text → Option Text
first_word s = nonempty (word (trim_start s))

unfoldable pub to_ascii_lowercase : Text → Text
to_ascii_lowercase [] = []
to_ascii_lowercase (c ∷ s) = (if between b'A' b'Z' c then c + 32 else c) ∷ to_ascii_lowercase s
