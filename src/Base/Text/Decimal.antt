-- ===== src/Base/Text/Decimal.antt =====
-- `parse` and `to_string` of unsigned machine integers, and their round trip.
use Prim.Native.Nat.{ℕ, zero, suc, ◌+◌, ◌-◌, ◌*◌, ◌/◌, ◌%◌, ◌^◌, ◌≤◌, ◌<◌}
use mathlib.Core.Bool.{true, false, ◌&&◌}
use mathlib.Core.Logic.{inl, inr}
use mathlib.Core.List.{[], ◌∷◌}
use mathlib.Core.Option.{Option, none, some}
use mathlib.Core.Path.{◌≡◌, refl, subst, ◌∙◌}
use native.Mathlib.Omega.{arith}
use perf_weave.Base.Lists.{All, length}
use perf_weave.Base.Tests.{leb, ◌==◌, if◌then◌else◌, Bool-cases}
use perf_weave.Base.Text.{Text}

abbrev pub IsDigit : ℕ → Type 0
IsDigit c = (48 ≤ c) × (c ≤ 57)

-- The loop of `from_str_radix` with its checked product and sum.
unfoldable pub scan : ℕ → Text → ℕ → Option ℕ
scan greatest [] n = some n
scan greatest (c ∷ s) n =
    let m = n * 10 + (c - 48) in
    let rest = scan greatest s m in if leb 48 c && leb c 57 && leb m greatest then rest else none

-- `parse` of an unsigned type with the given greatest value: one sign `+` may come first.
unfoldable pub parse : ℕ → Text → Option ℕ
unfolding scan
parse greatest [] = none
parse greatest (c ∷ []) = scan greatest (c ∷ []) 0
parse greatest (c ∷ d ∷ s) =
    if c == 43 then scan greatest (d ∷ s) 0 else scan greatest (c ∷ d ∷ s) 0

-- The digits of a number in front of a text; the fuel bounds their count.
unfoldable pub emit : ℕ → ℕ → Text → Text
emit zero n out = out
emit (suc k) n out =
    let longer = (48 + n % 10) ∷ out in
    let rest = emit k (n / 10) longer in if n / 10 == 0 then longer else rest

-- `to_string` of an integer of at most 64 bits, which has at most twenty digits.
unfoldable pub to_string : ℕ → Text
unfolding emit
to_string n = emit 20 n []

pow_suc : (k : ℕ) → 10 ^ suc (suc k) ≡ 10 * 10 ^ suc k
pow_suc k = omega arith

tenth_lt : (n m : ℕ) → n < 10 * m → n / 10 < m
tenth_lt n m h = omega arith

scan_digit : (g n : ℕ) (out : Text) → n ≤ g → scan g ((48 + n % 10) ∷ out) (n / 10) ≡ scan g out n
unfolding scan
scan_digit g n out fits = ground arith

pub scan-emit :
    (g k n : ℕ) (out : Text) → n ≤ g → n < 10 ^ k → 0 < k → scan g (emit k n out) 0 ≡ scan g out n
unfolding emit
scan-emit g zero n out fits h pos = absurd (omega arith)
scan-emit g (suc zero) n out fits h pos =
    let q : n / 10 ≡ 0 = omega arith in
    let step = scan_digit g n out fits in
    let one : (n / 10 == 0) ≡ true = ground arith in
    rw one (subst (λ m. scan g ((48 + n % 10) ∷ out) m ≡ scan g out n) q step)
scan-emit g (suc (suc k)) n out fits h pos =
    let small : n / 10 < 10 ^ suc k = tenth_lt n (10 ^ suc k) (subst (λ m. n < m) (pow_suc k) h) in
    let step = scan_digit g n out fits in
    elim (Bool-cases (n / 10 == 0)) [
      | inl e ↦
          let q : n / 10 ≡ 0 = ground arith in
          rw e (subst (λ m. scan g ((48 + n % 10) ∷ out) m ≡ scan g out n) q step)
      | inr e ↦ rw e (
          scan-emit g (suc k) (n / 10) ((48 + n % 10) ∷ out) (omega arith) small (omega arith)
          ∙ step)
    ]

scan-to_string : (g n : ℕ) → n ≤ g → n < 2 ^ 64 → scan g (to_string n) 0 ≡ some n
unfolding to_string scan
scan-to_string g n fits h = scan-emit g 20 n [] fits (omega arith) (omega arith)

pub All-emit : (k n : ℕ) (out : Text) → All IsDigit out → All IsDigit (emit k n out)
unfolding emit
All-emit zero n out h = h
All-emit (suc k) n out h =
    let longer : All IsDigit ((48 + n % 10) ∷ out) = ((omega arith, omega arith), h) in
    let rest = All-emit k (n / 10) ((48 + n % 10) ∷ out) longer in
    elim (Bool-cases (n / 10 == 0)) [ inl e ↦ rw e longer | inr e ↦ rw e rest ]

pub All-to_string : (n : ℕ) → All IsDigit (to_string n)
unfolding to_string
All-to_string n = All-emit 20 n [] tt

emit-nonempty : (k n : ℕ) (out : Text) → 0 < length out → 0 < length (emit k n out)
unfolding emit
emit-nonempty zero n out h = h
emit-nonempty (suc k) n out h =
    let rest = emit-nonempty k (n / 10) ((48 + n % 10) ∷ out) (omega arith) in
    elim (Bool-cases (n / 10 == 0)) [ inl e ↦ rw e (omega arith) | inr e ↦ rw e rest ]

emit-suc-nonempty : (k n : ℕ) → 0 < length (emit (suc k) n [])
unfolding emit
emit-suc-nonempty k n =
    let rest = emit-nonempty k (n / 10) ((48 + n % 10) ∷ []) (omega arith) in
    elim (Bool-cases (n / 10 == 0)) [ inl e ↦ rw e (omega arith) | inr e ↦ rw e rest ]

pub to_string-nonempty : (n : ℕ) → 0 < length (to_string n)
unfolding to_string
to_string-nonempty n = emit-suc-nonempty 19 n

parse-scan : (g : ℕ) (s : Text) → All IsDigit s → 0 < length s → parse g s ≡ scan g s 0
unfolding parse
parse-scan g [] h pos = absurd (omega arith)
parse-scan g (c ∷ []) h pos = refl
parse-scan g (c ∷ d ∷ s) h pos =
    let digit = h.0.0 in let e : (c == 43) ≡ false = ground arith in rw e refl

-- Every number that fits is read back from its decimal print.
pub parse-to_string : (g n : ℕ) → n ≤ g → n < 2 ^ 64 → parse g (to_string n) ≡ some n
parse-to_string g n fits h =
    rw (parse-scan g (to_string n) (All-to_string n) (to_string-nonempty n))
      (scan-to_string g n fits h)
