-- ===== src/Common/Clock/Fit/Sound.antt =====
-- What a clock fit guarantees for the pairs it is made of.
use perf_weave.Base.{
  ℕ, ◌^◌, ◌≡◌, refl, sym, ap, subst, ◌⊎◌, inl, inr, true, false, Bool-cases, Option, none, some,
  List, [], ◌∷◌, ◌++◌, map, length, is_empty, ltb, if◌then◌else◌, All, arith,
}
use perf_weave.Base.Floats.{Floats}
use perf_weave.Base.Int.{pos, ◌-ℤ◌}
use perf_weave.Base.Words.{F64}
use perf_weave.Common.Clock.{ClockOffset, Pair}
use perf_weave.Common.Clock.Fit.{
  slope_between, slopes_from, slopes, middle, offset_of, residual_of, max_residual, fit_with,
  fit_theil_sen,
}
use perf_weave.Common.Clock.Fit.Middle.{
  Among, Before, Among-append, Among-middle_of, StrictOrder, MedianOf, middle-MedianOf,
}

-- All the pairs have the source time of the first.
abbrev pub SameSource : List Pair → Type 0
SameSource [] = Unit
SameSource (p ∷ ps) = All (λ q. q.src_ns ≡ p.src_ns) ps

module _ (f : Floats) where
  first_slope :
      (s : F64) (o : Option F64) (rest : List F64)
      → Among s (elim o [ none ↦ rest | some t ↦ t ∷ rest ])
      → (o ≡ some s) ⊎ Among s rest
  first_slope s none rest h = inr h
  first_slope s (some t) rest (inl e) = inl (ap some (sym e))
  first_slope s (some t) rest (inr h) = inr h

  Among-slopes_from :
      (s : F64) (p : Pair) (qs : List Pair)
      → Among s (slopes_from f p qs)
      → (q : Pair) × Among q qs × (slope_between f p q ≡ some s)
  unfolding slopes_from
  Among-slopes_from s p [] h = absurd h
  Among-slopes_from s p (q ∷ qs) h =
      elim (first_slope s (slope_between f p q) (slopes_from f p qs) h) [
        | inl e ↦ (q, inl refl, e)
        | inr k ↦ let (r, there, e) = Among-slopes_from s p qs k in (r, inr there, e)
      ]

  Among-slopes :
      (s : F64) (ps : List Pair)
      → Among s (slopes f ps)
      → (p : Pair) × (q : Pair) × Before p q ps × (slope_between f p q ≡ some s)
  unfolding slopes
  Among-slopes s [] h = absurd h
  Among-slopes s (p ∷ ps) h = elim (Among-append s (slopes_from f p ps) (slopes f ps) h) [
    | inl k ↦ let (q, there, e) = Among-slopes_from s p ps k in (p, q, inl (refl, there), e)
    | inr k ↦ let (a, b, there, e) = Among-slopes s ps k in (a, b, inr there, e)
  ]

  -- No value below the pair's residual: the residuals seen so far do not exceed the greatest.
  abbrev pub Covers : F64 → F64 → F64 → List Pair → Type 0
  Covers slope offset res = All (λ p. f.lt res (residual_of f slope offset p) ≡ false)

  not_below : StrictOrder f → (a b r : F64) → f.lt a b ≡ true → f.lt a r ≡ false → f.lt b r ≡ false
  not_below o a b r ab ar = elim (Bool-cases (f.lt b r)) [
    | inl br ↦ let through = o.transitive a b r ab br in cc
    | inr br ↦ br
  ]

  abbrev pub Greatest : F64 → F64 → List Pair → F64 → F64 → Type 0
  Greatest slope offset ps res m =
      Covers slope offset m ps × ((r : F64) → f.lt res r ≡ false → f.lt m r ≡ false)

  -- The greatest never falls, and covers every pair.
  max_residual-Covers :
      StrictOrder f
      → (slope offset : F64) (ps : List Pair) (res : F64)
      → Greatest slope offset ps res (max_residual f slope offset ps res)
  unfolding max_residual
  max_residual-Covers o slope offset [] res = (tt, λ r h. h)
  max_residual-Covers o slope offset (p ∷ ps) res =
      let here = residual_of f slope offset p in
      elim (Bool-cases (f.lt res here)) [
        | inl e ↦
            let (covered, kept) = max_residual-Covers o slope offset ps here in
            let step : max_residual f slope offset (p ∷ ps) res
                ≡ max_residual f slope offset ps here =
              rw e refl in
            subst (Greatest slope offset (p ∷ ps) res) (sym step) (
              (kept here (o.irreflexive here), covered),
              λ r h. kept r (not_below o res here r e h),
            )
        | inr e ↦
            let (covered, kept) = max_residual-Covers o slope offset ps res in
            let step : max_residual f slope offset (p ∷ ps) res
                ≡ max_residual f slope offset ps res =
              rw e refl in
            subst (Greatest slope offset (p ∷ ps) res) (sym step) ((kept here e, covered), kept)
      ]

  none_first :
      (o : Option F64) (rest : List F64)
      → (elim o [ none ↦ rest | some t ↦ t ∷ rest ]) ≡ []
      → (o ≡ none) × (rest ≡ [])
  none_first none rest h = (refl, h)
  none_first (some t) rest h = cc

  slope_between-none : (p q : Pair) → slope_between f p q ≡ none → q.src_ns ≡ p.src_ns
  unfolding slope_between ◌-ℤ◌
  slope_between-none p q h = ground arith

  All-none :
      (p : Pair) (qs : List Pair) → slopes_from f p qs ≡ [] → All (λ q. q.src_ns ≡ p.src_ns) qs
  unfolding slopes_from
  All-none p [] h = tt
  All-none p (q ∷ qs) h =
      let (e, rest) = none_first (slope_between f p q) (slopes_from f p qs) h in
      (slope_between-none p q e, All-none p qs rest)

  is_empty-append : (xs ys : List F64) → is_empty (xs ++ ys) ≡ true → xs ≡ []
  is_empty-append [] ys h = refl
  is_empty-append (x ∷ xs) ys h = cc

  no_slopes :
      (p : Pair) (ps : List Pair) → is_empty (slopes f (p ∷ ps)) ≡ true → SameSource (p ∷ ps)
  unfolding slopes
  no_slopes p ps h = All-none p ps (is_empty-append (slopes_from f p ps) (slopes f ps) h)

  fit_theil_sen-long :
      (now : ℕ) (x y : Pair) (ps : List Pair)
      → let pairs = x ∷ y ∷ ps in
        fit_theil_sen f now pairs ≡ (
          if is_empty (slopes f pairs)
          then none
          else some (fit_with f now pairs (middle f (slopes f pairs))))
  unfolding fit_theil_sen
  fit_theil_sen-long now x y ps =
      let long : ltb (length (x ∷ y ∷ ps)) 2 ≡ false = ground arith in rw (fit_theil_sen, long) refl

  -- The greatest is the one it starts from or that of a pair.
  max_residual-Reached :
      (slope offset : F64) (ps : List Pair) (res : F64)
      → let m = max_residual f slope offset ps res in
        (m ≡ res) ⊎ ((p : Pair) × Among p ps × (residual_of f slope offset p ≡ m))
  unfolding max_residual
  max_residual-Reached slope offset [] res = inl refl
  max_residual-Reached slope offset (p ∷ ps) res =
      let here = residual_of f slope offset p in
      elim (Bool-cases (f.lt res here)) [
        | inl e ↦ rw e (elim (max_residual-Reached slope offset ps here) [
          | inl same ↦ inr (p, inl refl, sym same)
          | inr (q, there, same) ↦ inr (q, inr there, same)
        ])
        | inr e ↦ rw e (elim (max_residual-Reached slope offset ps res) [
          | inl same ↦ inl same
          | inr (q, there, same) ↦ inr (q, inr there, same)
        ])
      ]

  -- The fields of a fit: slope and offset to the nearest integers, the slope in units of 2^-30, and the
  -- residual rounded up.
  abbrev pub Rounded : ℕ → F64 → F64 → F64 → ClockOffset → Type 0
  Rounded now slope offset res fit =
      (fit.slope_num ≡ f.round_i128 (f.mul slope (f.of_i128 (pos (2 ^ 30)))))
      × (fit.slope_den ≡ pos (2 ^ 30))
      × (fit.offset_ns ≡ f.round_i128 offset)
      × (fit.residual_max_ns ≡ f.ceil_u64 res)
      × (fit.fitted_at_host_ns ≡ now)

  -- What a fit tells of the pairs; `now` is its time.
  pub data Fitted (now : ℕ) (pairs : List Pair) : Option ClockOffset → Type 0 where
    same_source : SameSource pairs → Fitted now pairs none
    fitted :
        (slope offset res : F64) (p q : Pair) (fit : ClockOffset)
        → MedianOf f slope (slopes f pairs)
        → Before p q pairs × (slope_between f p q ≡ some slope)
        → MedianOf f offset (map (offset_of f slope) pairs)
        → Covers slope offset res pairs
        → (res ≡ f.lit 0 0) ⊎ ((r : Pair) × Among r pairs × (residual_of f slope offset r ≡ res))
        → Rounded now slope offset res fit
        → Fitted now pairs (some fit)

  fit_with-Fitted :
      (now : ℕ) (x : Pair) (ps : List Pair)
      → let pairs = x ∷ ps in
        Among (middle f (slopes f pairs)) (slopes f pairs)
        → StrictOrder f
        → Fitted now pairs (some (fit_with f now pairs (middle f (slopes f pairs))))
  unfolding fit_with
  fit_with-Fitted now x ps among o =
      let pairs : List Pair = x ∷ ps in
      let slope = middle f (slopes f pairs) in
      let offset = middle f (map (offset_of f slope) pairs) in
      let (p, q, there, e) = Among-slopes slope pairs among in
      fitted slope offset (max_residual f slope offset pairs (f.lit 0 0)) p q _
        (middle-MedianOf f o (slopes f pairs)) (there, e)
        (middle-MedianOf f o (map (offset_of f slope) pairs))
        (max_residual-Covers o slope offset pairs (f.lit 0 0)).0
        (max_residual-Reached slope offset pairs (f.lit 0 0)) (refl, refl, refl, refl, refl)

  -- If `<` is irreflexive and transitive: no fit is made only if all the pairs have the same source time. Else, in the arithmetic of the
  -- floats, there are a slope, the median of the slopes between two of the pairs and one of them, an
  -- offset, the median of those at which one of the pairs is exact under the slope, and a residual, zero
  -- or the distance of some pair from the two, that no pair exceeds. The fit has that slope and offset
  -- rounded to integers and that residual rounded up, which does not count what the rounding adds.
  pub fit_theil_sen-Fitted :
      (now : ℕ) (pairs : List Pair) → StrictOrder f → Fitted now pairs (fit_theil_sen f now pairs)
  unfolding fit_theil_sen
  fit_theil_sen-Fitted now [] o = same_source tt
  fit_theil_sen-Fitted now (x ∷ []) o = same_source tt
  fit_theil_sen-Fitted now (x ∷ y ∷ ps) o =
      let pairs : List Pair = x ∷ y ∷ ps in
      elim (Bool-cases (is_empty (slopes f pairs))) [
        | inl e ↦ rw (fit_theil_sen-long now x y ps, e) (same_source (no_slopes x (y ∷ ps) e))
        | inr e ↦
            rw (fit_theil_sen-long now x y ps, e)
              (fit_with-Fitted now x (y ∷ ps) (Among-middle_of f (slopes f pairs) e) o)
      ]
