-- ===== src/Flow/Lists.antt =====
-- Lemmas on lists for the way of the events.
use perf_weave.Base.{
  ◌≡◌, ◌≤◌, refl, ap, Bool, Bool-cases, inl, inr, List, [], ◌∷◌, ◌++◌, map, arith, length, filter,
  Subseq, none_left, skip, keep,
}

module _ {ℓ} {A : Type ℓ} where
  pub filter-append :
      (p : A → Bool) (xs ys : List A) → filter p (xs ++ ys) ≡ filter p xs ++ filter p ys
  filter-append p [] ys = refl
  filter-append p (x ∷ xs) ys = elim (Bool-cases (p x)) [
    | inl e ↦ rw e (ap (◌∷◌ x) (filter-append p xs ys))
    | inr e ↦ rw e (filter-append p xs ys)
  ]

  pub filter-filter : (p : A → Bool) (xs : List A) → filter p (filter p xs) ≡ filter p xs
  filter-filter p [] = refl
  filter-filter p (x ∷ xs) = elim (Bool-cases (p x)) [
    | inl e ↦ rw e (rw e (ap (◌∷◌ x) (filter-filter p xs)))
    | inr e ↦ rw e (filter-filter p xs)
  ]

  -- A test that does not see what `f` changes.
  pub filter-map :
      (p : A → Bool) (f : A → A)
      → ((x : A) → p (f x) ≡ p x)
      → (xs : List A) → filter p (map f xs) ≡ map f (filter p xs)
  filter-map p f same [] = refl
  filter-map p f same (x ∷ xs) = elim (Bool-cases (p x)) [
    | inl e ↦ rw (same x, e) (ap (◌∷◌ (f x)) (filter-map p f same xs))
    | inr e ↦ rw (same x, e) (filter-map p f same xs)
  ]

  pub length-Subseq : {xs ys : List A} → Subseq xs ys → length xs ≤ length ys
  length-Subseq none_left = omega arith
  length-Subseq (skip y s) = omega (arith, length-Subseq s)
  length-Subseq (keep x s) = omega (arith, length-Subseq s)

  -- A part that is as long as the whole is the whole.
  pub Subseq-whole : {xs ys : List A} → Subseq xs ys → length xs ≡ length ys → xs ≡ ys
  Subseq-whole none_left h = refl
  Subseq-whole (skip y s) h = absurd (omega (arith, length-Subseq s))
  Subseq-whole (keep x s) h = ap (◌∷◌ x) (Subseq-whole s (omega arith))

  pub Subseq-map {κ} :
      {B : Type κ} {xs ys : List A} (f : A → B) → Subseq xs ys → Subseq (map f xs) (map f ys)
  Subseq-map f none_left = none_left
  Subseq-map f (skip y s) = skip (f y) (Subseq-map f s)
  Subseq-map f (keep x s) = keep (f x) (Subseq-map f s)
