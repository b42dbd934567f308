-- ===== src/Common/Clock/Fit/Middle.antt =====
-- The middle of a sorted list is one of its values.
use perf_weave.Base.{
  ℕ, zero, suc, ◌/◌, ◌<◌, ◌≡◌, refl, ap, sym, subst, ◌∙◌, ◌⊎◌, inl, inr, true, false, Bool-cases,
  List, [], ◌∷◌, ◌++◌, length, get_or, is_empty, arith,
}
use perf_weave.Base.Floats.{Floats, insert_sorted, sort}
use perf_weave.Base.Words.{F64}
use perf_weave.Common.Clock.Fit.{middle}

-- An item among those of a list.
abbrev pub Among : {A : Type 0} → A → List A → Type 0
Among a [] = ⊥
Among a (x ∷ xs) = (a ≡ x) ⊎ Among a xs

-- Two items of a list, in its order.
abbrev pub Before : {A : Type 0} → A → A → List A → Type 0
Before a b [] = ⊥
Before a b (x ∷ xs) = ((a ≡ x) × Among b xs) ⊎ Before a b xs

pub Among-append :
    {A : Type 0} (a : A) (xs ys : List A) → Among a (xs ++ ys) → Among a xs ⊎ Among a ys
Among-append a [] ys h = inr h
Among-append a (x ∷ xs) ys (inl e) = inl (inl e)
Among-append a (x ∷ xs) ys (inr h) = elim (Among-append a xs ys h) [
  | inl k ↦ inl (inr k)
  | inr k ↦ inr k
]

Among-get_or : (xs : List F64) (i : ℕ) (d : F64) → i < length xs → Among (get_or xs i d) xs
Among-get_or [] i d h = absurd (omega arith)
Among-get_or (x ∷ xs) zero d h = inl refl
Among-get_or (x ∷ xs) (suc i) d h = inr (Among-get_or xs i d (omega arith))

module _ (f : Floats) where
  Among-insert_sorted :
      (a x : F64) (ys : List F64) → Among a (insert_sorted f x ys) → (a ≡ x) ⊎ Among a ys
  Among-insert_sorted a x [] h = h
  Among-insert_sorted a x (y ∷ ys) h = elim (Bool-cases (f.lt y x)) [
    | inl e ↦ elim (rw e at h) [
      | inl k ↦ inr (inl k)
      | inr k ↦ elim (Among-insert_sorted a x ys k) [ inl m ↦ inl m | inr m ↦ inr (inr m) ]
    ]
    | inr e ↦ rw e at h
  ]

  Among-sort : (a : F64) (xs : List F64) → Among a (sort f xs) → Among a xs
  Among-sort a [] h = h
  Among-sort a (x ∷ xs) h = elim (Among-insert_sorted a x (sort f xs) h) [
    | inl k ↦ inl k
    | inr k ↦ inr (Among-sort a xs k)
  ]

  length-insert_sorted : (x : F64) (ys : List F64) → length (insert_sorted f x ys) ≡ suc (length ys)
  length-insert_sorted x [] = refl
  length-insert_sorted x (y ∷ ys) =
      let ih = length-insert_sorted x ys in
      elim (Bool-cases (f.lt y x)) [ inl e ↦ rw e (ap suc ih) | inr e ↦ rw e refl ]

  length-sort : (xs : List F64) → length (sort f xs) ≡ length xs
  length-sort [] = refl
  length-sort (x ∷ xs) = length-insert_sorted x (sort f xs) ∙ ap suc (length-sort xs)

  -- The middle of a list that is not empty is one of its values.
  pub Among-middle : (x : F64) (xs : List F64) → Among (middle f (x ∷ xs)) (x ∷ xs)
  unfolding middle
  Among-middle x xs =
      let n = length-sort (x ∷ xs) in
      Among-sort _ (x ∷ xs) (
        Among-get_or (sort f (x ∷ xs)) (length (sort f (x ∷ xs)) / 2) (f.lit 0 0)
          (omega (arith, n)))

  pub Among-middle_of : (xs : List F64) → is_empty xs ≡ false → Among (middle f xs) xs
  Among-middle_of [] h = cc
  Among-middle_of (x ∷ xs) h = Among-middle x xs

-- The second list has the items of the first, each put somewhere.
pub data Rearranged : List F64 → List F64 → Type 0 where
  nothing : Rearranged [] []
  put :
      (x : F64) {xs : List F64} (ys zs : List F64)
      → Rearranged xs (ys ++ zs)
      → Rearranged (x ∷ xs) (ys ++ x ∷ zs)

-- `<` of the standard is irreflexive and transitive, also on a NaN.
pub record StrictOrder (f : Floats) : Type 0 where
  pub irreflexive : (a : F64) → f.lt a a ≡ false
  pub transitive : (a b c : F64) → f.lt a b ≡ true → f.lt b c ≡ true → f.lt a c ≡ true

module _ (f : Floats) where
  abbrev pub NotBelow : F64 → List F64 → Type 0
  NotBelow y [] = Unit
  NotBelow y (z ∷ zs) = f.lt z y ≡ false

  -- No item is less than the one before it.
  abbrev pub Ascending : List F64 → Type 0
  Ascending [] = Unit
  Ascending (x ∷ xs) = NotBelow x xs × Ascending xs

  -- The item in the middle, the upper one of two, of the items in ascending order.
  abbrev pub MedianOf : F64 → List F64 → Type 0
  MedianOf m xs =
      (sorted : List F64) × Rearranged xs sorted
      × Ascending sorted
      × (get_or sorted (length xs / 2) (f.lit 0 0) ≡ m)

  insert_sorted-split :
      (x : F64) (ys : List F64)
      → (front : List F64) × (back : List F64) × (insert_sorted f x ys ≡ front ++ x ∷ back)
        × (ys ≡ front ++ back)
  insert_sorted-split x [] = ([], [], refl, refl)
  insert_sorted-split x (y ∷ ys) = elim (Bool-cases (f.lt y x)) [
    | inl e ↦
        let (front, back, split, same) = insert_sorted-split x ys in
        (y ∷ front, back, rw e (ap (◌∷◌ y) split), ap (◌∷◌ y) same)
    | inr e ↦ ([], y ∷ ys, rw e refl, refl)
  ]

  sort-Rearranged : (xs : List F64) → Rearranged xs (sort f xs)
  sort-Rearranged [] = nothing
  sort-Rearranged (x ∷ xs) =
      let (front, back, split, same) = insert_sorted-split x (sort f xs) in
      subst (Rearranged (x ∷ xs)) (sym split)
        (put x front back (subst (Rearranged xs) same (sort-Rearranged xs)))

  asymmetric : StrictOrder f → (a b : F64) → f.lt a b ≡ true → f.lt b a ≡ false
  asymmetric o a b h = elim (Bool-cases (f.lt b a)) [
    | inl e ↦ let around = o.transitive a b a h e in let never = o.irreflexive a in cc
    | inr e ↦ e
  ]

  insert_sorted-NotBelow :
      (x y : F64) (ys : List F64)
      → f.lt x y ≡ false
      → NotBelow y ys
      → NotBelow y (insert_sorted f x ys)
  insert_sorted-NotBelow x y [] h k = h
  insert_sorted-NotBelow x y (z ∷ zs) h k = elim (Bool-cases (f.lt z x)) [
    | inl e ↦ rw e k
    | inr e ↦ rw e h
  ]

  insert_sorted-Ascending :
      StrictOrder f → (x : F64) (ys : List F64) → Ascending ys → Ascending (insert_sorted f x ys)
  insert_sorted-Ascending o x [] h = (tt, tt)
  insert_sorted-Ascending o x (y ∷ ys) h = elim (Bool-cases (f.lt y x)) [
    | inl e ↦
        rw e (
          insert_sorted-NotBelow x y ys (asymmetric o y x e) h.0,
          insert_sorted-Ascending o x ys h.1,
        )
    | inr e ↦ rw e (e, h)
  ]

  sort-Ascending : StrictOrder f → (xs : List F64) → Ascending (sort f xs)
  sort-Ascending o [] = tt
  sort-Ascending o (x ∷ xs) = insert_sorted-Ascending o x (sort f xs) (sort-Ascending o xs)

  pub middle-MedianOf : StrictOrder f → (xs : List F64) → MedianOf (middle f xs) xs
  unfolding middle
  middle-MedianOf o xs = (
    sort f xs,
    sort-Rearranged xs,
    sort-Ascending o xs,
    ap (λ n. get_or (sort f xs) (n / 2) (f.lit 0 0)) (sym (length-sort f xs)),
  )
