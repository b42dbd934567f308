-- ===== src/Common/Intern/Backed.antt =====
-- What the interner remembers is announced (crates/perfweave-common/src/intern.rs).
use Prim.Native.String.{String}
use perf_weave.Base.{
  ℕ, ◌≡◌, refl, sym, ap, subst, ◌∙◌, true, false, Bool-cases, inl, inr, Option, none, some, List,
  [], ◌∷◌, ◌++◌, arith, All, ==_refl,
}
use perf_weave.Proto.{StringIntern}
use perf_weave.Common.Intern.{Interner, contains, record_text, record_all}

abbrev pub ids : List StringIntern → List ℕ
ids [] = []
ids (r ∷ rs) = r.id ∷ ids rs

module _ (hash : String → ℕ) where
  -- The interner remembers only ids that are announced.
  abbrev pub Backed : List ℕ → Interner → Type 0
  Backed known i = (id : ℕ) → contains id i.seen ≡ true → contains id known ≡ true

  contains-middle :
      (x a : ℕ) (xs ys : List ℕ) → contains x (xs ++ a ∷ ys) ≡ contains x (a ∷ (xs ++ ys))
  contains-middle x a [] ys = refl
  contains-middle x a (b ∷ xs) ys = ground (arith, contains-middle x a xs ys)

  contains-append_right :
      (x : ℕ) (xs ys : List ℕ) → contains x ys ≡ true → contains x (xs ++ ys) ≡ true
  contains-append_right x [] ys h = h
  contains-append_right x (b ∷ xs) ys h = ground (arith, contains-append_right x xs ys h)

  All-middle :
      (a : ℕ) (xs ys : List ℕ) (texts : List String)
      → All (λ t. contains (hash t) (xs ++ a ∷ ys) ≡ true) texts
      → All (λ t. contains (hash t) (a ∷ (xs ++ ys)) ≡ true) texts
  All-middle a xs ys [] h = tt
  All-middle a xs ys (t ∷ ts) h =
      (rw (contains-middle (hash t) a xs ys) at h.0, All-middle a xs ys ts h.1)

  record_text-old :
      (i : Interner) (t : String)
      → contains (hash t) i.seen ≡ true
      → record_text hash i t ≡ (i, hash t, none)
  unfolding record_text
  record_text-old i t old = rw old refl

  record_text-first :
      (i : Interner) (t : String)
      → contains (hash t) i.seen ≡ false
      → record_text hash i t
        ≡ (record i { seen = hash t ∷ i.seen }, hash t, some (record { id = hash t; text = t }))
  unfolding record_text
  record_text-first i t first = rw first refl

  -- One call and the rest of a sequence.
  abbrev then_rest : List String → Interner × ℕ × Option StringIntern → Interner × List StringIntern
  then_rest ts p =
      let (i', sent) = record_all hash p.0 ts in (i', elim p.2 [ none ↦ sent | some r ↦ r ∷ sent ])

  record_all-cons :
      (i : Interner) (t : String) (ts : List String)
      → record_all hash i (t ∷ ts) ≡ then_rest ts (record_text hash i t)
  unfolding record_all
  record_all-cons i t ts = refl

  abbrev pub BacksAll : List ℕ → List String → Interner × List StringIntern → Type 0
  BacksAll known texts (i', sent) =
      Backed (ids sent ++ known) i' × All (λ t. contains (hash t) (ids sent ++ known) ≡ true) texts

  -- A sequence of calls backs what it remembers, and every text of it is announced now or was before.
  pub record_all-Backed :
      (known : List ℕ) (i : Interner) (texts : List String)
      → Backed known i
      → BacksAll known texts (record_all hash i texts)
  unfolding record_all
  record_all-Backed known i [] h = (h, tt)
  record_all-Backed known i (t ∷ ts) h = elim (Bool-cases (contains (hash t) i.seen)) [
    | inl old ↦
        let (b, all) = record_all-Backed known i ts h in
        let e = record_all-cons i t ts ∙ ap (then_rest ts) (record_text-old i t old) in
        subst (BacksAll known (t ∷ ts)) (sym e) (
          b,
          (
            contains-append_right (hash t) (ids (record_all hash i ts).1) known (h (hash t) old),
            all,
          ),
        )
    | inr first ↦
        let i' = record i { seen = hash t ∷ i.seen } in
        let backed : Backed (hash t ∷ known) i' = λ id e. ground (arith, h id) in
        let (b, all) = record_all-Backed (hash t ∷ known) i' ts backed in
        let sent = ids (record_all hash i' ts).1 in
        let e = record_all-cons i t ts ∙ ap (then_rest ts) (record_text-first i t first) in
        subst (BacksAll known (t ∷ ts)) (sym e) (
          (λ id e. rw (contains-middle id (hash t) sent known) at (b id e)),
          (ground (arith, ==_refl (hash t)), All-middle (hash t) sent known ts all),
        )
  ]
