-- ===== src/Inject/Pm/Cards.antt =====
-- What the cards of a window say of its samples (pm.rs).
use perf_weave.Base.{
  ℕ, ◌+◌, ◌^◌, ◌≤◌, ◌<◌, ◌≡◌, refl, sym, ◌∙◌, ap, ◌⊎◌, inl, inr, Bool, ◌&&◌, Option, none, some,
  List, [], ◌∷◌, arith, ltb, ◌==◌, if◌then◌else◌, length, All, Bool-cases, Option-cases,
  ge→ltb_false,
}
use perf_weave.Base.Floats.{Floats}
use perf_weave.Base.Maps.{
  lookup, lookup-insert, pair_eq, pair_beq_iff, Distinct, insert-Distinct, lookup-tail, beq_refl,
}
use perf_weave.Proto.{KernelSol}
use perf_weave.Inject.Pm.{
  PmSample, Attribution, default, HostSampler, new, add, card, finalize, sample, cards, drain_cards,
  min_samples_for_card,
}

-- The samples of a window, each with its GPU and kernel.
abbrev pub History : Type 0
History = List ((ℕ × ℕ) × PmSample)

abbrev pub same_key : ℕ × ℕ → ℕ × ℕ → Bool
same_key a b = (a.0 == b.0) && (a.1 == b.1)

abbrev pub samples_of : ℕ × ℕ → History → List PmSample
samples_of k [] = []
samples_of k ((j, s) ∷ hist) = if same_key j k then s ∷ samples_of k hist else samples_of k hist

none-some {ℓ} : {A : Type ℓ} {a : A} → ◌≡◌ {A = Option A} none (some a) → ⊥
none-some e = cc

some-inj {ℓ} : {A : Type ℓ} {a b : A} → some a ≡ some b → a ≡ b
some-inj e = cc

-- Membership, as equations.
abbrev pub Member : KernelSol → List KernelSol → Type 0
Member c [] = ⊥
Member c (d ∷ ds) = (d ≡ c) ⊎ Member c ds

length-samples_of : (k : ℕ × ℕ) (hist : History) → length (samples_of k hist) ≤ length hist
length-samples_of k [] = omega arith
length-samples_of k ((j, s) ∷ hist) = ground (arith, length-samples_of k hist)

lookup-head : (k : ℕ × ℕ) (a : Attribution) (m : HostSampler) → lookup k ((k, a) ∷ m) ≡ some a
unfolding lookup
lookup-head k a m = rw (beq_refl k) refl

module _ (f : Floats) where
  abbrev pub sample_all : HostSampler → History → HostSampler
  sample_all hs [] = hs
  sample_all hs ((k, s) ∷ hist) = sample_all (sample f hs k.0 k.1 s) hist

  -- A bucket is the sum of samples, from another bucket on.
  abbrev pub total : Option Attribution → List PmSample → Option Attribution
  total o [] = o
  total none (s ∷ ss) = total (some (add f default s)) ss
  total (some a) (s ∷ ss) = total (some (add f a s)) ss

  lookup-sample :
      (k j : ℕ × ℕ) (s : PmSample) (hs : HostSampler)
      → lookup j (sample f hs k.0 k.1 s)
        ≡ (if same_key k j then total (lookup k hs) (s ∷ []) else lookup j hs)
  unfolding sample
  lookup-sample k j s hs =
      lookup-insert k j (add f (elim (lookup k hs) [ none ↦ default | some a ↦ a ]) s) hs
      ∙ ap (λ o. if same_key k j then o else lookup j hs) (added (lookup k hs))
    where
      added :
          (o : Option Attribution)
          → some (add f (elim o as (λ _. Attribution) [ none ↦ default | some a ↦ a ]) s)
            ≡ total o (s ∷ [])
      added none = refl
      added (some a) = refl

  total-cons :
      (o : Option Attribution) (s : PmSample) (ss : List PmSample)
      → total o (s ∷ ss) ≡ total (total o (s ∷ [])) ss
  total-cons none s ss = refl
  total-cons (some a) s ss = refl

  lookup-sample_all :
      (k : ℕ × ℕ) (hist : History) (hs : HostSampler)
      → lookup k (sample_all hs hist) ≡ total (lookup k hs) (samples_of k hist)
  lookup-sample_all k [] hs = refl
  lookup-sample_all k ((j, s) ∷ hist) hs =
      lookup-sample_all k hist (sample f hs j.0 j.1 s)
      ∙ ap (λ o. total o (samples_of k hist)) (lookup-sample j k s hs)
      ∙ step
    where
      step :
          total
            (if same_key j k then total (lookup j hs) (s ∷ []) else lookup k hs)
            (samples_of k hist)
          ≡ total (lookup k hs) (if same_key j k then s ∷ samples_of k hist else samples_of k hist)
      step = elim (Bool-cases (same_key j k)) [
        | inl same ↦
            let e : j ≡ k = (pair_beq_iff j k).0 same in
            rw same (rw e (sym (total-cons (lookup k hs) s (samples_of k hist))))
        | inr other ↦ rw other refl
      ]

  sample_all-Distinct :
      (hist : History) (hs : HostSampler) → Distinct hs → Distinct (sample_all hs hist)
  unfolding sample
  sample_all-Distinct [] hs d = d
  sample_all-Distinct ((k, s) ∷ hist) hs d =
      sample_all-Distinct hist (sample f hs k.0 k.1 s)
        (insert-Distinct k (add f (elim (lookup k hs) [ none ↦ default | some a ↦ a ]) s) hs d)

  -- The count of a bucket is the number of its samples.
  total-count :
      (ss : List PmSample) (a b : Attribution)
      → total (some a) ss ≡ some b
      → a.count + length ss < 2 ^ 32
      → b.count ≡ a.count + length ss
  unfolding add
  total-count [] a b e h =
      omega (arith, ap (λ o. elim o as (λ _. ℕ) [ none ↦ 0 | some c ↦ c.count ]) e)
  total-count (s ∷ ss) a b e h =
      let rest = total-count ss (add f a s) b e (omega arith) in omega (arith, rest)

  -- The bucket of a kernel in a window counts its samples, if there are any.
  total-none-count :
      (k : ℕ × ℕ) (hist : History) (a : Attribution)
      → total none (samples_of k hist) ≡ some a
      → length hist < 2 ^ 32
      → a.count ≡ length (samples_of k hist)
  unfolding add
  total-none-count k hist a e h = counted (samples_of k hist) e (length-samples_of k hist)
    where
      counted :
          (ss : List PmSample)
          → total none ss ≡ some a
          → length ss ≤ length hist
          → a.count ≡ length ss
      counted [] e h' = absurd (none-some e)
      counted (s ∷ ss) e h' =
          let rest = total-count ss (add f default s) a e (omega arith) in omega (arith, rest)

  -- A card of a window: of one kernel on one GPU, averaged over all its samples, of which there are
  -- at least five.
  abbrev pub IsCardOf : History → KernelSol → Type 0
  IsCardOf hist c =
      (k : ℕ × ℕ) × (a : Attribution) × (total none (samples_of k hist) ≡ some a)
      × (min_samples_for_card ≤ length (samples_of k hist))
      × (c ≡ card f a k.1)

  finalize-some :
      (a : Attribution) (corr : ℕ) (c : KernelSol)
      → finalize f a corr ≡ some c
      → (min_samples_for_card ≤ a.count) × (c ≡ card f a corr)
  unfolding finalize
  finalize-some a corr c e = elim (Bool-cases (ltb a.count min_samples_for_card)) [
    | inl few ↦ absurd (none-some (rw few at e))
    | inr enough ↦ (ground arith, sym (some-inj (rw enough at e)))
  ]

  cards-All :
      (P : KernelSol → Type 0) (m : HostSampler)
      → Distinct m
      → ((k : ℕ × ℕ) (a : Attribution) (c : KernelSol)
          → lookup k m ≡ some a
          → finalize f a k.1 ≡ some c
          → P c)
      → All P (cards f m)
  unfolding cards
  cards-All P [] d h = tt
  cards-All P ((k, a) ∷ m) d h =
      let rest = cards-All P m d.1 (λ j b c found. h j b c (lookup-tail k j a b m d.0 found)) in
      elim (Option-cases (finalize f a k.1)) [
        | inl few ↦ rw (few, All) rest
        | inr (c, made) ↦ rw (made, All) (h k a c (lookup-head k a m) made, rest)
      ]

  cards-Member :
      (k : ℕ × ℕ) (a : Attribution) (c : KernelSol) (m : HostSampler)
      → lookup k m ≡ some a
      → finalize f a k.1 ≡ some c
      → Member c (cards f m)
  unfolding cards lookup
  cards-Member k a c [] found made = absurd (none-some found)
  cards-Member k a c ((j, b) ∷ m) found made = elim (Bool-cases (same_key j k)) [
    | inl same ↦
        let e : b ≡ a = some-inj (rw same at found) in
        let made' : finalize f b j.1 ≡ some c = rw ((pair_beq_iff j k).0 same, e) made in
        rw (made', Member) (inl refl)
    | inr other ↦
        let rest = cards-Member k a c m (rw other at found) made in
        elim (Option-cases (finalize f b j.1)) [
          | inl few ↦ rw (few, Member) rest
          | inr (c', made') ↦ rw (made', Member) (inr rest)
        ]
  ]

  -- Every card that a window of fewer than 2^32 samples ends with is that of a kernel on a GPU with at
  -- least five samples, averaged over exactly these, and the sampler is empty again.
  pub drain_cards_lem :
      (hist : History)
      → length hist < 2 ^ 32
      → let (hs, out) = drain_cards f (sample_all new hist) in (hs ≡ []) × All (IsCardOf hist) out
  unfolding drain_cards lookup
  drain_cards_lem hist h = (
    refl,
    cards-All (IsCardOf hist) (sample_all new hist) (sample_all-Distinct hist new tt)
        (λ k a c found made.
          let e = sym (lookup-sample_all k hist new) ∙ found in
          let (enough, is_card) = finalize-some a k.1 c made in
          (k, a, e, omega (arith, total-none-count k hist a e h), is_card)),
  )

  total-some-some :
      (a : Attribution) (ss : List PmSample) → (b : Attribution) × (total (some a) ss ≡ some b)
  total-some-some a [] = (a, refl)
  total-some-some a (s ∷ ss) = total-some-some (add f a s) ss

  total-some :
      (o : Option Attribution) (ss : List PmSample)
      → 0 < length ss
      → (a : Attribution) × (total o ss ≡ some a)
  total-some o [] h = absurd (omega arith)
  total-some none (s ∷ ss) h = total-some-some (add f default s) ss
  total-some (some a) ss h = total-some-some a ss

  finalize-enough :
      (a : Attribution) (corr : ℕ)
      → min_samples_for_card ≤ a.count
      → finalize f a corr ≡ some (card f a corr)
  unfolding finalize
  finalize-enough a corr h = rw (ge→ltb_false a.count min_samples_for_card h)

  -- No kernel with at least five samples in a window of fewer than 2^32 is left without its card.
  pub drain_cards_complete :
      (hist : History) (k : ℕ × ℕ)
      → length hist < 2 ^ 32
      → min_samples_for_card ≤ length (samples_of k hist)
      → (a : Attribution) × (total none (samples_of k hist) ≡ some a)
        × Member (card f a k.1) (drain_cards f (sample_all new hist)).1
  unfolding drain_cards lookup
  drain_cards_complete hist k h enough =
      let (a, e) = total-some none (samples_of k hist) (omega arith) in
      let count = total-none-count k hist a e h in
      (
        a,
        e,
        cards-Member k a (card f a k.1) (sample_all new hist) (lookup-sample_all k hist new ∙ e)
            (finalize-enough a k.1 (omega (arith, count))),
      )
