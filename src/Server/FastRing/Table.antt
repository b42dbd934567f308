-- ===== src/Server/FastRing/Table.antt =====
-- The whole `FastRing` (fast_ring.rs): pushes to many series, interleaved, and what `publish` shows.
use perf_weave.Base.{
  ℕ, ◌≡◌, refl, subst, ◌∙◌, Option, none, some, List, [], ◌∷◌, ◌++◌, false, inl, inr, arith,
  if◌then◌else◌, Bool-cases, Option-cases, is_empty,
}
use mathlib.Core.List.{append-nil, append_assoc}
use perf_weave.Base.Maps.{lookup, insert, lookup-insert}
use perf_weave.Server.FastRing.{
  SeriesKey, series_key_beq, series_key_beq_iff, series_key_eq, Sample, SeriesRing, SeriesSnapshot,
  FastRing, new, push, push_series, entry_or_new, publish, snapshot, snapshot_all, snapshot_series,
}
use perf_weave.Server.FastRing.Refine.{
  Tracks, new_series-Tracks, push_series-Tracks, history_snapshot, snapshot_series-of_Tracks,
}

-- The samples of one series, of all that were pushed.
abbrev pub of_key : SeriesKey → List (SeriesKey × Sample) → List Sample
of_key k [] = []
of_key k ((j, s) ∷ ops) = if series_key_beq j k then s ∷ of_key k ops else of_key k ops

abbrev pub push_all : FastRing → List (SeriesKey × Sample) → FastRing
push_all f [] = f
push_all f ((k, s) ∷ ops) = push_all (push f k s) ops

-- No key stands twice.
abbrev pub Distinct : List (SeriesKey × SeriesRing) → Type 0
Distinct [] = Unit
Distinct ((k, r) ∷ w) = (lookup k w ≡ none) × Distinct w

insert-Distinct :
    (k : SeriesKey) (r : SeriesRing) (w : List (SeriesKey × SeriesRing))
    → Distinct w
    → Distinct (insert k r w)
unfolding insert lookup
insert-Distinct k r [] d = ground arith
insert-Distinct k r ((j, q) ∷ w) d = ground (
  arith,
  insert-Distinct k r w d.1,
  lookup-insert k j r w,
  series_key_beq_iff j k,
  series_key_beq_iff k j,
)

-- The loop of `publish` leaves what is there, and adds each series of the writer.
lookup-snapshot_all :
    (k : SeriesKey) (w : List (SeriesKey × SeriesRing)) (out : List (SeriesKey × SeriesSnapshot))
    → Distinct w
    → lookup k (snapshot_all w out)
      ≡ elim (lookup k w) [ none ↦ lookup k out | some r ↦ some (snapshot_series r) ]
unfolding snapshot_all lookup
lookup-snapshot_all k [] out d = refl
lookup-snapshot_all k ((j, r) ∷ w) out d = ground (
  arith,
  lookup-snapshot_all k w (insert j (snapshot_series r) out) d.1,
  lookup-insert j k (snapshot_series r) out,
  series_key_beq_iff j k,
)

of_key-snoc :
    (k j : SeriesKey) (s : Sample) (ops : List (SeriesKey × Sample))
    → of_key k (ops ++ (j, s) ∷ [])
      ≡ (if series_key_beq j k then of_key k ops ++ s ∷ [] else of_key k ops)
of_key-snoc k j s [] = ground arith
of_key-snoc k j s ((i, t) ∷ ops) = ground (arith, of_key-snoc k j s ops)

-- A series is in the table exactly when it has samples, and then its ring tracks them.
abbrev pub Entry : Option SeriesRing → List Sample → Type 0
Entry none xs = xs ≡ []
Entry (some r) xs = Tracks r xs × (is_empty xs ≡ false)

pub record Mirrors (f : FastRing) (ops : List (SeriesKey × Sample)) : Type 0 where
  pub distinct : Distinct f.writer
  pub entries : (k : SeriesKey) → Entry (lookup k f.writer) (of_key k ops)

is_empty-snoc : (xs : List Sample) (s : Sample) → is_empty (xs ++ s ∷ []) ≡ false
is_empty-snoc [] s = refl
is_empty-snoc (x ∷ xs) s = refl

entry_or_new-Tracks :
    (k : SeriesKey) (w : List (SeriesKey × SeriesRing)) (xs : List Sample)
    → Entry (lookup k w) xs
    → Tracks (entry_or_new k w) xs
unfolding entry_or_new
entry_or_new-Tracks k w xs h = elim (Option-cases (lookup k w)) [
  | inl e ↦ let h' = rw e at h in rw (e, entry_or_new) (rw h' new_series-Tracks)
  | inr (r, e) ↦ let h' = rw e at h in rw (e, entry_or_new) h'.0
]

pub push-Mirrors :
    {f : FastRing} {ops : List (SeriesKey × Sample)} (j : SeriesKey) (s : Sample)
    → Mirrors f ops
    → Mirrors (push f j s) (ops ++ (j, s) ∷ [])
unfolding push
push-Mirrors {f} {ops} j s m = record {
  distinct = insert-Distinct j (push_series (entry_or_new j f.writer) s) f.writer m.distinct;
  entries = λ k.
      let pushed = push_series (entry_or_new j f.writer) s in
      let tracks =
        push_series-Tracks s (entry_or_new-Tracks j f.writer (of_key j ops) (m.entries j)) in
      elim (Bool-cases (series_key_beq j k)) [
        | inl same ↦
            rw (lookup-insert, of_key-snoc k j s ops, same)
              (subst
                (λ i.
                  Tracks pushed (of_key i ops ++ s ∷ [])
                  × (is_empty (of_key i ops ++ s ∷ []) ≡ false))
                ((series_key_beq_iff j k).0 same) (tracks, is_empty-snoc (of_key j ops) s))
        | inr other ↦ rw (lookup-insert, of_key-snoc k j s ops, other) (m.entries k)
      ];
}

push_all-Mirrors :
    (todo : List (SeriesKey × Sample)) {f : FastRing} {done : List (SeriesKey × Sample)}
    → Mirrors f done
    → Mirrors (push_all f todo) (done ++ todo)
push_all-Mirrors [] {f} {done} m = rw append-nil m
push_all-Mirrors ((k, s) ∷ todo) {f} {done} m =
    let step = push_all-Mirrors todo (push-Mirrors k s m) in rw append_assoc at step

pub new-Mirrors : Mirrors new []
unfolding lookup
new-Mirrors = record { distinct = tt; entries = λ k. refl }

-- What a publication shows of one series.
pub publish-lookup :
    {f : FastRing} {ops : List (SeriesKey × Sample)} (now : ℕ) (k : SeriesKey)
    → Mirrors f ops
    → lookup k (snapshot (publish now f)).series
      ≡ (if is_empty (of_key k ops) then none else some (history_snapshot (of_key k ops)))
unfolding publish lookup
publish-lookup {f} {ops} now k m =
    lookup-snapshot_all k f.writer [] m.distinct
    ∙ published (lookup k f.writer) (of_key k ops) (m.entries k)
  where
    published :
        (o : Option SeriesRing) (xs : List Sample)
        → Entry o xs
        → elim o as (λ _. Option SeriesSnapshot) [
          | none ↦ lookup k []
          | some r ↦ some (snapshot_series r)
        ]
          ≡ (if is_empty xs then none else some (history_snapshot xs))
    published none xs h = rw h refl
    published (some r) xs h = rw (h.1, snapshot_series-of_Tracks h.0)

-- After any interleaving of pushes, the published snapshot has a series exactly for the keys that
-- were pushed to, and shows for each the end of its own samples' history and of its decimated
-- history, whose first distance is measured from time 0. It carries the time of its publication.
pub publish_refines :
    (ops : List (SeriesKey × Sample)) (now : ℕ) (k : SeriesKey)
    → let shown = snapshot (publish now (push_all new ops)) in
      (lookup k shown.series
        ≡ (if is_empty (of_key k ops) then none else some (history_snapshot (of_key k ops))))
      × (shown.published_at_ns ≡ now)
unfolding publish
publish_refines ops now k = (publish-lookup now k (push_all-Mirrors ops new-Mirrors), refl)
