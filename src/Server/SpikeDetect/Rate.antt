-- ===== src/Server/SpikeDetect/Rate.antt =====
-- How often a series fires (spike_detect.rs).
use perf_weave.Base.{
  ℕ, ◌+◌, ◌≤◌, ◌≡◌, refl, sym, ◌∙◌, subst, ◌⊎◌, inl, inr, false, Option, none, some, List, [], ◌∷◌,
  ◌++◌, arith, if◌then◌else◌, Bool-cases,
}
use perf_weave.Base.Maps.{lookup, insert, lookup-insert}
use perf_weave.Base.Floats.{Floats}
use perf_weave.Server.FastRing.{
  SeriesKey, series_key_beq, series_key_beq_iff, series_key_eq, FastRing,
}
use perf_weave.Server.SpikeDetect.{
  SpikeEvent, Detector, Work, too_soon, examine, examine_all, tick_once, work_of, run, stands_out,
  updated, latest_ts, median_and_mad,
}

abbrev pub key_of : SpikeEvent → SeriesKey
key_of ev = record { node_id = ev.node_id; gpu_id = ev.gpu_id; metric_id = ev.metric_id }

-- The times of one series' spikes.
abbrev pub times : SeriesKey → List SpikeEvent → List ℕ
times k [] = []
times k (ev ∷ evs) =
    let rest = times k evs in
    if series_key_beq (key_of ev) k then ev.bucket_start_ns ∷ rest else rest

-- Each time is at least ten seconds after the one before it; `prev` is the one before them all.
abbrev pub IsSpaced : Option ℕ → List ℕ → Type 0
IsSpaced prev [] = Unit
IsSpaced none (t ∷ ts) = IsSpaced (some t) ts
IsSpaced (some p) (t ∷ ts) = (p + 10_000_000_000 ≤ t) × IsSpaced (some t) ts

abbrev pub latest : Option ℕ → List ℕ → Option ℕ
latest prev [] = prev
latest prev (t ∷ ts) = latest (some t) ts

IsSpaced-append :
    (prev : Option ℕ) (xs ys : List ℕ)
    → IsSpaced prev xs
    → IsSpaced (latest prev xs) ys
    → IsSpaced prev (xs ++ ys)
IsSpaced-append prev [] ys h h' = h'
IsSpaced-append none (x ∷ xs) ys h h' = IsSpaced-append (some x) xs ys h h'
IsSpaced-append (some p) (x ∷ xs) ys h h' = (h.0, IsSpaced-append (some x) xs ys h.1 h')

latest-append :
    (prev : Option ℕ) (xs ys : List ℕ) → latest prev (xs ++ ys) ≡ latest (latest prev xs) ys
latest-append prev [] ys = refl
latest-append prev (x ∷ xs) ys = latest-append (some x) xs ys

times-append :
    (k : SeriesKey) (xs ys : List SpikeEvent) → times k (xs ++ ys) ≡ times k xs ++ times k ys
times-append k [] ys = refl
times-append k (x ∷ xs) ys = ground (arith, times-append k xs ys)

abbrev Fired : Type 0
Fired = List (SeriesKey × ℕ)

-- The spikes of a call, seen from one series: spaced, and remembered.
abbrev Keeps : SeriesKey → Fired → Fired → List SpikeEvent → Type 0
Keeps k m m' evs =
    IsSpaced (lookup k m) (times k evs) × (lookup k m' ≡ latest (lookup k m) (times k evs))

Keeps-append :
    (k : SeriesKey) (m m' m'' : Fired) (xs ys : List SpikeEvent)
    → Keeps k m m' xs
    → Keeps k m' m'' ys
    → Keeps k m m'' (xs ++ ys)
Keeps-append k m m' m'' xs ys (spaced, kept) (spaced', kept') = rw (times-append k xs ys) (
  IsSpaced-append (lookup k m) (times k xs) (times k ys) spaced (rw kept at spaced'),
  kept' ∙ rw (kept, latest-append) refl,
)

too_soon-IsSpaced : (prev : Option ℕ) (t : ℕ) → too_soon prev t ≡ false → IsSpaced prev (t ∷ [])
too_soon-IsSpaced none t h = tt
too_soon-IsSpaced (some p) t h = (ground arith, tt)

fired-Keeps :
    (k : SeriesKey) (m : Fired) (ev : SpikeEvent)
    → too_soon (lookup (key_of ev) m) ev.bucket_start_ns ≡ false
    → Keeps k m (insert (key_of ev) ev.bucket_start_ns m) (ev ∷ [])
fired-Keeps k m ev late = elim (Bool-cases (series_key_beq (key_of ev) k)) [
  | inl same ↦
      let e : key_of ev ≡ k = (series_key_beq_iff (key_of ev) k).0 same in
      rw (same, lookup-insert (key_of ev) k ev.bucket_start_ns m, same)
        (
          too_soon-IsSpaced (lookup k m) ev.bucket_start_ns
              (subst (λ i. too_soon (lookup i m) ev.bucket_start_ns ≡ false) e late),
          refl,
        )
  | inr other ↦ rw (other, lookup-insert (key_of ev) k ev.bucket_start_ns m, other) (tt, refl)
]

abbrev to_events : Option SpikeEvent → List SpikeEvent
to_events none = []
to_events (some ev) = ev ∷ []

module _ (f : Floats) where
  -- One entry of the work: nothing fires, or the series does, after the wait, and is remembered.
  examine-cases :
      (d : Detector) (w : Work)
      → let (d', fired) = examine f d w in
        ((fired ≡ none) × (d'.last_fired_ts ≡ d.last_fired_ts))
        ⊎ ((ev : SpikeEvent) × (fired ≡ some ev)
            × (key_of ev ≡ w.key)
            × (too_soon (lookup w.key d.last_fired_ts) ev.bucket_start_ns ≡ false)
            × (d'.last_fired_ts ≡ insert w.key ev.bucket_start_ns d.last_fired_ts))
  unfolding examine
  examine-cases d w =
      let (median, mad) = median_and_mad f w.snap in
      let z_mad = f.div (f.abs (f.sub w.value median)) mad in
      elim (Bool-cases (stands_out f (updated f d w) w.value median mad z_mad)) [
        | inr calm ↦ rw calm (inl (refl, refl))
        | inl odd ↦ elim (Bool-cases (too_soon (lookup w.key d.last_fired_ts) (latest_ts f w))) [
          | inl soon ↦ rw (odd, soon) (inl (refl, refl))
          | inr late ↦ rw (odd, late) (inr (_, refl, refl, late, refl))
        ]
      ]

  examine-Keeps :
      (k : SeriesKey) (d : Detector) (w : Work)
      → let (d', fired) = examine f d w in
        Keeps k d.last_fired_ts d'.last_fired_ts (to_events fired)
  examine-Keeps k d w = elim (examine-cases d w) [
    | inl (calm, same) ↦ rw (calm, same) (tt, refl)
    | inr (ev, fired, named, late, kept) ↦
        rw (fired, kept, ← named)
          (fired-Keeps k d.last_fired_ts ev (
            subst (λ i. too_soon (lookup i d.last_fired_ts) ev.bucket_start_ns ≡ false) (sym named)
              late))
  ]

  to_events-append :
      (o : Option SpikeEvent) (evs : List SpikeEvent)
      → elim o as (λ _. List SpikeEvent) [ none ↦ evs | some ev ↦ ev ∷ evs ] ≡ to_events o ++ evs
  to_events-append none evs = refl
  to_events-append (some ev) evs = refl

  examine_all-Keeps :
      (k : SeriesKey) (ws : List Work) (d : Detector)
      → let (d', fired) = examine_all f d ws in Keeps k d.last_fired_ts d'.last_fired_ts fired
  unfolding examine_all
  examine_all-Keeps k [] d = (tt, refl)
  examine_all-Keeps k (w ∷ ws) d =
      let d' = (examine f d w).0 in
      let (d'', more) = examine_all f d' ws in
      rw to_events-append (
        Keeps-append k d.last_fired_ts d'.last_fired_ts d''.last_fired_ts
          (to_events (examine f d w).1) more (examine-Keeps k d w) (examine_all-Keeps k ws d'))

  run-Keeps :
      (k : SeriesKey) (rings : List FastRing) (d : Detector)
      → IsSpaced (lookup k d.last_fired_ts) (times k (run f d rings))
  unfolding run tick_once
  run-Keeps k [] d = tt
  run-Keeps k (ring ∷ rings) d =
      let (d', fired) = tick_once f d ring in
      let (spaced, kept) = examine_all-Keeps k (work_of ring) d in
      let later = run-Keeps k rings d' in
      rw (times-append k fired (run f d' rings)) (
        IsSpaced-append (lookup k d.last_fired_ts) (times k fired) (times k (run f d' rings)) spaced
          (rw kept at later))

  -- Whatever the live ring shows at each tick, and however floats round, two spikes of one series are
  -- at least ten seconds apart, by the times of their samples, and in order.
  pub run-IsSpaced :
      (rings : List FastRing) (k : SeriesKey)
      → IsSpaced none (times k (run f (record { welford = []; last_fired_ts = [] }) rings))
  unfolding lookup
  run-IsSpaced rings k = run-Keeps k rings (record { welford = []; last_fired_ts = [] })
