-- ===== src/Server/Live/Latest.antt =====
-- What a tick of the live metrics shows of what was pushed (live.rs with fast_ring.rs).
use perf_weave.Base.{
  ℕ, zero, suc, ◌-◌, ◌<◌, ◌≡◌, refl, sym, ap, subst, ◌∙◌, Bool, true, false, ◌&&◌, not, Option,
  none, some, List, [], ◌∷◌, ◌++◌, arith, ◌==◌, if◌then◌else◌, is_empty, get_last?, length, drop,
}
use perf_weave.Base.Words.{F64}
use perf_weave.Base.Maps.{lookup}
use perf_weave.Server.FastRing.{
  SeriesKey, series_key_eq, fast_capacity, Sample, SeriesSnapshot, snapshot, push, publish,
}
use perf_weave.Server.FastRing.Refine.{history_snapshot}
use perf_weave.Server.FastRing.Table.{of_key, Mirrors, new-Mirrors, push-Mirrors, publish-lookup}
use perf_weave.Server.Live.{MetricPoint, LiveFrame, latest_value, build_metric_frame}
use perf_weave.Server.Live.Frame.{metrics_of, points_of, build_metric_frame_lem}
use perf_weave.Server.Live.Plane.{
  Plane, Step, pushed, spike, publisher_tick, publisher_told, ticker_tick, ticker_told, started,
  metric_tick, turn, run,
}

-- The value of the first point of a metric.
abbrev pub value_of : ℕ → List MetricPoint → Option F64
value_of m [] = none
value_of m (p ∷ ps) = if p.metric_id == m then some p.latest else value_of m ps

abbrev pub last_value : List Sample → Option F64
last_value xs = elim (get_last? xs) [ none ↦ none | some s ↦ some s.value ]

abbrev pub shown_value : Option SeriesSnapshot → Option F64
shown_value none = none
shown_value (some v) = some (latest_value v)

value_of-points_of :
    (key : SeriesKey) (series : List (SeriesKey × SeriesSnapshot))
    → value_of key.metric_id (points_of (key.node_id, key.gpu_id) series)
      ≡ shown_value (lookup key series)
unfolding lookup
value_of-points_of key [] = refl
value_of-points_of key ((j, v) ∷ series) = ground (arith, value_of-points_of key series)

get_last?-drop : (k : ℕ) (xs : List Sample) → k < length xs → get_last? (drop k xs) ≡ get_last? xs
get_last?-drop zero xs h = refl
get_last?-drop (suc k) [] h = absurd (omega arith)
get_last?-drop (suc k) (x ∷ []) h = absurd (omega arith)
get_last?-drop (suc k) (x ∷ y ∷ xs) h = get_last?-drop k (y ∷ xs) (omega arith)

get_last?-cons : (x : Sample) (xs : List Sample) → (s : Sample) × (get_last? (x ∷ xs) ≡ some s)
get_last?-cons x [] = (x, refl)
get_last?-cons x (y ∷ xs) = get_last?-cons y xs

latest_value-fast :
    (v : SeriesSnapshot) (s : Sample) → get_last? v.fast ≡ some s → latest_value v ≡ s.value
latest_value-fast v s h = rw (h, latest_value) refl

last_value-history :
    (xs : List Sample)
    → shown_value (if is_empty xs then none else some (history_snapshot xs)) ≡ last_value xs
unfolding history_snapshot
last_value-history [] = refl
last_value-history (x ∷ xs) =
    let (s, last) = get_last?-cons x xs in
    let kept = get_last?-drop (length (x ∷ xs) - fast_capacity) (x ∷ xs) (omega arith) in
    rw (last, last_value) (ap some (latest_value-fast (history_snapshot (x ∷ xs)) s (kept ∙ last)))

-- The pushes that a reader sees: those before the last publication; `going` tells whether the publisher
-- goes on, and `before` are all pushes so far.
unfoldable pub visible :
    Bool
    → List (SeriesKey × Sample)
    → List (SeriesKey × Sample)
    → List Step
    → List (SeriesKey × Sample)
visible going before seen [] = seen
visible going before seen (pushed k s ∷ ts) = visible going (before ++ (k, s) ∷ []) seen ts
visible going before seen (spike e ∷ ts) = visible going before seen ts
visible going before seen (publisher_tick now ∷ ts) =
    visible going before (if going then before else seen) ts
visible going before seen (publisher_told flag ∷ ts) = visible (going && not flag) before seen ts
visible going before seen (ticker_tick now ∷ ts) = visible going before seen ts
visible going before seen (ticker_told flag ∷ ts) = visible going before seen ts

-- The plane after some steps: the ring has taken all pushes, and shows those that are visible.
record Shows (p : Plane) (going : Bool) (before seen : List (SeriesKey × Sample)) : Type 0 where
  loop : p.publishing ≡ going
  taken : Mirrors p.ring before
  shown :
      (k : SeriesKey)
      → lookup k (snapshot p.ring).series
        ≡ (if is_empty (of_key k seen) then none else some (history_snapshot (of_key k seen)))

publisher_tick-Shows :
    (now : ℕ) {p : Plane} {going : Bool} {before seen : List (SeriesKey × Sample)}
    → Shows p going before seen
    → Shows (turn p (publisher_tick now)) going before (if going then before else seen)
unfolding turn publish
publisher_tick-Shows now {p} {going} {before} {seen} s =
    subst
      (λ b.
        Shows (if b then record p { ring = publish now p.ring } else p) going before
          (if going then before else seen))
      (sym s.loop) (go going s)
  where
    go :
        (b : Bool)
        → Shows p b before seen
        → Shows
            (if b then record p { ring = publish now p.ring } else p)
            b
            before
            (if b then before else seen)
    go true s = record {
      loop = s.loop;
      taken = record { distinct = s.taken.distinct; entries = s.taken.entries };
      shown = λ k. publish-lookup now k s.taken;
    }
    go false s = s

publisher_told-Shows :
    (flag : Bool) {p : Plane} {going : Bool} {before seen : List (SeriesKey × Sample)}
    → Shows p going before seen
    → Shows (turn p (publisher_told flag)) (going && not flag) before seen
unfolding turn
publisher_told-Shows true s = record { loop = ground arith; taken = s.taken; shown = s.shown }
publisher_told-Shows false s = record {
  loop = ground (arith, s.loop);
  taken = s.taken;
  shown = s.shown;
}

ticker-Shows :
    (now : ℕ) (flag : Bool) {p : Plane} {going : Bool} {before seen : List (SeriesKey × Sample)}
    → Shows p going before seen
    → Shows (turn p (ticker_tick now)) going before seen
      × Shows (turn p (ticker_told flag)) going before seen
unfolding turn metric_tick
ticker-Shows now flag {p} {going} {before} {seen} s = (tick p.ticking, told flag)
  where
    tick : (b : Bool) → Shows (if b then metric_tick now p else p) going before seen
    tick true = record { loop = s.loop; taken = s.taken; shown = s.shown }
    tick false = s

    told : (b : Bool) → Shows (if b then record p { ticking = false } else p) going before seen
    told true = record { loop = s.loop; taken = s.taken; shown = s.shown }
    told false = s

run-Shows :
    (ts : List Step) {p : Plane} {going : Bool} {before seen : List (SeriesKey × Sample)}
    → Shows p going before seen
    → (k : SeriesKey)
    → lookup k (snapshot (run p ts).ring).series ≡ (
        let now_seen = of_key k (visible going before seen ts) in
        if is_empty now_seen then none else some (history_snapshot now_seen))
unfolding run visible turn push publish
run-Shows [] s k = s.shown k
run-Shows (pushed j x ∷ ts) s k =
    run-Shows ts (record { loop = s.loop; taken = push-Mirrors j x s.taken; shown = s.shown }) k
run-Shows (spike e ∷ ts) s k =
    run-Shows ts (record { loop = s.loop; taken = s.taken; shown = s.shown }) k
run-Shows (publisher_tick now ∷ ts) s k = run-Shows ts (publisher_tick-Shows now s) k
run-Shows (publisher_told flag ∷ ts) s k = run-Shows ts (publisher_told-Shows flag s) k
run-Shows (ticker_tick now ∷ ts) s k = run-Shows ts (ticker-Shows now false s).0 k
run-Shows (ticker_told flag ∷ ts) s k = run-Shows ts (ticker-Shows 0 flag s).1 k

started-Shows : Shows started true [] []
unfolding lookup
started-Shows = record { loop = refl; taken = new-Mirrors; shown = λ k. refl }

-- After any steps of the ingest stream, the publisher, the detector and the ticker, each in its own time, a
-- tick of the ticker that still runs sends one frame, and what the frame tells of a metric of a GPU is the
-- value pushed last before the last publication, and nothing if there was none.
pub tick-Latest :
    (ts : List Step) (now : ℕ) (key : SeriesKey)
    → (run started ts).ticking ≡ true
    → let p = run started ts in
      let frame = build_metric_frame now p.ring in
      ((turn p (ticker_tick now)).sent ≡ p.sent ++ LiveFrame.metric frame ∷ [])
      × (value_of key.metric_id (metrics_of (key.node_id, key.gpu_id) frame.gpus)
          ≡ last_value (of_key key (visible true [] [] ts)))
unfolding turn metric_tick
tick-Latest ts now key ticking =
    let p = run started ts in
    let shown = build_metric_frame_lem now p.ring (key.node_id, key.gpu_id) in
    (
      rw ticking refl,
      ap (value_of key.metric_id) shown.0
          ∙ value_of-points_of key (snapshot p.ring).series
          ∙ ap shown_value (run-Shows ts started-Shows key)
          ∙ last_value-history (of_key key (visible true [] [] ts)),
    )
