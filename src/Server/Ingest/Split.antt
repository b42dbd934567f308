-- ===== src/Server/Ingest/Split.antt =====
-- Where the parts of a batch go (ingest/grpc.rs): the split that the handler's loops compute, as one
-- equation for each destination.
use perf_weave.Base.{
  ℕ, ◌≡◌, refl, sym, ◌∙◌, ap, true, false, not, Bool-cases, inl, inr, none, some, Option, List, [],
  ◌∷◌, ◌++◌, map, filter, arith, if◌then◌else◌,
}
use mathlib.Core.List.{append-nil, append_assoc}
use perf_weave.Proto.{Event, Payload, Batch, MetricFrame, MetricPoint, Category}
use perf_weave.Server.FastRing
use perf_weave.Server.FastRing.{FastRing, SeriesKey, Sample}
use perf_weave.Server.FastRing.Table.{push_all}
use perf_weave.Server.Skew.{SkewTable, map_ts}
use perf_weave.Server.Ingest.{
  Collector, Routed, absorb_offsets, push_points, absorb_frames, has_category, correct, push_metric,
  kernel_frame, route_event, route_events, split_batch,
}

-- The samples of the metric frames, with corrected time stamps.
abbrev pub point_samples : MetricFrame → ℕ → List MetricPoint → List (SeriesKey × Sample)
point_samples frame ts [] = []
point_samples frame ts (p ∷ ps) =
    (
      record { node_id = frame.node_id; gpu_id = frame.gpu_id; metric_id = p.metric_id },
      record { ts_ns = ts; value = p.value },
    )
    ∷ point_samples frame ts ps

abbrev pub frame_samples : SkewTable → List MetricFrame → List (SeriesKey × Sample)
frame_samples t [] = []
frame_samples t (f ∷ fs) =
    point_samples f (map_ts t f.node_id f.gpu_id f.ts_ns) f.points ++ frame_samples t fs

-- The sample of a metric event, if its payload is one; its time stamp is not corrected.
abbrev pub payload_samples : Event → Option Payload → List (SeriesKey × Sample)
payload_samples e (some (Payload.metric m)) =
    (
      record { node_id = e.node_id; gpu_id = e.gpu_id; metric_id = m.metric_id },
      record { ts_ns = e.ts_ns; value = m.value },
    )
    ∷ []
payload_samples e _ = []

abbrev pub event_samples : List Event → List (SeriesKey × Sample)
event_samples [] = []
event_samples (e ∷ es) =
    (if has_category Category.metric e then payload_samples e e.payload else []) ++ event_samples es

abbrev pub activity : List Event → List Event
activity = filter (λ e. not (has_category Category.metric e))

push_all-append :
    (xs ys : List (SeriesKey × Sample)) (f : FastRing)
    → push_all f (xs ++ ys) ≡ push_all (push_all f xs) ys
push_all-append [] ys f = refl
push_all-append ((k, s) ∷ xs) ys f = push_all-append xs ys (FastRing.push f k s)

push_points-push_all :
    (frame : MetricFrame) (ts : ℕ) (ps : List MetricPoint) (f : FastRing)
    → push_points frame ts f ps ≡ push_all f (point_samples frame ts ps)
unfolding push_points
push_points-push_all frame ts [] f = refl
push_points-push_all frame ts (p ∷ ps) f = push_points-push_all frame ts ps (
    FastRing.push f
      (record { node_id = frame.node_id; gpu_id = frame.gpu_id; metric_id = p.metric_id })
      (record { ts_ns = ts; value = p.value }))

absorb_frames-push_all :
    (t : SkewTable) (f : FastRing) (frames : List MetricFrame)
    → absorb_frames t f frames ≡ push_all f (frame_samples t frames)
unfolding absorb_frames
absorb_frames-push_all t f [] = refl
absorb_frames-push_all t f (x ∷ xs) =
    let ts = map_ts t x.node_id x.gpu_id x.ts_ns in
    absorb_frames-push_all t (push_points x ts f x.points) xs
    ∙ ap (λ g. push_all g (frame_samples t xs)) (push_points-push_all x ts x.points f)
    ∙ sym (push_all-append (point_samples x ts x.points) (frame_samples t xs) f)

-- What the loop over the events leaves behind.
abbrev routed : ℕ → SkewTable → Routed → List Event → Routed
routed now t r es = record {
  fast = push_all r.fast (event_samples es);
  kernels =
      r.kernels
      ++ map (λ e. kernel_frame now (correct t e)) (filter (has_category Category.kernel) es);
  persisted = r.persisted ++ map (correct t) (activity es);
}

correct-category : (t : SkewTable) (e : Event) → (correct t e).category ≡ e.category
unfolding correct
correct-category t e = ground arith

correct-metric :
    (t : SkewTable) (e : Event) → has_category Category.metric e ≡ true → correct t e ≡ e
unfolding correct
correct-metric t e m = ground arith

push_metric-push_all :
    (f : FastRing) (e : Event) (p : Option Payload)
    → push_metric f e p ≡ push_all f (payload_samples e p)
push_metric-push_all f e none = refl
push_metric-push_all f e (some (Payload.metric m)) = refl
push_metric-push_all f e (some p) = refl

route_event-routed :
    (now : ℕ) (t : SkewTable) (r : Routed) (e : Event)
    → route_event now t r e ≡ routed now t r (e ∷ [])
unfolding route_event
route_event-routed now t r e = elim (Bool-cases (has_category Category.metric e)) [
  | inl m ↦
      let not_kernel : has_category Category.kernel e ≡ false = ground arith in
      rw (correct-metric t e m, m, not_kernel) (simp (append-nil, push_metric-push_all))
  | inr other ↦
      let other' : has_category Category.metric (correct t e) ≡ false =
        rw (correct-category t e) other in
      let same : has_category Category.kernel (correct t e) ≡ has_category Category.kernel e =
        rw (correct-category t e) in
      rw (other', other, same)
        (elim (Bool-cases (has_category Category.kernel e)) [
          | inl kernel ↦ rw kernel
          | inr neither ↦ rw neither (simp append-nil)
        ])
]

routed-cons :
    (now : ℕ) (t : SkewTable) (r : Routed) (e : Event) (es : List Event)
    → routed now t (routed now t r (e ∷ [])) es ≡ routed now t r (e ∷ es)
routed-cons now t r e es = elim (Bool-cases (has_category Category.metric e)) [
  | inl m ↦
      let not_kernel : has_category Category.kernel e ≡ false = ground arith in
      rw (m, not_kernel) (simp (append-nil, push_all-append))
  | inr other ↦ rw other (elim (Bool-cases (has_category Category.kernel e)) [
    | inl kernel ↦ rw kernel (simp (append-nil, append_assoc))
    | inr neither ↦ rw neither (simp (append-nil, append_assoc))
  ])
]

route_events-routed :
    (now : ℕ) (t : SkewTable) (es : List Event) (r : Routed)
    → route_events now t r es ≡ routed now t r es
unfolding route_events
route_events-routed now t [] r = simp append-nil
route_events-routed now t (e ∷ es) r =
    ap (λ r'. route_events now t r' es) (route_event-routed now t r e)
    ∙ route_events-routed now t es (routed now t r (e ∷ []))
    ∙ routed-cons now t r e es

-- The three destinations of a batch. The live ring takes the points of the metric frames and then
-- the metric events, in order, as pushes; the subscribers get each kernel event; the sink gets exactly
-- the other events in their order, and no metric at all. Time stamps of frames, kernels, API calls and
-- copies are corrected by the table that already holds this batch's fits.
pub split_batch_lem :
    (now : ℕ) (c : Collector) (b : Batch)
    → let skew = absorb_offsets now c.skew b.offsets in
      let (c', out) = split_batch now c b in
      (c'.skew ≡ skew)
      × (c'.fast ≡ push_all c.fast (frame_samples skew b.metric_frames ++ event_samples b.events))
      × (c'.kernels
          ≡ c.kernels
            ++ map
                (λ e. kernel_frame now (correct skew e))
                (filter (has_category Category.kernel) b.events))
      × (c'.sunk ≡ c.sunk)
      × (out.events ≡ map (correct skew) (activity b.events))
      × (out.strings ≡ b.strings)
      × (out.offsets ≡ b.offsets)
      × (out.metric_frames ≡ [])
unfolding split_batch
split_batch_lem now c b =
    let skew = absorb_offsets now c.skew b.offsets in
    let fast = absorb_frames skew c.fast b.metric_frames in
    let e =
      route_events-routed now skew b.events
        (record { fast = fast; kernels = c.kernels; persisted = [] }) in
    (
      refl,
      ap (λ r. r.fast) e
          ∙ ap (λ f. push_all f (event_samples b.events))
              (absorb_frames-push_all skew c.fast b.metric_frames)
          ∙ sym (
              push_all-append (frame_samples skew b.metric_frames) (event_samples b.events) c.fast),
      ap (λ r. r.kernels) e,
      refl,
      ap (λ r. r.persisted) e,
      refl,
      refl,
      refl,
    )
