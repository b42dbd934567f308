-- ===== src/Server/Ingest.antt =====
-- crates/perfweave-server/src/ingest/grpc.rs: the `Ingest` stream. A batch's clock fits go to the skew
-- table, its metrics to the live ring, its kernels to the live subscribers, and all but the metrics
-- to the sink, which may refuse. One reading `now` of the host clock serves for a batch.
pub mod Split
pub mod Account
use perf_weave.Base.{
  ℕ, Bool, true, false, ◌||◌, Option, none, some, List, [], ◌∷◌, ◌++◌, ◌==◌, if◌then◌else◌, length,
}
use perf_weave.Base.Words.{add_u64}
use perf_weave.Proto.{
  Event, Payload, Batch, MetricFrame, MetricPoint, ClockOffset, Ack, Category, category_num,
}
use perf_weave.Server.FastRing.{FastRing, SeriesKey, Sample}
use perf_weave.Server.FastRing
use perf_weave.Server.Skew.{SkewTable, upsert, map_ts}

pub record LiveKernelEvent : Type 0 where
  pub ts_ns : ℕ
  pub duration_ns : ℕ
  pub node_id : ℕ
  pub gpu_id : ℕ
  pub correlation_id : ℕ
  pub name_id : ℕ
  pub server_now_ns : ℕ

-- What the handler shares with the rest of the server; `kernels` are the frames sent to the
-- subscribers, `sunk` the batches that the sink has taken, each in order.
pub record Collector : Type 0 where
  pub fast : FastRing
  pub skew : SkewTable
  pub kernels : List LiveKernelEvent
  pub sunk : List Batch

-- The first loop over `batch.offsets`.
unfoldable pub absorb_offsets : ℕ → SkewTable → List ClockOffset → SkewTable
absorb_offsets now t [] = t
absorb_offsets now t (o ∷ os) = absorb_offsets now (upsert now t o) os

unfoldable pub push_points : MetricFrame → ℕ → FastRing → List MetricPoint → FastRing
push_points frame ts f [] = f
push_points frame ts f (p ∷ ps) =
    push_points frame ts
      (FastRing.push f
        (record { node_id = frame.node_id; gpu_id = frame.gpu_id; metric_id = p.metric_id })
        (record { ts_ns = ts; value = p.value }))
      ps

-- The loop over `batch.metric_frames`.
unfoldable pub absorb_frames : SkewTable → FastRing → List MetricFrame → FastRing
unfolding push_points
absorb_frames t f [] = f
absorb_frames t f (frame ∷ frames) =
    let ts = map_ts t frame.node_id frame.gpu_id frame.ts_ns in
    absorb_frames t (push_points frame ts f frame.points) frames

abbrev pub has_category : Category → Event → Bool
has_category c e = e.category == category_num c

-- The correction of an event's time stamp.
unfoldable pub correct : SkewTable → Event → Event
correct t e =
    if has_category Category.kernel e
      || has_category Category.api_call e
      || has_category Category.memcpy e
    then record e { ts_ns = map_ts t e.node_id e.gpu_id e.ts_ns }
    else e

-- A metric event goes to the live ring, if its payload is a metric.
abbrev pub push_metric : FastRing → Event → Option Payload → FastRing
push_metric f e (some (Payload.metric m)) =
    FastRing.push f (record { node_id = e.node_id; gpu_id = e.gpu_id; metric_id = m.metric_id })
      (record { ts_ns = e.ts_ns; value = m.value })
push_metric f e _ = f

abbrev pub kernel_frame : ℕ → Event → LiveKernelEvent
kernel_frame now e = record {
  ts_ns = e.ts_ns;
  duration_ns = e.duration_ns;
  node_id = e.node_id;
  gpu_id = e.gpu_id;
  correlation_id = e.correlation_id;
  name_id = e.name_id;
  server_now_ns = now;
}

-- What the loop over `batch.events` changes.
pub record Routed : Type 0 where
  pub fast : FastRing
  pub kernels : List LiveKernelEvent
  pub persisted : List Event

-- The body of that loop.
unfoldable pub route_event : ℕ → SkewTable → Routed → Event → Routed
route_event now t r raw =
    let e = correct t raw in
    if has_category Category.metric e
    then record r { fast = push_metric r.fast e e.payload }
    else record r {
      kernels =
          if has_category Category.kernel e
          then r.kernels ++ kernel_frame now e ∷ []
          else r.kernels;
      persisted = r.persisted ++ e ∷ [];
    }

unfoldable pub route_events : ℕ → SkewTable → Routed → List Event → Routed
unfolding route_event
route_events now t r [] = r
route_events now t r (e ∷ es) = route_events now t (route_event now t r e) es

-- What the sink's queue answers to a batch.
pub data TrySend : Type 0 where
  sent full closed : TrySend

pub record Counts : Type 0 where
  pub accepted : ℕ
  pub dropped : ℕ

-- Steps 1 to 3 of the handler: the shared state after them, and the batch for the sink.
unfoldable pub split_batch : ℕ → Collector → Batch → Collector × Batch
unfolding absorb_offsets absorb_frames route_events
split_batch now c b =
    let skew = absorb_offsets now c.skew b.offsets in
    let fast = absorb_frames skew c.fast b.metric_frames in
    let r =
      route_events now skew (record { fast = fast; kernels = c.kernels; persisted = [] })
        b.events in
    (
      record c { fast = r.fast; skew = skew; kernels = r.kernels },
      record { events = r.persisted; strings = b.strings; offsets = b.offsets; metric_frames = [] },
    )

-- What the stream's task sends back.
pub data Reply : Type 0 where
  ack : Ack → Reply
  unavailable : Reply
  stream_error : Reply

-- One received item: a batch with the sink's answer, and whether the agent still reads its acks; or an
-- error of the transport.
pub data Inbound : Type 0 where
  batch : ℕ → Batch → TrySend → Bool → Inbound
  error : Inbound

-- The counters after the sink's answer.
abbrev pub count_rows : TrySend → ℕ → Counts → Counts
count_rows sent rows n = record n { accepted = add_u64 n.accepted rows }
count_rows full rows n = record n { dropped = add_u64 n.dropped rows }
count_rows closed rows n = n

-- The task of `ingest`: it ends with the stream, or with the first item after which it returns.
unfoldable pub ingest : Collector → Counts → List Inbound → Collector × List Reply
unfolding split_batch
ingest c n [] = (c, [])
ingest c n (error ∷ rest) = (c, stream_error ∷ [])
ingest c n (batch now b answer listening ∷ rest) =
    let (c', out) = split_batch now c b in
    let n' = count_rows answer (length b.events) n in
    let a = ack (record { accepted = n'.accepted; dropped = n'.dropped }) in
    let kept : Collector = elim answer [
      | sent ↦ record c' { sunk = c'.sunk ++ out ∷ [] }
      | _ ↦ c'
    ] in
    let more = ingest kept n' rest in
    elim answer [
      | closed ↦ (c', unavailable ∷ [])
      | _ ↦ if listening then (more.0, a ∷ more.1) else (kept, [])
    ]
