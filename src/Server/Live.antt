-- ===== src/Server/Live.antt =====
-- crates/perfweave-server/src/live.rs: the frame of the live metrics, built from the published
-- snapshot. `Plane` has the tasks around it, and `Streams` what a client is sent.
pub mod Frame
pub mod Plane
pub mod Latest
pub mod Streams
mod Tests
use perf_weave.Base.{
  ℕ, Bool, true, false, Option, none, some, List, [], ◌∷◌, ◌++◌, map, ltb, leb, ◌==◌, if◌then◌else◌,
  get_last?,
}
use perf_weave.Base.Words.{F64}
use perf_weave.Base.Maps.{lookup, insert, pair_eq}
use perf_weave.Server.FastRing.{SeriesKey, SeriesSnapshot, FastRing, snapshot}
use perf_weave.Server.SpikeDetect.{SpikeEvent}

pub record MetricPoint : Type 0 where
  pub metric_id : ℕ
  pub latest : F64

pub record GpuFrame : Type 0 where
  pub node_id : ℕ
  pub gpu_id : ℕ
  pub metrics : List MetricPoint

pub record MetricFrame : Type 0 where
  pub ts_ns : ℕ
  pub server_now_ns : ℕ
  pub gpus : List GpuFrame

pub data LiveFrame : Type 0 where
  metric : MetricFrame → LiveFrame
  spike : SpikeEvent → LiveFrame

abbrev pub latest_value : SeriesSnapshot → F64
latest_value v = elim (get_last? v.fast) [
  | some s ↦ s.value
  | none ↦ elim (get_last? v.slow) [ some s ↦ s.value | none ↦ 0 ]
]

abbrev pub point_of : SeriesKey → SeriesSnapshot → MetricPoint
point_of k v = record { metric_id = k.metric_id; latest = latest_value v }

-- `entry(..).or_default()`.
abbrev pub or_nil : Option (List MetricPoint) → List MetricPoint
or_nil none = []
or_nil (some ps) = ps

-- The loop that groups the series.
unfoldable pub group :
    List (SeriesKey × SeriesSnapshot)
    → List ((ℕ × ℕ) × List MetricPoint)
    → List ((ℕ × ℕ) × List MetricPoint)
unfolding insert lookup
group [] by_gpu = by_gpu
group ((k, v) ∷ series) by_gpu = group series (
    insert (k.node_id, k.gpu_id) (or_nil (lookup (k.node_id, k.gpu_id) by_gpu) ++ point_of k v ∷ [])
      by_gpu)

abbrev pub gpu_frame : (ℕ × ℕ) × List MetricPoint → GpuFrame
gpu_frame ((node_id, gpu_id), metrics) = record {
  node_id = node_id;
  gpu_id = gpu_id;
  metrics = metrics;
}

-- The order of the keys `(node_id, gpu_id)`.
abbrev pub key_le : GpuFrame → GpuFrame → Bool
key_le a b =
    if ltb a.node_id b.node_id
    then true
    else if a.node_id == b.node_id
    then leb a.gpu_id b.gpu_id
    else false

abbrev pub insert_by_key : GpuFrame → List GpuFrame → List GpuFrame
insert_by_key x [] = x ∷ []
insert_by_key x (y ∷ ys) =
    let rest = insert_by_key x ys in if key_le x y then x ∷ y ∷ ys else y ∷ rest

-- `sort_by_key`, which is stable.
abbrev pub sort_by_key : List GpuFrame → List GpuFrame
sort_by_key [] = []
sort_by_key (x ∷ xs) = insert_by_key x (sort_by_key xs)

-- `now` is the host clock's reading.
unfoldable pub build_metric_frame : ℕ → FastRing → MetricFrame
unfolding group
build_metric_frame now ring =
    let snap = snapshot ring in
    record {
      ts_ns = snap.published_at_ns;
      server_now_ns = now;
      gpus = sort_by_key (map gpu_frame (group snap.series []));
    }
