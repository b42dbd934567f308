-- ===== src/Server/Live/Frame.antt =====
-- What a live metric frame shows (live.rs).
use mathlib.Core.List.{append-nil, append_assoc}
use perf_weave.Base.{
  ℕ, ◌≡◌, refl, sym, ◌∙◌, ap, true, ◌&&◌, List, [], ◌∷◌, ◌++◌, map, arith, ◌==◌, if◌then◌else◌,
}
use perf_weave.Base.Maps.{lookup, insert, lookup-insert, pair_eq, pair_beq_iff}
use perf_weave.Server.FastRing.{SeriesKey, SeriesSnapshot, FastRing, snapshot}
use perf_weave.Server.Live.{
  MetricPoint, GpuFrame, point_of, or_nil, group, gpu_frame, key_le, insert_by_key, sort_by_key,
  build_metric_frame,
}

-- The points of the first frame of a GPU, none if it has no frame.
abbrev pub metrics_of : ℕ × ℕ → List GpuFrame → List MetricPoint
metrics_of k [] = []
metrics_of k (g ∷ gs) =
    if (g.node_id == k.0) && (g.gpu_id == k.1) then g.metrics else metrics_of k gs

-- The points of the series of a GPU, in the order of the snapshot.
abbrev pub points_of : ℕ × ℕ → List (SeriesKey × SeriesSnapshot) → List MetricPoint
points_of k [] = []
points_of k ((j, v) ∷ series) =
    if (j.node_id == k.0) && (j.gpu_id == k.1)
    then point_of j v ∷ points_of k series
    else points_of k series

group-points :
    (k : ℕ × ℕ) (series : List (SeriesKey × SeriesSnapshot)) (m : List ((ℕ × ℕ) × List MetricPoint))
    → or_nil (lookup k (group series m)) ≡ or_nil (lookup k m) ++ points_of k series
unfolding group
group-points k [] m = sym (append-nil (or_nil (lookup k m)))
group-points k ((j, v) ∷ series) m =
    let at : ℕ × ℕ = (j.node_id, j.gpu_id) in
    let ps = or_nil (lookup at m) ++ point_of j v ∷ [] in
    ground (
      arith,
      group-points k series (insert at ps m),
      lookup-insert at k ps m,
      pair_beq_iff at k,
      append_assoc (or_nil (lookup k m)) (point_of j v ∷ []) (points_of k series),
    )

metrics_of-map :
    (k : ℕ × ℕ) (m : List ((ℕ × ℕ) × List MetricPoint))
    → metrics_of k (map gpu_frame m) ≡ or_nil (lookup k m)
unfolding lookup
metrics_of-map k [] = refl
metrics_of-map k ((j, ps) ∷ m) = ground (arith, metrics_of-map k m)

metrics_of-insert_by_key :
    (k : ℕ × ℕ) (x : GpuFrame) (ys : List GpuFrame)
    → metrics_of k (insert_by_key x ys) ≡ metrics_of k (x ∷ ys)
metrics_of-insert_by_key k x [] = refl
metrics_of-insert_by_key k x (y ∷ ys) = ground (arith, metrics_of-insert_by_key k x ys)

metrics_of-sort_by_key :
    (k : ℕ × ℕ) (gs : List GpuFrame) → metrics_of k (sort_by_key gs) ≡ metrics_of k gs
metrics_of-sort_by_key k [] = refl
metrics_of-sort_by_key k (g ∷ gs) =
    metrics_of-insert_by_key k g (sort_by_key gs)
    ∙ ap (λ ps. if (g.node_id == k.0) && (g.gpu_id == k.1) then g.metrics else ps)
        (metrics_of-sort_by_key k gs)

-- For every GPU, the frame shows one point for each of its series in the published snapshot and no
-- other, with the latest value of the fast tail, or else of the slow tail; and it carries the time of
-- the snapshot and of its own making.
pub build_metric_frame_lem :
    (now : ℕ) (ring : FastRing) (k : ℕ × ℕ)
    → let frame = build_metric_frame now ring in
      (metrics_of k frame.gpus ≡ points_of k (snapshot ring).series)
      × (frame.ts_ns ≡ (snapshot ring).published_at_ns)
      × (frame.server_now_ns ≡ now)
unfolding build_metric_frame lookup
build_metric_frame_lem now ring k = (
  metrics_of-sort_by_key k (map gpu_frame (group (snapshot ring).series []))
      ∙ metrics_of-map k (group (snapshot ring).series [])
      ∙ group-points k (snapshot ring).series [],
  refl,
  refl,
)

-- In ascending order of the key, neighbour by neighbour.
abbrev pub IsSorted : List GpuFrame → Type 0
IsSorted [] = Unit
IsSorted (x ∷ []) = Unit
IsSorted (x ∷ y ∷ ys) = (key_le x y ≡ true) × IsSorted (y ∷ ys)

insert_by_key-IsSorted :
    (x : GpuFrame) (ys : List GpuFrame) → IsSorted ys → IsSorted (insert_by_key x ys)
insert_by_key-IsSorted x [] h = tt
insert_by_key-IsSorted x (y ∷ []) h = ground arith
insert_by_key-IsSorted x (y ∷ z ∷ zs) h =
    let rest = insert_by_key-IsSorted x (z ∷ zs) h.1 in ground arith

sort_by_key-IsSorted : (gs : List GpuFrame) → IsSorted (sort_by_key gs)
sort_by_key-IsSorted [] = tt
sort_by_key-IsSorted (g ∷ gs) = insert_by_key-IsSorted g (sort_by_key gs) (sort_by_key-IsSorted gs)

-- The GPUs of a frame stand in ascending order of node and GPU.
pub build_metric_frame-IsSorted :
    (now : ℕ) (ring : FastRing) → IsSorted (build_metric_frame now ring).gpus
unfolding build_metric_frame
build_metric_frame-IsSorted now ring =
    sort_by_key-IsSorted (map gpu_frame (group (snapshot ring).series []))
