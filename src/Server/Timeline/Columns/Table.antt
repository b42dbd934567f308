-- ===== src/Server/Timeline/Columns/Table.antt =====
-- The columns hold the rows, and fit their schemas.
use perf_weave.Base.{ℕ, ◌≡◌, refl, List, [], ◌∷◌, ◌++◌, map, length, length-map}
use mathlib.Core.List.{append-nil, append_assoc}
use perf_weave.Server.Timeline.Arrow.{
  DataType, Field, Column, u64_array, u32_array, u8_array, f64_array, uint64, uint32, uint8,
  float64,
}
use perf_weave.Server.Timeline.Columns.Activity.{
  ActivityTileRow, ActivityTileRows, no_activity_rows, push_activity, fill_activity,
  activity_schema, activity_columns,
}
use perf_weave.Server.Timeline.Columns.Metric.{
  MetricTileRow, MetricTileRows, no_metric_rows, push_metric, fill_metric, metric_schema,
  metric_columns,
}
use perf_weave.Server.Timeline.Columns.Raw.{
  RawEventDbRow, RawEventRows, no_raw_rows, push_raw, fill_raw, raw_schema, raw_columns,
}

abbrev pub column_type : Column → DataType
column_type (u64_array xs) = uint64
column_type (u32_array xs) = uint32
column_type (u8_array xs) = uint8
column_type (f64_array xs) = float64

abbrev pub column_length : Column → ℕ
column_length (u64_array xs) = length xs
column_length (u32_array xs) = length xs
column_length (u8_array xs) = length xs
column_length (f64_array xs) = length xs

-- The columns have the types of the schema's fields, one for one, and `n` rows each.
abbrev pub Fits : ℕ → List Field → List Column → Type 0
Fits n [] [] = Unit
Fits n [] (c ∷ cs) = ⊥
Fits n (f ∷ fs) [] = ⊥
Fits n (f ∷ fs) (c ∷ cs) = (f.data_type ≡ column_type c) × (column_length c ≡ n) × Fits n fs cs

fill_activity-append :
    (out : ActivityTileRows) (rows : List ActivityTileRow)
    → fill_activity out rows ≡ record {
      bucket_start_ns = out.bucket_start_ns ++ map (λ r. r.bucket_start_ns) rows;
      bucket_width_ns = out.bucket_width_ns ++ map (λ r. r.bucket_width_ns) rows;
      gpu_id = out.gpu_id ++ map (λ r. r.gpu_id) rows;
      category = out.category ++ map (λ r. r.category) rows;
      count = out.count ++ map (λ r. r.count) rows;
      sum_duration_ns = out.sum_duration_ns ++ map (λ r. r.sum_duration_ns) rows;
      max_duration_ns = out.max_duration_ns ++ map (λ r. r.max_duration_ns) rows;
      top_name_id = out.top_name_id ++ map (λ r. r.top_name_id) rows;
    }
unfolding fill_activity
fill_activity-append out [] = simp (append-nil)
fill_activity-append out (r ∷ rs) =
    simp (fill_activity-append (push_activity out r) rs, append_assoc)

pub activity_columns-fill :
    (rows : List ActivityTileRow)
    → activity_columns (fill_activity no_activity_rows rows)
      ≡ u64_array (map (λ r. r.bucket_start_ns) rows)
        ∷ u64_array (map (λ r. r.bucket_width_ns) rows)
        ∷ u8_array (map (λ r. r.gpu_id) rows)
        ∷ u8_array (map (λ r. r.category) rows)
        ∷ u64_array (map (λ r. r.count) rows)
        ∷ u64_array (map (λ r. r.sum_duration_ns) rows)
        ∷ u64_array (map (λ r. r.max_duration_ns) rows)
        ∷ u64_array (map (λ r. r.top_name_id) rows)
        ∷ []
activity_columns-fill rows = rw (fill_activity-append no_activity_rows rows) refl

pub fill_activity-Fits :
    (rows : List ActivityTileRow)
    → Fits (length rows) activity_schema (activity_columns (fill_activity no_activity_rows rows))
fill_activity-Fits rows = rw (fill_activity-append no_activity_rows rows) (
  refl,
  length-map (λ r. r.bucket_start_ns) rows,
  (
    refl,
    length-map (λ r. r.bucket_width_ns) rows,
    (
      refl,
      length-map (λ r. r.gpu_id) rows,
      (
        refl,
        length-map (λ r. r.category) rows,
        (
          refl,
          length-map (λ r. r.count) rows,
          (
            refl,
            length-map (λ r. r.sum_duration_ns) rows,
            (
              refl,
              length-map (λ r. r.max_duration_ns) rows,
              (refl, length-map (λ r. r.top_name_id) rows, tt),
            ),
          ),
        ),
      ),
    ),
  ),
)

fill_metric-append :
    (out : MetricTileRows) (rows : List MetricTileRow)
    → fill_metric out rows ≡ record {
      bucket_start_ns = out.bucket_start_ns ++ map (λ r. r.bucket_start_ns) rows;
      bucket_width_ns = out.bucket_width_ns ++ map (λ r. r.bucket_width_ns) rows;
      gpu_id = out.gpu_id ++ map (λ r. r.gpu_id) rows;
      metric_id = out.metric_id ++ map (λ r. r.metric_id) rows;
      p50 = out.p50 ++ map (λ r. r.p50) rows;
      p99 = out.p99 ++ map (λ r. r.p99) rows;
      min = out.min ++ map (λ r. r.min) rows;
      max = out.max ++ map (λ r. r.max) rows;
    }
unfolding fill_metric
fill_metric-append out [] = simp (append-nil)
fill_metric-append out (r ∷ rs) = simp (fill_metric-append (push_metric out r) rs, append_assoc)

pub metric_columns-fill :
    (rows : List MetricTileRow)
    → metric_columns (fill_metric no_metric_rows rows)
      ≡ u64_array (map (λ r. r.bucket_start_ns) rows)
        ∷ u64_array (map (λ r. r.bucket_width_ns) rows)
        ∷ u8_array (map (λ r. r.gpu_id) rows)
        ∷ u64_array (map (λ r. r.metric_id) rows)
        ∷ f64_array (map (λ r. r.p50) rows)
        ∷ f64_array (map (λ r. r.p99) rows)
        ∷ f64_array (map (λ r. r.min) rows)
        ∷ f64_array (map (λ r. r.max) rows)
        ∷ []
metric_columns-fill rows = rw (fill_metric-append no_metric_rows rows) refl

pub fill_metric-Fits :
    (rows : List MetricTileRow)
    → Fits (length rows) metric_schema (metric_columns (fill_metric no_metric_rows rows))
fill_metric-Fits rows = rw (fill_metric-append no_metric_rows rows) (
  refl,
  length-map (λ r. r.bucket_start_ns) rows,
  (
    refl,
    length-map (λ r. r.bucket_width_ns) rows,
    (
      refl,
      length-map (λ r. r.gpu_id) rows,
      (
        refl,
        length-map (λ r. r.metric_id) rows,
        (
          refl,
          length-map (λ r. r.p50) rows,
          (
            refl,
            length-map (λ r. r.p99) rows,
            (refl, length-map (λ r. r.min) rows, (refl, length-map (λ r. r.max) rows, tt)),
          ),
        ),
      ),
    ),
  ),
)

fill_raw-append :
    (out : RawEventRows) (rows : List RawEventDbRow)
    → fill_raw out rows ≡ record {
      ts_ns = out.ts_ns ++ map (λ r. r.ts_ns) rows;
      duration_ns = out.duration_ns ++ map (λ r. r.duration_ns) rows;
      gpu_id = out.gpu_id ++ map (λ r. r.gpu_id) rows;
      category = out.category ++ map (λ r. r.category) rows;
      name_id = out.name_id ++ map (λ r. r.name_id) rows;
      correlation_id = out.correlation_id ++ map (λ r. r.correlation_id) rows;
      pid = out.pid ++ map (λ r. r.pid) rows;
      stream_id = out.stream_id ++ map (λ r. r.stream_id) rows;
    }
unfolding fill_raw
fill_raw-append out [] = simp (append-nil)
fill_raw-append out (r ∷ rs) = simp (fill_raw-append (push_raw out r) rs, append_assoc)

pub raw_columns-fill :
    (rows : List RawEventDbRow)
    → raw_columns (fill_raw no_raw_rows rows)
      ≡ u64_array (map (λ r. r.ts_ns) rows)
        ∷ u64_array (map (λ r. r.duration_ns) rows)
        ∷ u8_array (map (λ r. r.gpu_id) rows)
        ∷ u8_array (map (λ r. r.category) rows)
        ∷ u64_array (map (λ r. r.name_id) rows)
        ∷ u64_array (map (λ r. r.correlation_id) rows)
        ∷ u32_array (map (λ r. r.pid) rows)
        ∷ u32_array (map (λ r. r.stream_id) rows)
        ∷ []
raw_columns-fill rows = rw (fill_raw-append no_raw_rows rows) refl

pub fill_raw-Fits :
    (rows : List RawEventDbRow)
    → Fits (length rows) raw_schema (raw_columns (fill_raw no_raw_rows rows))
fill_raw-Fits rows = rw (fill_raw-append no_raw_rows rows) (
  refl,
  length-map (λ r. r.ts_ns) rows,
  (
    refl,
    length-map (λ r. r.duration_ns) rows,
    (
      refl,
      length-map (λ r. r.gpu_id) rows,
      (
        refl,
        length-map (λ r. r.category) rows,
        (
          refl,
          length-map (λ r. r.name_id) rows,
          (
            refl,
            length-map (λ r. r.correlation_id) rows,
            (refl, length-map (λ r. r.pid) rows, (refl, length-map (λ r. r.stream_id) rows, tt)),
          ),
        ),
      ),
    ),
  ),
)

-- Whatever the database returns, the columns fit the schema, each with one value per row, for all
-- three kinds of query.
pub columns-Fits :
    (tiles : List ActivityTileRow) (metrics : List MetricTileRow) (events : List RawEventDbRow)
    → Fits (length tiles) activity_schema (activity_columns (fill_activity no_activity_rows tiles))
      × Fits (length metrics) metric_schema (metric_columns (fill_metric no_metric_rows metrics))
      × Fits (length events) raw_schema (raw_columns (fill_raw no_raw_rows events))
columns-Fits tiles metrics events =
    (fill_activity-Fits tiles, fill_metric-Fits metrics, fill_raw-Fits events)
