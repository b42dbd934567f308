-- ===== src/Server/Timeline/Columns/Metric.antt =====
-- The rows of metric tiles in timeline.rs, and their columns and Arrow batch in arrow_tile.rs.
use perf_weave.Base.{ℕ, List, [], ◌∷◌, ◌++◌}
use perf_weave.Base.Results.{Result, ◌>>=◌}
use perf_weave.Base.Words.{F64}
use perf_weave.Server.Timeline.Arrow.{
  Field, Column, u64_array, u8_array, f64_array, uint64, uint8, float64, field, Arrow, encode,
}

pub record MetricTileRow : Type 0 where
  pub bucket_start_ns : ℕ
  pub bucket_width_ns : ℕ
  pub gpu_id : ℕ
  pub metric_id : ℕ
  pub p50 : F64
  pub p99 : F64
  pub min : F64
  pub max : F64

pub record MetricTileRows : Type 0 where
  pub bucket_start_ns : List ℕ
  pub bucket_width_ns : List ℕ
  pub gpu_id : List ℕ
  pub metric_id : List ℕ
  pub p50 : List F64
  pub p99 : List F64
  pub min : List F64
  pub max : List F64

abbrev pub no_metric_rows : MetricTileRows
no_metric_rows = record {
  bucket_start_ns = [];
  bucket_width_ns = [];
  gpu_id = [];
  metric_id = [];
  p50 = [];
  p99 = [];
  min = [];
  max = [];
}

-- One round of the loop over the rows.
abbrev pub push_metric : MetricTileRows → MetricTileRow → MetricTileRows
push_metric out r = record {
  bucket_start_ns = out.bucket_start_ns ++ r.bucket_start_ns ∷ [];
  bucket_width_ns = out.bucket_width_ns ++ r.bucket_width_ns ∷ [];
  gpu_id = out.gpu_id ++ r.gpu_id ∷ [];
  metric_id = out.metric_id ++ r.metric_id ∷ [];
  p50 = out.p50 ++ r.p50 ∷ [];
  p99 = out.p99 ++ r.p99 ∷ [];
  min = out.min ++ r.min ∷ [];
  max = out.max ++ r.max ∷ [];
}

unfoldable pub fill_metric : MetricTileRows → List MetricTileRow → MetricTileRows
fill_metric out [] = out
fill_metric out (r ∷ rs) = fill_metric (push_metric out r) rs

abbrev pub metric_schema : List Field
metric_schema =
    field "bucket_start_ns" uint64
    ∷ field "bucket_width_ns" uint64
    ∷ field "gpu_id" uint8
    ∷ field "metric_id" uint64
    ∷ field "p50" float64
    ∷ field "p99" float64
    ∷ field "min" float64
    ∷ field "max" float64
    ∷ []

abbrev pub metric_columns : MetricTileRows → List Column
metric_columns rows =
    u64_array rows.bucket_start_ns
    ∷ u64_array rows.bucket_width_ns
    ∷ u8_array rows.gpu_id
    ∷ u64_array rows.metric_id
    ∷ f64_array rows.p50
    ∷ f64_array rows.p99
    ∷ f64_array rows.min
    ∷ f64_array rows.max
    ∷ []

module _ {Error Bytes : Type 0} (arrow : Arrow Error Bytes) where
  unfoldable pub metric_to_arrow : MetricTileRows → Result Error Bytes
  unfolding encode
  metric_to_arrow rows =
      arrow.batch_try_new metric_schema (metric_columns rows)
      >>= (λ batch. encode arrow batch metric_schema)
