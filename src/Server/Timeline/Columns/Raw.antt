-- ===== src/Server/Timeline/Columns/Raw.antt =====
-- The rows of raw events in timeline.rs, and their columns and Arrow batch in arrow_tile.rs.
use perf_weave.Base.{ℕ, List, [], ◌∷◌, ◌++◌}
use perf_weave.Base.Results.{Result, ◌>>=◌}
use perf_weave.Server.Timeline.Arrow.{
  Field, Column, u64_array, u32_array, u8_array, uint64, uint32, uint8, field, Arrow, encode,
}

pub record RawEventDbRow : Type 0 where
  pub ts_ns : ℕ
  pub duration_ns : ℕ
  pub gpu_id : ℕ
  pub category : ℕ
  pub name_id : ℕ
  pub correlation_id : ℕ
  pub pid : ℕ
  pub stream_id : ℕ

pub record RawEventRows : Type 0 where
  pub ts_ns : List ℕ
  pub duration_ns : List ℕ
  pub gpu_id : List ℕ
  pub category : List ℕ
  pub name_id : List ℕ
  pub correlation_id : List ℕ
  pub pid : List ℕ
  pub stream_id : List ℕ

abbrev pub no_raw_rows : RawEventRows
no_raw_rows = record {
  ts_ns = [];
  duration_ns = [];
  gpu_id = [];
  category = [];
  name_id = [];
  correlation_id = [];
  pid = [];
  stream_id = [];
}

-- One round of the loop over the rows.
abbrev pub push_raw : RawEventRows → RawEventDbRow → RawEventRows
push_raw out r = record {
  ts_ns = out.ts_ns ++ r.ts_ns ∷ [];
  duration_ns = out.duration_ns ++ r.duration_ns ∷ [];
  gpu_id = out.gpu_id ++ r.gpu_id ∷ [];
  category = out.category ++ r.category ∷ [];
  name_id = out.name_id ++ r.name_id ∷ [];
  correlation_id = out.correlation_id ++ r.correlation_id ∷ [];
  pid = out.pid ++ r.pid ∷ [];
  stream_id = out.stream_id ++ r.stream_id ∷ [];
}

unfoldable pub fill_raw : RawEventRows → List RawEventDbRow → RawEventRows
fill_raw out [] = out
fill_raw out (r ∷ rs) = fill_raw (push_raw out r) rs

abbrev pub raw_schema : List Field
raw_schema =
    field "ts_ns" uint64
    ∷ field "duration_ns" uint64
    ∷ field "gpu_id" uint8
    ∷ field "category" uint8
    ∷ field "name_id" uint64
    ∷ field "correlation_id" uint64
    ∷ field "pid" uint32
    ∷ field "stream_id" uint32
    ∷ []

abbrev pub raw_columns : RawEventRows → List Column
raw_columns rows =
    u64_array rows.ts_ns
    ∷ u64_array rows.duration_ns
    ∷ u8_array rows.gpu_id
    ∷ u8_array rows.category
    ∷ u64_array rows.name_id
    ∷ u64_array rows.correlation_id
    ∷ u32_array rows.pid
    ∷ u32_array rows.stream_id
    ∷ []

module _ {Error Bytes : Type 0} (arrow : Arrow Error Bytes) where
  unfoldable pub raw_to_arrow : RawEventRows → Result Error Bytes
  unfolding encode
  raw_to_arrow rows =
      arrow.batch_try_new raw_schema (raw_columns rows) >>= (λ batch. encode arrow batch raw_schema)
