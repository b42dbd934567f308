-- ===== src/Server/Timeline/Columns/Activity.antt =====
-- The rows of activity tiles in timeline.rs, and their columns and Arrow batch in arrow_tile.rs.
use perf_weave.Base.{ℕ, List, [], ◌∷◌, ◌++◌}
use perf_weave.Base.Results.{Result, ◌>>=◌}
use perf_weave.Server.Timeline.Arrow.{
  Field, Column, u64_array, u8_array, uint64, uint8, field, Arrow, encode,
}

pub record ActivityTileRow : Type 0 where
  pub bucket_start_ns : ℕ
  pub bucket_width_ns : ℕ
  pub gpu_id : ℕ
  pub category : ℕ
  pub count : ℕ
  pub sum_duration_ns : ℕ
  pub max_duration_ns : ℕ
  pub top_name_id : ℕ

pub record ActivityTileRows : Type 0 where
  pub bucket_start_ns : List ℕ
  pub bucket_width_ns : List ℕ
  pub gpu_id : List ℕ
  pub category : List ℕ
  pub count : List ℕ
  pub sum_duration_ns : List ℕ
  pub max_duration_ns : List ℕ
  pub top_name_id : List ℕ

abbrev pub no_activity_rows : ActivityTileRows
no_activity_rows = record {
  bucket_start_ns = [];
  bucket_width_ns = [];
  gpu_id = [];
  category = [];
  count = [];
  sum_duration_ns = [];
  max_duration_ns = [];
  top_name_id = [];
}

-- One round of the loop over the rows.
abbrev pub push_activity : ActivityTileRows → ActivityTileRow → ActivityTileRows
push_activity out r = record {
  bucket_start_ns = out.bucket_start_ns ++ r.bucket_start_ns ∷ [];
  bucket_width_ns = out.bucket_width_ns ++ r.bucket_width_ns ∷ [];
  gpu_id = out.gpu_id ++ r.gpu_id ∷ [];
  category = out.category ++ r.category ∷ [];
  count = out.count ++ r.count ∷ [];
  sum_duration_ns = out.sum_duration_ns ++ r.sum_duration_ns ∷ [];
  max_duration_ns = out.max_duration_ns ++ r.max_duration_ns ∷ [];
  top_name_id = out.top_name_id ++ r.top_name_id ∷ [];
}

unfoldable pub fill_activity : ActivityTileRows → List ActivityTileRow → ActivityTileRows
fill_activity out [] = out
fill_activity out (r ∷ rs) = fill_activity (push_activity out r) rs

abbrev pub activity_schema : List Field
activity_schema =
    field "bucket_start_ns" uint64
    ∷ field "bucket_width_ns" uint64
    ∷ field "gpu_id" uint8
    ∷ field "category" uint8
    ∷ field "count" uint64
    ∷ field "sum_duration_ns" uint64
    ∷ field "max_duration_ns" uint64
    ∷ field "top_name_id" uint64
    ∷ []

abbrev pub activity_columns : ActivityTileRows → List Column
activity_columns rows =
    u64_array rows.bucket_start_ns
    ∷ u64_array rows.bucket_width_ns
    ∷ u8_array rows.gpu_id
    ∷ u8_array rows.category
    ∷ u64_array rows.count
    ∷ u64_array rows.sum_duration_ns
    ∷ u64_array rows.max_duration_ns
    ∷ u64_array rows.top_name_id
    ∷ []

module _ {Error Bytes : Type 0} (arrow : Arrow Error Bytes) where
  unfoldable pub activity_to_arrow : ActivityTileRows → Result Error Bytes
  unfolding encode
  activity_to_arrow rows =
      arrow.batch_try_new activity_schema (activity_columns rows)
      >>= (λ batch. encode arrow batch activity_schema)
