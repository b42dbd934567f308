-- ===== src/Server/Timeline/Tests.antt =====
-- Runs of the timeline endpoint on concrete requests.
use perf_weave.Base.{ℕ, ◌≡◌, refl, none, some, [], ◌∷◌, length, arith}
use perf_weave.Base.Results.{err, ok}
use perf_weave.Base.Text.{
  Text, codes, is_whitespace, trim, trim_start, trim_end, to_ascii_uppercase,
}
use perf_weave.Base.Text.Decimal.{parse, to_string, scan, emit}
use perf_weave.Base.Text.Parts.{split, join}
use perf_weave.Server.Timeline.Arrow.{Arrow}
use perf_weave.Server.Timeline.Columns.{
  ActivityTileRow, MetricTileRow, RawEventDbRow, activity_columns, activity_schema, metric_columns,
  metric_schema, raw_columns, raw_schema, fill_activity, fill_metric, fill_raw, no_activity_rows,
  no_metric_rows, no_raw_rows,
}
use perf_weave.Server.Timeline.Columns.Table.{Fits, columns-Fits}
use perf_weave.Server.Timeline.Filters.{
  max_u32, parse_pieces, sanitize, sanitize_u32_list, gpu_filter_sql, metric_filter,
  category_filter_sql, allowed_names,
}
use perf_weave.Server.Timeline.Handler.{Database, Http}
use perf_weave.Server.Timeline.Numbers.{parse_pieces-sanitize}
use perf_weave.Server.Timeline.Safe.{Harmless, filters-Harmless}
use perf_weave.Server.Timeline.Sql.{TimelineQuery}

-- White space, a sign, an overflow, a name and an empty piece.
sanitize_test : sanitize_u32_list (codes " 3,+07,4294967296,x,,12 ") ≡ codes "3,7,12"
unfolding sanitize_u32_list sanitize parse_pieces split join trim trim_start trim_end is_whitespace
    parse scan to_string emit
sanitize_test = refl

category_filter_test :
    category_filter_sql (some (codes "kernel, Memcpy,x') OR 1=1 --")) (codes "category")
    ≡ codes " AND category IN ('KERNEL','MEMCPY')"
unfolding category_filter_sql allowed_names to_ascii_uppercase split join trim trim_start trim_end
    is_whitespace
category_filter_test = refl

-- A list without any number makes an empty list of the SQL, not an absent condition.
gpu_filter_test : gpu_filter_sql (some (codes "all")) ≡ codes " AND gpu_id IN ()"
unfolding gpu_filter_sql sanitize_u32_list sanitize parse_pieces split join trim trim_start trim_end
    is_whitespace parse scan to_string emit
gpu_filter_test = refl

abbrev one_tile : ActivityTileRow
one_tile = record {
  bucket_start_ns = 1_000;
  bucket_width_ns = 1_000;
  gpu_id = 0;
  category = 3;
  count = 2;
  sum_duration_ns = 700;
  max_duration_ns = 400;
  top_name_id = 9;
}

abbrev one_metric : MetricTileRow
one_metric = record {
  bucket_start_ns = 1_000;
  bucket_width_ns = 1_000;
  gpu_id = 0;
  metric_id = 5;
  p50 = 1;
  p99 = 2;
  min = 0;
  max = 3;
}

abbrev one_event : RawEventDbRow
one_event = record {
  ts_ns = 1_500;
  duration_ns = 300;
  gpu_id = 0;
  category = 3;
  name_id = 9;
  correlation_id = 77;
  pid = 12;
  stream_id = 7;
}

-- A library that encodes a batch as its number of columns.
abbrev counting_arrow : Arrow Text ℕ
counting_arrow = record {
  Batch = ℕ;
  Writer = ℕ;
  batch_try_new = λ schema cols. ok (length cols);
  writer_try_new = λ schema. ok 0;
  write = λ w b. ok b;
  finish = λ w. ok w;
}

abbrev small_database : Database Text
small_database = record {
  fetch_activity = λ sql. ok (one_tile ∷ []);
  fetch_metric = λ sql. err (codes "no such table");
  fetch_raw = λ sql. ok (one_event ∷ []);
}

abbrev lenient_http : Http Text
lenient_http = record { HeaderValue = Text; from_str = λ t. some t; show = λ t. t }

abbrev two_gpus : TimelineQuery
two_gpus = record {
  start_ns = 1_000;
  end_ns = 9_000_000_000;
  gpus = some (codes "0,1");
  categories = some (codes "kernel");
  pixels = 1_000;
  kind = none;
  metric_ids = none;
}

parse_pieces-sanitize_example :
    parse_pieces max_u32 (split b',' (sanitize max_u32 (codes "1, 2,x")))
    ≡ parse_pieces max_u32 (split b',' (codes "1, 2,x"))
parse_pieces-sanitize_example = parse_pieces-sanitize max_u32 (codes "1, 2,x") (omega arith)

filters-Harmless_example :
    Harmless (gpu_filter_sql two_gpus.gpus)
    × Harmless (metric_filter two_gpus.metric_ids)
    × Harmless (category_filter_sql two_gpus.categories (codes "category"))
filters-Harmless_example = filters-Harmless two_gpus

columns-Fits_example :
    Fits 1 activity_schema (activity_columns (fill_activity no_activity_rows (one_tile ∷ [])))
    × Fits 1 metric_schema (metric_columns (fill_metric no_metric_rows (one_metric ∷ [])))
    × Fits 1 raw_schema (raw_columns (fill_raw no_raw_rows (one_event ∷ [])))
columns-Fits_example = columns-Fits (one_tile ∷ []) (one_metric ∷ []) (one_event ∷ [])
