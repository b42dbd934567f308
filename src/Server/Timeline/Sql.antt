-- ===== src/Server/Timeline/Sql.antt =====
-- The query and the three texts of SQL, character by character.
use perf_weave.Base.{ℕ, Option, [], ◌∷◌}
use perf_weave.Base.Text.{Text, codes}
use perf_weave.Base.Text.Decimal.{to_string}
use perf_weave.Base.Text.Parts.{concat}
use perf_weave.Server.Timeline.Filters.{gpu_filter_sql, metric_filter, category_filter_sql}

pub record TimelineQuery : Type 0 where
  pub start_ns : ℕ
  pub end_ns : ℕ
  pub gpus : Option Text
  pub categories : Option Text
  pub pixels : ℕ
  pub kind : Option Text
  pub metric_ids : Option Text

abbrev pub default_pixels : ℕ
default_pixels = 2_048

unfoldable pub activity_sql : ℕ → TimelineQuery → Text
activity_sql width q = concat (
    codes "\n"
    ∷ codes "        SELECT\n"
    ∷ codes "            bucket_start_ns,\n"
    ∷ codes "            bucket_width_ns,\n"
    ∷ codes "            gpu_id,\n"
    ∷ codes "            toUInt8(category) AS category,\n"
    ∷ codes "            countMerge(count) AS count,\n"
    ∷ codes "            sumMerge(sum_duration_ns) AS sum_duration_ns,\n"
    ∷ codes "            maxMerge(max_duration_ns) AS max_duration_ns,\n"
    ∷ codes "            arrayElement(topKMerge(16)(top_names), 1) AS top_name_id\n"
    ∷ codes "        FROM tiles_activity\n"
    ∷ codes "        WHERE bucket_width_ns = "
    ∷ to_string width
    ∷ codes "\n"
    ∷ codes "          AND bucket_start_ns >= "
    ∷ to_string q.start_ns
    ∷ codes "\n"
    ∷ codes "          AND bucket_start_ns <  "
    ∷ to_string q.end_ns
    ∷ codes "\n"
    ∷ codes "          "
    ∷ gpu_filter_sql q.gpus
    ∷ codes "\n"
    ∷ codes "          "
    ∷ category_filter_sql q.categories (codes "category")
    ∷ codes "\n"
    ∷ codes "        GROUP BY bucket_start_ns, bucket_width_ns, gpu_id, category\n"
    ∷ codes "        ORDER BY bucket_start_ns, gpu_id, category\n"
    ∷ codes "        "
    ∷ [])

unfoldable pub metric_sql : ℕ → TimelineQuery → Text
metric_sql width q = concat (
    codes "\n"
    ∷ codes "        SELECT\n"
    ∷ codes "            bucket_start_ns,\n"
    ∷ codes "            bucket_width_ns,\n"
    ∷ codes "            gpu_id,\n"
    ∷ codes "            metric_id,\n"
    ∷ codes "            quantileTDigestMerge(0.5)(p50_value) AS p50,\n"
    ∷ codes "            quantileTDigestMerge(0.99)(p99_value) AS p99,\n"
    ∷ codes "            minMerge(min_value) AS min,\n"
    ∷ codes "            maxMerge(max_value) AS max\n"
    ∷ codes "        FROM tiles_metric\n"
    ∷ codes "        WHERE bucket_width_ns = "
    ∷ to_string width
    ∷ codes "\n"
    ∷ codes "          AND bucket_start_ns >= "
    ∷ to_string q.start_ns
    ∷ codes "\n"
    ∷ codes "          AND bucket_start_ns <  "
    ∷ to_string q.end_ns
    ∷ codes "\n"
    ∷ codes "          "
    ∷ gpu_filter_sql q.gpus
    ∷ codes "\n"
    ∷ codes "          "
    ∷ metric_filter q.metric_ids
    ∷ codes "\n"
    ∷ codes "        GROUP BY bucket_start_ns, bucket_width_ns, gpu_id, metric_id\n"
    ∷ codes "        ORDER BY bucket_start_ns, gpu_id, metric_id\n"
    ∷ codes "        "
    ∷ [])

unfoldable pub raw_sql : TimelineQuery → Text
raw_sql q = concat (
    codes "\n"
    ∷ codes "        SELECT ts_ns, duration_ns, gpu_id, toUInt8(category) AS category,\n"
    ∷ codes "               name_id, correlation_id, pid, stream_id\n"
    ∷ codes "        FROM events\n"
    ∷ codes "        WHERE ts_ns >= "
    ∷ to_string q.start_ns
    ∷ codes "\n"
    ∷ codes "          AND ts_ns <  "
    ∷ to_string q.end_ns
    ∷ codes "\n"
    ∷ codes "          "
    ∷ gpu_filter_sql q.gpus
    ∷ codes "\n"
    ∷ codes "          "
    ∷ category_filter_sql q.categories (codes "category")
    ∷ codes "\n"
    ∷ codes "          AND category != 'METRIC'\n"
    ∷ codes "        ORDER BY ts_ns\n"
    ∷ codes "        LIMIT 200000\n"
    ∷ codes "        "
    ∷ [])
