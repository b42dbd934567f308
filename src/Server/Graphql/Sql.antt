-- ===== src/Server/Graphql/Sql.antt =====
-- The texts of SQL of the queries, character by character.
use perf_weave.Base.{ℕ, [], ◌∷◌}
use perf_weave.Base.Text.{Text, codes}
use perf_weave.Base.Text.Decimal.{to_string}
use perf_weave.Base.Text.Parts.{concat}

abbrev pub nodes_sql : Text
nodes_sql = concat (
    codes "SELECT node_id, hostname, agent_version, num_gpus, last_seen_ns"
    ∷ codes " FROM nodes FINAL ORDER BY node_id"
    ∷ [])

unfoldable pub strings_sql : Text → Text
strings_sql ids_str =
    concat (codes "SELECT id, text FROM strings FINAL WHERE id IN (" ∷ ids_str ∷ codes ")" ∷ [])

unfoldable pub metric_name_sql : ℕ → Text
metric_name_sql metric_id = concat (
    codes "SELECT text FROM strings FINAL WHERE id = "
    ∷ to_string metric_id
    ∷ codes " LIMIT 1"
    ∷ [])

unfoldable pub spikes_sql : ℕ → ℕ → Text
spikes_sql start_ns end_ns = concat (
    codes "\n"
    ∷ codes "            SELECT bucket_start_ns, bucket_width_ns, node_id, gpu_id,\n"
    ∷ codes "                   metric_id, value, median, mad, z_mad\n"
    ∷ codes "            FROM spikes\n"
    ∷ codes "            WHERE bucket_start_ns >= "
    ∷ to_string start_ns
    ∷ codes "\n"
    ∷ codes "              AND bucket_start_ns <  "
    ∷ to_string end_ns
    ∷ codes "\n"
    ∷ codes "              AND z_mad >= 3.5\n"
    ∷ codes "            ORDER BY bucket_start_ns\n"
    ∷ codes "            LIMIT 1000\n"
    ∷ codes "            "
    ∷ [])

unfoldable pub correlated_sql : ℕ → Text
correlated_sql correlation_id = concat (
    codes "\n"
    ∷ codes "            SELECT ts_ns, duration_ns, gpu_id, toUInt8(category) AS category,\n"
    ∷ codes "                   name_id, pid, stream_id\n"
    ∷ codes "            FROM events\n"
    ∷ codes "            WHERE correlation_id = "
    ∷ to_string correlation_id
    ∷ codes "\n"
    ∷ codes "            ORDER BY ts_ns\n"
    ∷ codes "            LIMIT 64\n"
    ∷ codes "            "
    ∷ [])

unfoldable pub top_kernels_sql : ℕ → ℕ → Text → ℕ → Text
top_kernels_sql start_ns end_ns gpu_clause limit = concat (
    codes "\n"
    ∷ codes "            SELECT\n"
    ∷ codes "                name_id,\n"
    ∷ codes "                any(s.text) AS name,\n"
    ∷ codes "                sum(duration_ns) AS total_duration_ns,\n"
    ∷ codes "                count()          AS launches,\n"
    ∷ codes "                toUInt64(avg(duration_ns)) AS mean_duration_ns\n"
    ∷ codes "            FROM events AS e\n"
    ∷ codes "            LEFT JOIN strings AS s FINAL ON s.id = e.name_id\n"
    ∷ codes "            WHERE category = 'KERNEL'\n"
    ∷ codes "              AND ts_ns >= "
    ∷ to_string start_ns
    ∷ codes "\n"
    ∷ codes "              AND ts_ns <  "
    ∷ to_string end_ns
    ∷ codes "\n"
    ∷ codes "              "
    ∷ gpu_clause
    ∷ codes "\n"
    ∷ codes "            GROUP BY name_id\n"
    ∷ codes "            ORDER BY total_duration_ns DESC\n"
    ∷ codes "            LIMIT "
    ∷ to_string limit
    ∷ codes "\n"
    ∷ codes "            "
    ∷ [])

unfoldable pub util_sql : ℕ → ℕ → ℕ → Text
util_sql gpu_id win_start win_end = concat (
    codes "\n"
    ∷ codes "            SELECT\n"
    ∷ codes "              avgIf(value, name_id IN (SELECT id FROM strings FINAL WHERE text"
    ∷ codes " IN ('gpu.util.percent','gpu_util'))) AS avg_gpu_util,\n"
    ∷ codes "              avgIf(value, name_id IN (SELECT id FROM strings FINAL WHERE text"
    ∷ codes " IN ('gpu.mem.util.percent','mem_util'))) AS avg_mem_util\n"
    ∷ codes "            FROM events\n"
    ∷ codes "            WHERE category = 'METRIC'\n"
    ∷ codes "              AND gpu_id = "
    ∷ to_string gpu_id
    ∷ codes "\n"
    ∷ codes "              AND ts_ns >= "
    ∷ to_string win_start
    ∷ codes "\n"
    ∷ codes "              AND ts_ns <  "
    ∷ to_string win_end
    ∷ codes "\n"
    ∷ codes "            "
    ∷ [])

unfoldable pub kernels_sql : ℕ → ℕ → ℕ → Text
kernels_sql gpu_id win_start win_end = concat (
    codes "\n"
    ∷ codes "            SELECT\n"
    ∷ codes "                name_id,\n"
    ∷ codes "                any(s.text) AS name,\n"
    ∷ codes "                sum(duration_ns) AS total_duration_ns,\n"
    ∷ codes "                count()          AS launches,\n"
    ∷ codes "                toUInt64(avg(duration_ns)) AS mean_duration_ns\n"
    ∷ codes "            FROM events AS e\n"
    ∷ codes "            LEFT JOIN strings AS s FINAL ON s.id = e.name_id\n"
    ∷ codes "            WHERE category = 'KERNEL'\n"
    ∷ codes "              AND gpu_id = "
    ∷ to_string gpu_id
    ∷ codes "\n"
    ∷ codes "              AND ts_ns >= "
    ∷ to_string win_start
    ∷ codes "\n"
    ∷ codes "              AND ts_ns <  "
    ∷ to_string win_end
    ∷ codes "\n"
    ∷ codes "            GROUP BY name_id\n"
    ∷ codes "            ORDER BY total_duration_ns DESC\n"
    ∷ codes "            LIMIT 3\n"
    ∷ codes "            "
    ∷ [])

unfoldable pub kiw_sql : ℕ → ℕ → ℕ → Text
kiw_sql gpu_id win_start win_end = concat (
    codes "\n"
    ∷ codes "            SELECT\n"
    ∷ codes "                e.correlation_id    AS correlation_id,\n"
    ∷ codes "                e.name_id           AS name_id,\n"
    ∷ codes "                coalesce(s.text,'') AS name,\n"
    ∷ codes "                e.ts_ns             AS ts_ns,\n"
    ∷ codes "                e.duration_ns       AS duration_ns,\n"
    ∷ codes "                e.gpu_id            AS gpu_id,\n"
    ∷ codes "                argMax(k.sm_active_pct,          k.confidence) AS sm,\n"
    ∷ codes "                argMax(k.achieved_occupancy_pct, k.confidence) AS occ,\n"
    ∷ codes "                argMax(k.dram_bw_pct,            k.confidence) AS dram,\n"
    ∷ codes "                argMax(k.l1_bw_pct,              k.confidence) AS l1,\n"
    ∷ codes "                argMax(k.l2_bw_pct,              k.confidence) AS l2,\n"
    ∷ codes "                argMax(k.inst_throughput_pct,    k.confidence) AS inst,\n"
    ∷ codes "                argMax(k.arithmetic_intensity,   k.confidence) AS ai,\n"
    ∷ codes "                argMax(k.achieved_gflops,        k.confidence) AS gflops,\n"
    ∷ codes "                argMax(toString(k.bound),        k.confidence) AS bound,\n"
    ∷ codes "                argMax(toString(k.confidence),   k.confidence) AS confidence,\n"
    ∷ codes "                argMax(toString(k.source),       k.confidence) AS source,\n"
    ∷ codes "                count(k.correlation_id)                        AS sol_rows\n"
    ∷ codes "            FROM events AS e\n"
    ∷ codes "            LEFT JOIN strings    AS s FINAL ON s.id = e.name_id\n"
    ∷ codes "            LEFT JOIN kernel_sol AS k        ON k.correlation_id ="
    ∷ codes " e.correlation_id\n"
    ∷ codes "            WHERE e.category = 'KERNEL'\n"
    ∷ codes "              AND e.gpu_id = "
    ∷ to_string gpu_id
    ∷ codes "\n"
    ∷ codes "              AND e.ts_ns >= "
    ∷ to_string win_start
    ∷ codes "\n"
    ∷ codes "              AND e.ts_ns <  "
    ∷ to_string win_end
    ∷ codes "\n"
    ∷ codes "            GROUP BY e.correlation_id, e.name_id, s.text, e.ts_ns,"
    ∷ codes " e.duration_ns, e.gpu_id\n"
    ∷ codes "            ORDER BY e.duration_ns DESC\n"
    ∷ codes "            LIMIT 32\n"
    ∷ codes "            "
    ∷ [])
