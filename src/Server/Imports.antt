-- ===== src/Server/Imports.antt =====
-- crates/perfweave-server/src/api/imports.rs: the import of an Nsight report. The tool that exports it, the
-- file system and ClickHouse are the environment.
pub mod Imported
use perf_weave.Base.{ℕ, Bool, true, false, Option, none, some, List, [], ◌∷◌, if◌then◌else◌}
use perf_weave.Base.Results.{Result, err, ok}
use perf_weave.Base.Text.{Text, codes}
use perf_weave.Base.Text.Decimal.{to_string}
use perf_weave.Base.Text.Parts.{concat}

pub record ImportResult : Type 0 where
  pub event_count : ℕ
  pub ts_min_ns : ℕ
  pub ts_max_ns : ℕ

-- The statement that copies the kernels of the exported file.
unfoldable pub nsys_sql : Text → ℕ → Text
nsys_sql sqlite node_id = concat (
    codes "\n"
    ∷ codes "        INSERT INTO events (ts_ns, duration_ns, node_id, gpu_id, pid, tid, ctx_id,\n"
    ∷ codes "            stream_id, category, name_id, correlation_id, parent_id,\n"
    ∷ codes "            grid_x, grid_y, grid_z, block_x, block_y, block_z,\n"
    ∷ codes "            shared_static, shared_dynamic, registers, local_mem, launch_cbid)\n"
    ∷ codes "        SELECT\n"
    ∷ codes "            toUInt64(k.start)  AS ts_ns,\n"
    ∷ codes "            toUInt64(k.end - k.start) AS duration_ns,\n"
    ∷ codes "            toUInt32("
    ∷ to_string node_id
    ∷ codes ")       AS node_id,\n"
    ∷ codes "            toUInt8(k.deviceId)       AS gpu_id,\n"
    ∷ codes "            toUInt32(0)               AS pid,\n"
    ∷ codes "            toUInt32(0)               AS tid,\n"
    ∷ codes "            toUInt32(k.contextId)     AS ctx_id,\n"
    ∷ codes "            toUInt32(k.streamId)      AS stream_id,\n"
    ∷ codes "            CAST('KERNEL' AS Enum8(\n"
    ∷ codes "               'METRIC'=1,'API_CALL'=2,'KERNEL'=3,'MEMCPY'=4,'MEMSET'=5,\n"
    ∷ codes "               'SYNC'=6,'OVERHEAD'=7,'MARKER'=8)) AS category,\n"
    ∷ codes "            xxHash64(coalesce(names.value, ''))   AS name_id,\n"
    ∷ codes "            toUInt64(k.correlationId) AS correlation_id,\n"
    ∷ codes "            0                         AS parent_id,\n"
    ∷ codes "            toUInt32(k.gridX), toUInt32(k.gridY), toUInt32(k.gridZ),\n"
    ∷ codes "            toUInt32(k.blockX), toUInt32(k.blockY), toUInt32(k.blockZ),\n"
    ∷ codes "            toUInt32(k.staticSharedMemory), toUInt32(k.dynamicSharedMemory),\n"
    ∷ codes "            0, toUInt32(k.localMemoryPerThread), 0\n"
    ∷ codes "        FROM sqlite('"
    ∷ sqlite
    ∷ codes "', 'CUPTI_ACTIVITY_KIND_KERNEL') AS k\n"
    ∷ codes "        LEFT JOIN sqlite('"
    ∷ sqlite
    ∷ codes "', 'StringIds') AS names\n"
    ∷ codes "            ON names.id = k.shortName\n"
    ∷ codes "        "
    ∷ [])

unfoldable pub window_stats_sql : ℕ → Text
window_stats_sql node_id = concat (
    codes "SELECT count() AS c, min(ts_ns) AS mn, max(ts_ns) AS mx FROM events WHERE node_id = "
    ∷ to_string node_id
    ∷ [])

-- `create_dir` makes the directory of this process or fails; `export` runs the tool on a report into a
-- file: it cannot be started, or it exits, well or with a status that is printed; `execute` runs a
-- statement, and `fetch_stats` gives the row of a query.
pub record Tools : Type 0 where
  pub temp_dir : Text
  pub process_id : ℕ
  pub create_dir : Text → Option Text
  pub export_file : (sqlite_path report : Text) → Result Text (Bool × Text)
  pub execute : Text → Option Text
  pub fetch_stats : Text → Result Text (ℕ × ℕ × ℕ)

-- What `context` puts before an error.
abbrev pub context : Text → Text → Text
context what e = concat (what ∷ codes ": " ∷ e ∷ [])

abbrev pub stats_of : Result Text (ℕ × ℕ × ℕ) → Result Text ImportResult
stats_of (err e) = err e
stats_of (ok (c, mn, mx)) = ok (record { event_count = c; ts_min_ns = mn; ts_max_ns = mx })

module _ (tools : Tools) where
  abbrev pub import_dir : Text
  import_dir =
      concat (tools.temp_dir ∷ codes "/perfweave-import-" ∷ to_string tools.process_id ∷ [])

  unfoldable pub tempdir_in_current : Result Text Text
  tempdir_in_current = elim (tools.create_dir import_dir) [ some e ↦ err e | none ↦ ok import_dir ]

  -- The steps of `import_nsys`, from the last to the first.
  abbrev pub ingest_kernels : Text → ℕ → Result Text ImportResult
  ingest_kernels sqlite_path node_id = elim (tools.execute (nsys_sql sqlite_path node_id)) [
    | some e ↦ err (context (codes "ingesting nsys kernels failed") e)
    | none ↦ stats_of (tools.fetch_stats (window_stats_sql node_id))
  ]

  abbrev pub after_export : Text → ℕ → Result Text (Bool × Text) → Result Text ImportResult
  after_export sqlite_path node_id (err e) = err (
      context
        (codes
          "failed to spawn `nsys`. Install Nsight Systems (12.x) and ensure `nsys` is on PATH.")
        e)
  after_export sqlite_path node_id (ok (false, status)) = err (
      concat (
        codes "`nsys export` exited with "
        ∷ status
        ∷ codes ". Is the file a valid .nsys-rep?"
        ∷ []))
  after_export sqlite_path node_id (ok (true, status)) = ingest_kernels sqlite_path node_id

  unfoldable pub import_nsys : Text → ℕ → Result Text ImportResult
  unfolding tempdir_in_current
  import_nsys path node_id = elim tempdir_in_current [
    | err e ↦ err e
    | ok tmpdir ↦
        let sqlite_path = concat (tmpdir ∷ codes "/trace.sqlite" ∷ []) in
        after_export sqlite_path node_id (tools.export_file sqlite_path path)
  ]

-- What `perfweave-nsys-import` prints.
unfoldable pub print_import : ImportResult → Text
print_import r = concat (
    codes "imported "
    ∷ to_string r.event_count
    ∷ codes " events (ts_min="
    ∷ to_string r.ts_min_ns
    ∷ codes " ts_max="
    ∷ to_string r.ts_max_ns
    ∷ codes ")"
    ∷ [])
