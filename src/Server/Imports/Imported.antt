-- ===== src/Server/Imports/Imported.antt =====
-- When an import succeeds (api/imports.rs).
use perf_weave.Base.{ℕ, ◌≡◌, refl, Bool, true, false, none, [], ◌∷◌, Option-cases, inl, inr, arith}
use perf_weave.Base.Results.{Result, err, ok}
use perf_weave.Base.Text.{Text, codes}
use perf_weave.Base.Text.Parts.{concat}
use perf_weave.Server.Imports.{
  ImportResult, Tools, nsys_sql, window_stats_sql, import_dir, tempdir_in_current, stats_of,
  ingest_kernels, after_export, import_nsys,
}

stats_of-ok :
    (s : Result Text (ℕ × ℕ × ℕ)) (r : ImportResult)
    → stats_of s ≡ ok r
    → s ≡ ok (r.event_count, r.ts_min_ns, r.ts_max_ns)
stats_of-ok (err e) r h = grind arith
stats_of-ok (ok (c, mn, mx)) r h = grind arith

module _ (tools : Tools) where
  ingest_kernels-ok :
      (sqlite_path : Text) (node_id : ℕ) (r : ImportResult)
      → ingest_kernels tools sqlite_path node_id ≡ ok r
      → (tools.execute (nsys_sql sqlite_path node_id) ≡ none)
        × (tools.fetch_stats (window_stats_sql node_id)
            ≡ ok (r.event_count, r.ts_min_ns, r.ts_max_ns))
  ingest_kernels-ok sqlite_path node_id r h =
      elim (Option-cases (tools.execute (nsys_sql sqlite_path node_id))) [
        | inl n ↦ (
          n,
          stats_of-ok (tools.fetch_stats (window_stats_sql node_id)) r
              (rw (n, ingest_kernels) at h),
        )
        | inr (e, n) ↦ let h' = rw (n, ingest_kernels) at h in grind arith
      ]

  -- A result is what the database tells of all the events of the node, after every step has succeeded.
  abbrev pub Imported : Text → Text → ℕ → ImportResult → Type 0
  Imported sqlite_path path node_id r =
      (tools.create_dir (import_dir tools) ≡ none)
      × ((status : Text) × (tools.export_file sqlite_path path ≡ ok (true, status)))
      × (tools.execute (nsys_sql sqlite_path node_id) ≡ none)
      × (tools.fetch_stats (window_stats_sql node_id)
          ≡ ok (r.event_count, r.ts_min_ns, r.ts_max_ns))

  abbrev Exported : Text → ℕ → ImportResult → Result Text (Bool × Text) → Type 0
  Exported sqlite_path node_id r e =
      ((status : Text) × (e ≡ ok (true, status)))
      × (tools.execute (nsys_sql sqlite_path node_id) ≡ none)
      × (tools.fetch_stats (window_stats_sql node_id)
          ≡ ok (r.event_count, r.ts_min_ns, r.ts_max_ns))

  after_export-ok :
      (sqlite_path : Text) (node_id : ℕ) (r : ImportResult) (e : Result Text (Bool × Text))
      → after_export tools sqlite_path node_id e ≡ ok r
      → Exported sqlite_path node_id r e
  after_export-ok sqlite_path node_id r (err e) h = grind arith
  after_export-ok sqlite_path node_id r (ok (false, status)) h = grind arith
  after_export-ok sqlite_path node_id r (ok (true, status)) h =
      let i = ingest_kernels-ok sqlite_path node_id r h in ((status, refl), i.0, i.1)

  -- An import succeeds only when the directory could be made, the report exported and its kernels
  -- inserted, and its result is then what the database tells of the events of the node.
  pub import_nsys-Imported :
      (path : Text) (node_id : ℕ) (r : ImportResult)
      → import_nsys tools path node_id ≡ ok r
      → Imported (concat (import_dir tools ∷ codes "/trace.sqlite" ∷ [])) path node_id r
  unfolding import_nsys tempdir_in_current
  import_nsys-Imported path node_id r h =
      let sqlite_path = concat (import_dir tools ∷ codes "/trace.sqlite" ∷ []) in
      elim (Option-cases (tools.create_dir (import_dir tools))) [
        | inl n ↦
            let e =
              after_export-ok sqlite_path node_id r (tools.export_file sqlite_path path)
                (rw (n, import_nsys, tempdir_in_current) at h) in
            (n, e.0, e.1, e.2)
        | inr (e, n) ↦ let h' = rw (n, import_nsys, tempdir_in_current) at h in grind arith
      ]
