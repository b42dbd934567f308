-- ===== src/Server/App/Order.antt =====
-- In which order a server starts (api/app.rs).
use perf_weave.Base.{refl, none, ◌≡◌, ap, subst, Option, some, [], ◌∷◌}
use perf_weave.Base.Text.{Text}
use perf_weave.Base.Results.{err, ok}
use perf_weave.Server.App.{ChConfig, AppConfig, Parts, default_ch, unwrap_or, parts_of}
use perf_weave.Server.App
use perf_weave.Server.App.Startup.{
  migrate, spawn_sink, spawn_publisher, spawn_ticker, spawn_detector, spawn_ingest, serve, Run,
  World, after, or_fail, ending, tasks, make_router, run,
}

started_lem :
    (o : Option Text) (ch : ChConfig) (parts : Parts)
    → (elim o [ some e ↦ err e | none ↦ ok (parts_of ch) ]) ≡ ok parts
    → (o ≡ none) × (parts_of ch ≡ parts)
started_lem none ch parts h = (refl, cc)
started_lem (some e) ch parts h = cc

-- All that follows the migrations.
abbrev later : World → AppConfig → Run
later w cfg = or_fail (w.parse cfg.grpc_listen) (
    after (spawn_ingest cfg.grpc_listen ∷ []) (
      or_fail (w.parse cfg.http_listen) (
        or_fail (w.bind cfg.http_listen)
          (after (serve cfg.http_listen (make_router cfg.web_dir) ∷ []) (ending w.end)))))

abbrev begin : World → AppConfig → ChConfig → Option Text → Run
begin w cfg ch o = after (migrate ch ∷ []) (or_fail o (after tasks (later w cfg)))

-- A run that starts its parts first migrates their database, then starts the sink, with its own, and the tasks
-- of the live plane; all else comes later.
pub run-Parts :
    (w : World) (cfg : AppConfig) (parts : Parts)
    → App.run w.env w.apply_all cfg ≡ ok parts
    → run w cfg
      ≡ after
          (migrate parts.migrations
            ∷ spawn_sink parts.sink
            ∷ spawn_publisher
            ∷ spawn_ticker
            ∷ spawn_detector
            ∷ [])
          (later w cfg)
unfolding App.run run
run-Parts w cfg parts h =
    let ch = unwrap_or (default_ch w.env) cfg.ch in
    let (migrated, same) = started_lem (w.apply_all ch) ch parts h in
    subst
      (λ p.
        begin w cfg ch (w.apply_all ch)
        ≡ after
            (migrate p.migrations
              ∷ spawn_sink p.sink
              ∷ spawn_publisher
              ∷ spawn_ticker
              ∷ spawn_detector
              ∷ [])
            (later w cfg))
      same (ap (begin w cfg ch) migrated)

-- One whose migrations fail has done nothing else, and ends with their error.
pub run-failed :
    (w : World) (cfg : AppConfig) (e : Text)
    → let ch = unwrap_or (default_ch w.env) cfg.ch in
      w.apply_all ch ≡ some e → run w cfg ≡ (migrate ch ∷ [], some e)
unfolding run
run-failed w cfg e h = ap (begin w cfg (unwrap_or (default_ch w.env) cfg.ch)) h
