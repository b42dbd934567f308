-- ===== src/Server/App/Tests.antt =====
-- A server with a remote database.
use perf_weave.Base.{◌≡◌, refl, Option, none, some, [], ◌∷◌, ◌++◌}
use perf_weave.Base.Text.{Text, codes}
use perf_weave.Server.App.{ChConfig, AppConfig}
use perf_weave.Server.App.Order.{run-failed}
use perf_weave.Server.App.Startup.{
  World, interrupted, migrate, spawn_ingest, serve, signal_shutdown, tasks, make_router,
}
use perf_weave.Server.App.Startup

abbrev remote : ChConfig
remote = record {
  url = codes "http://db:8123";
  user = codes "default";
  password = [];
  database = codes "default";
}

abbrev config : AppConfig
config = record {
  http_listen = codes "0.0.0.0:7777";
  grpc_listen = codes "0.0.0.0:7778";
  web_dir = none;
  ch = some remote;
}

-- A database that refuses the migrations.
abbrev world : Option Text → World
world refused = record {
  env = λ name. none;
  apply_all = λ ch. refused;
  parse = λ address. none;
  bind = λ address. none;
  end = interrupted;
}

refused_test :
    Startup.run (world (some (codes "no"))) config ≡ (migrate remote ∷ [], some (codes "no"))
refused_test = run-failed (world (some (codes "no"))) config (codes "no") refl

accepted_test : Startup.run (world none) config ≡ (
  migrate remote ∷ tasks
      ++ spawn_ingest (codes "0.0.0.0:7778")
        ∷ serve (codes "0.0.0.0:7777") (make_router none)
        ∷ signal_shutdown
        ∷ [],
  none,
)
unfolding Startup.run
accepted_test = refl
