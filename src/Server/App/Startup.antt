-- ===== src/Server/App/Startup.antt =====
-- crates/perfweave-server/src/api/app.rs, `make_router` and `run`, with src/main.rs: the routes, and what a
-- server does from its start to its end, in order. Addresses, listeners and the loop that serves are the
-- environment.
use Prim.Native.String.{String}
use perf_weave.Base.{ℕ, Option, none, some, List, [], ◌∷◌, ◌++◌}
use perf_weave.Base.Text.{Text, codes}
use perf_weave.Server.App.{ChConfig, SinkConfig, AppConfig, default_sink, default_ch, unwrap_or}

pub data Method : Type 0 where
  get : Method
  post : Method

pub data Endpoint : Type 0 where
  healthz : Endpoint
  graphql_handler : Endpoint
  graphql_playground : Endpoint
  timeline_handler : Endpoint
  nsys_import_handler : Endpoint
  sse_live : Endpoint
  sse_live_kernels : Endpoint

-- A route with the limit of its body, if it has one of its own.
pub record Route : Type 0 where
  pub path : Text
  pub method : Method
  pub endpoint : Endpoint
  pub body_limit : Option ℕ

abbrev pub route : Text → Method → Endpoint → Route
route path method endpoint = record {
  path = path;
  method = method;
  endpoint = endpoint;
  body_limit = none;
}

abbrev pub live_routes : List Route
live_routes =
    route (codes "/api/live") Method.get sse_live
    ∷ route (codes "/api/live/kernels") Method.get sse_live_kernels
    ∷ []

-- The routes, and the directory of which any other path is served. The layers for CORS and for tracing,
-- which take every request alike, are left out.
pub record Router : Type 0 where
  pub routes : List Route
  pub fallback : Option Text

abbrev pub make_router : Option Text → Router
make_router web_dir = record {
  routes =
      (route (codes "/healthz") Method.get healthz
        ∷ route (codes "/graphql") Method.post graphql_handler
        ∷ route (codes "/graphql") Method.get graphql_playground
        ∷ route (codes "/api/timeline") Method.get timeline_handler
        ∷ record (route (codes "/api/import/nsys") Method.post nsys_import_handler) {
          body_limit = some 8_589_934_592;
        }
        ∷ [])
      ++ live_routes;
  fallback = web_dir;
}

-- What a server does.
pub data Action : Type 0 where
  migrate : ChConfig → Action
  spawn_sink : SinkConfig → Action
  spawn_publisher : Action
  spawn_ticker : Action
  spawn_detector : Action
  spawn_ingest : Text → Action
  serve : Text → Router → Action
  signal_shutdown : Action

-- How `select!` ends: the HTTP server ends, well or not, or the interrupt comes.
pub data Ending : Type 0 where
  server_ended : Option Text → Ending
  interrupted : Ending

-- Each field but the last two may give an error; `end` tells what happens once the server listens.
pub record World : Type 0 where
  pub env : String → Option Text
  pub apply_all : ChConfig → Option Text
  pub parse : Text → Option Text
  pub bind : Text → Option Text
  pub end : Ending

abbrev pub Run : Type 0
Run = List Action × Option Text

-- First some actions, then the rest.
abbrev pub after : List Action → Run → Run
after done r = (done ++ r.0, r.1)

-- `?` on a call that gives an error or nothing.
abbrev pub or_fail : Option Text → Run → Run
or_fail (some e) rest = ([], some e)
or_fail none rest = rest

abbrev pub ending : Ending → Run
ending (server_ended e) = ([], e)
ending interrupted = (signal_shutdown ∷ [], none)

abbrev pub tasks : List Action
tasks = spawn_sink default_sink ∷ spawn_publisher ∷ spawn_ticker ∷ spawn_detector ∷ []

unfoldable pub run : World → AppConfig → Run
unfolding default_ch
run w cfg =
    let ch = unwrap_or (default_ch w.env) cfg.ch in
    after (migrate ch ∷ []) (
      or_fail (w.apply_all ch) (
        after tasks (
          or_fail (w.parse cfg.grpc_listen) (
            after (spawn_ingest cfg.grpc_listen ∷ []) (
              or_fail (w.parse cfg.http_listen) (
                or_fail (w.bind cfg.http_listen) (
                  after (serve cfg.http_listen (make_router cfg.web_dir) ∷ []) (ending w.end))))))))

-- The server's own program: the flags `http`, `grpc` and `web_dir`.
abbrev pub main_config : Option Text → Option Text → Option Text → AppConfig
main_config http grpc web_dir = record {
  http_listen = unwrap_or (codes "0.0.0.0:7777") http;
  grpc_listen = unwrap_or (codes "0.0.0.0:7778") grpc;
  web_dir = web_dir;
  ch = none;
}

abbrev pub main : World → Option Text → Option Text → Option Text → Run
main w http grpc web_dir = run w (main_config http grpc web_dir)
