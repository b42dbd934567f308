-- ===== src/Cli/Start.antt =====
-- crates/perfweave-cli/src/main.rs: the commands `start`, `run` and `import`, as what they start and print.
pub mod Loopback
use Prim.Native.String.{String}
use perf_weave.Base.{
  ℕ, zero, suc, ◌-◌, Bool, true, false, not, ◌&&◌, Option, none, some, List, [], ◌∷◌, ◌++◌, length,
  if◌then◌else◌,
}
use perf_weave.Base.Results.{Result, err, ok}
use perf_weave.Base.Text.{Text, codes}
use perf_weave.Base.Text.Lines.{starts_with}
use perf_weave.Base.Text.Decimal.{to_string}
use perf_weave.Base.Text.Parts.{concat}
use perf_weave.Server.App.{ChConfig, AppConfig, default_ch, unwrap_or}
use perf_weave.Server.Imports.{ImportResult, Tools, import_nsys}
use perf_weave.Cli.LocalAgent.{Opts}

pub record StartArgs : Type 0 where
  pub api_listen : Text
  pub collector_listen : Text
  pub web_dir : Option Text
  pub no_open : Bool
  pub clickhouse_url : Text
  pub no_local_agent : Bool
  pub synthetic : Bool
  pub synthetic_gpus : ℕ

-- `str::replace`: what stands for the next `hit` characters is skipped, since it belongs to a match.
unfoldable pub replace_from : Text → Text → ℕ → Text → Text
replace_from pat to hit [] = []
replace_from pat to zero (c ∷ s) =
    let found = starts_with (c ∷ s) pat in
    (if found then to else c ∷ []) ++ replace_from pat to (if found then length pat - 1 else 0) s
replace_from pat to (suc hit) (c ∷ s) = replace_from pat to hit s

abbrev pub replace : Text → Text → Text → Text
replace pat to s = replace_from pat to 0 s

-- How the attempt to open the browser ends: the program that is started with the address, or why not.
pub data Opened : Type 0 where
  spawned : (prog url : Text) → Opened
  headless : Opened
  not_spawned : Opened

-- The platform, two variables, and whether a program can be started.
pub record Desktop : Type 0 where
  pub linux : Bool
  pub macos : Bool
  pub display : Option Text
  pub wayland_display : Option Text
  pub spawns : Text → Bool

abbrev pub is_none : Option Text → Bool
is_none none = true
is_none (some s) = false

abbrev pub opener : Desktop → Text
opener d = if d.linux then codes "xdg-open" else if d.macos then codes "open" else codes "cmd"

unfoldable pub open_browser : Desktop → Text → Opened
open_browser d url =
    if d.linux && (is_none d.display && is_none d.wayland_display)
    then headless
    else if d.spawns (opener d)
    then spawned (opener d) url
    else not_spawned

-- What `start` starts: the server, the local agent, and the browser.
pub record Started : Type 0 where
  pub server : AppConfig
  pub local_agent : Option Opts
  pub browser : Option Opened

abbrev pub app_config : (String → Option Text) → StartArgs → AppConfig
app_config env args = record {
  http_listen = args.api_listen;
  grpc_listen = args.collector_listen;
  web_dir = args.web_dir;
  ch = some (record (default_ch env) { url = args.clickhouse_url });
}

abbrev pub agent_opts : StartArgs → Opts
agent_opts args = record {
  collector_url =
      concat (
        codes "http://" ∷ replace (codes "0.0.0.0") (codes "127.0.0.1") args.collector_listen ∷ []);
  synthetic = args.synthetic;
  synthetic_gpus = args.synthetic_gpus;
}

abbrev pub browser_url : StartArgs → Text
browser_url args = concat (
    codes "http://"
    ∷ replace (codes "0.0.0.0") (codes "localhost") args.api_listen
    ∷ codes "/"
    ∷ [])

unfoldable pub cmd_start : (String → Option Text) → Desktop → StartArgs → Started
unfolding open_browser replace_from
cmd_start env desktop args = record {
  server = app_config env args;
  local_agent = if not args.no_local_agent then some (agent_opts args) else none;
  browser = if not args.no_open then some (open_browser desktop (browser_url args)) else none;
}

-- The end of `run`: an error, or the exit status.
abbrev pub status_of : Option ℕ → ℕ
status_of none = 1
status_of (some code) = code

-- The child's variables that `run` sets.
abbrev pub child_env : (String → Option Text) → List (Text × Text)
child_env env =
    (
      codes "CUDA_INJECTION64_PATH",
      unwrap_or (codes "/usr/local/lib/libperfweave_cupti_inject.so")
          (env "PERFWEAVE_CUPTI_INJECT_SO"),
    )
    ∷ (codes "PERFWEAVE_CUPTI_SOCK", codes "/tmp/perfweave.cupti.sock")
    ∷ []

-- `child` starts a program with its arguments and variables and waits: it gives an error of the start, or
-- an error of the wait, or the exit code, which a child that a signal ends has not.
unfoldable pub cmd_run :
    (String → Option Text)
    → (Text → List Text → List (Text × Text) → Result Text (Result Text (Option ℕ)))
    → List Text
    → Result Text ℕ
cmd_run env child [] = err (codes "usage: perfweave run -- <program> [args...]")
cmd_run env child (program ∷ args) = elim (child program args (child_env env)) [
  | err e ↦ err (concat (codes "failed to spawn " ∷ program ∷ codes ": " ∷ e ∷ []))
  | ok (err e) ↦ err e
  | ok (ok code) ↦ ok (status_of code)
]

-- What `import` prints.
unfoldable pub print_import : ImportResult → Text
print_import r = concat (
    codes "imported "
    ∷ to_string r.event_count
    ∷ codes " events ("
    ∷ to_string r.ts_min_ns
    ∷ codes "ns .. "
    ∷ to_string r.ts_max_ns
    ∷ codes "ns)"
    ∷ [])

unfoldable pub cmd_import : Tools → Text → ℕ → Result Text Text
unfolding print_import
cmd_import tools path node_id = elim (import_nsys tools path node_id) [
  | err e ↦ err e
  | ok r ↦ ok (print_import r)
]
