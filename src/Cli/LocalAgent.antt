-- ===== src/Cli/LocalAgent.antt =====
-- crates/perfweave-cli/src/local_agent.rs: the agent that `perfweave start` runs in its own process.
use Prim.Native.String.{String}
use perf_weave.Base.Text.{Text}
use perf_weave.Base.{
  ℕ, Bool, true, false, not, ◌||◌, ltb, max, Option, none, some, List, [], ◌∷◌, ◌++◌, if◌then◌else◌,
}
use perf_weave.Agent.Start.{Host, Sampler, UploaderConfig, socket_or_default, not_empty}

pub record Opts : Type 0 where
  pub collector_url : Text
  pub synthetic : Bool
  pub synthetic_gpus : ℕ

abbrev pub count_or_zero : Option ℕ → ℕ
count_or_zero none = 0
count_or_zero (some n) = n

abbrev pub has_real_gpu : Host → Bool
has_real_gpu host = if host.nvml then ltb 0 (count_or_zero host.device_count) else false

abbrev pub gpu_count : Host → ℕ
gpu_count host = if host.nvml then count_or_zero host.device_count else 0

abbrev pub or_else : Option String → Option String → Option String
or_else (some s) other = some s
or_else none other = other

abbrev pub hostname_best_effort : Host → Option String
hostname_best_effort host =
    or_else (not_empty host.hostname_variable) (not_empty host.hostname_output)

abbrev pub or_local : Option String → String
or_local (some name) = name
or_local none = "local"

unfoldable pub build_real_samplers : Host → List Sampler
build_real_samplers host =
    if (if host.linux then host.is_tegra else false)
    then Sampler.tegra 0 1 ∷ []
    else if host.nvml
    then Sampler.nvml 0 1 ∷ []
    else []

-- `run`: the samplers that are started, the receiver of CUPTI events last, and the uploader.
unfoldable pub samplers_of : Opts → Host → List Sampler
unfolding build_real_samplers
samplers_of opts host =
    (if opts.synthetic || not (has_real_gpu host)
      then Sampler.synthetic (max opts.synthetic_gpus 1) 1 0 12_648_430 true ∷ []
      else build_real_samplers host)
    ++ (if host.unix then Sampler.cupti (socket_or_default host.cupti_sock) ∷ [] else [])

abbrev pub uploader_config : Opts → Host → UploaderConfig
uploader_config opts host = record {
  collector_url = opts.collector_url;
  hostname = or_local (hostname_best_effort host);
  node_id = 0;
  num_gpus =
      if opts.synthetic || not (has_real_gpu host)
      then max opts.synthetic_gpus 1
      else gpu_count host;
  max_batch_events = 20_000;
  flush_interval_ms = 250;
  agent_rpc_addr = "";
}
