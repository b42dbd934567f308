-- ===== src/Agent/Start.antt =====
-- crates/perfweave-agent/src/main.rs and config.rs: which samplers an agent starts, and how it introduces
-- itself with the `AgentHello` of grpc_client.rs.
mod Tests
use Prim.Native.String.{String, ◌++◌ as str_append}
use text.Mathlib.Text.{◌==◌ as str_eq}
use perf_weave.Base.{ℕ, Bool, true, false, Option, none, some, List, [], ◌∷◌, ◌++◌, if◌then◌else◌}
use perf_weave.Base.Text.{Text}
use perf_weave.Proto.{AgentHello}

pub record AgentConfig : Type 0 where
  pub collector : Text
  pub metric_hz : ℕ
  pub synthetic : Bool
  pub synthetic_burst : Bool
  pub synthetic_gpus : ℕ
  pub node_id : ℕ
  pub hostname : Option String
  pub ring_capacity : ℕ
  pub rpc_listen : String

-- What the build and the machine decide: the features and platform, whether `is_tegra` holds, the number of
-- devices that NVML counts if it starts and counts, two variables, and the trimmed output of `hostname`.
pub record Host : Type 0 where
  pub version : String
  pub linux : Bool
  pub unix : Bool
  pub nvml : Bool
  pub dcgm : Bool
  pub is_tegra : Bool
  pub device_count : Option ℕ
  pub cupti_sock : Option String
  pub hostname_variable : Option String
  pub hostname_output : Option String

-- The samplers with their settings.
pub data Sampler : Type 0 where
  synthetic : (num_gpus metric_hz node_id seed : ℕ) → (burst : Bool) → Sampler
  tegra : (node_id metric_hz : ℕ) → Sampler
  nvml : (node_id metric_hz : ℕ) → Sampler
  dcgm : (node_id metric_hz : ℕ) → Sampler
  cupti : (socket_path : String) → Sampler

abbrev pub socket_or_default : Option String → String
socket_or_default none = "/tmp/perfweave.cupti.sock"
socket_or_default (some path) = path

unfoldable pub build_real_samplers : AgentConfig → Host → List Sampler
build_real_samplers cfg host =
    if (if host.linux then host.is_tegra else false)
    then Sampler.tegra cfg.node_id cfg.metric_hz ∷ []
    else (if host.nvml then Sampler.nvml cfg.node_id cfg.metric_hz ∷ [] else [])
      ++ ((if host.dcgm then Sampler.dcgm cfg.node_id cfg.metric_hz ∷ [] else [])
          ++ (if host.unix then Sampler.cupti (socket_or_default host.cupti_sock) ∷ [] else []))

-- The samplers that `main` starts; the seed is 0xC0FFEE.
unfoldable pub samplers_of : AgentConfig → Host → List Sampler
unfolding build_real_samplers
samplers_of cfg host =
    if cfg.synthetic
    then Sampler.synthetic cfg.synthetic_gpus cfg.metric_hz cfg.node_id 12_648_430
        cfg.synthetic_burst
      ∷ []
    else build_real_samplers cfg host

abbrev pub detect_gpu_count : Host → ℕ
detect_gpu_count host = if host.nvml then elim host.device_count [ some n ↦ n | none ↦ 0 ] else 0

abbrev pub not_empty : Option String → Option String
not_empty none = none
not_empty (some s) = if str_eq s "" then none else some s

abbrev pub hostname_best_effort : Host → Option String
hostname_best_effort host = elim host.hostname_variable [
  | some s ↦ not_empty (some s)
  | none ↦ not_empty host.hostname_output
]

abbrev pub hostname_of : AgentConfig → Host → String
hostname_of cfg host = elim cfg.hostname [
  | some name ↦ name
  | none ↦ elim (hostname_best_effort host) [ some name ↦ name | none ↦ "unknown" ]
]

abbrev pub agent_rpc_addr : AgentConfig → String
agent_rpc_addr cfg = if str_eq cfg.rpc_listen "" then "" else str_append "http://" cfg.rpc_listen

pub record UploaderConfig : Type 0 where
  pub collector_url : Text
  pub hostname : String
  pub node_id : ℕ
  pub num_gpus : ℕ
  pub max_batch_events : ℕ
  pub flush_interval_ms : ℕ
  pub agent_rpc_addr : String

abbrev pub uploader_config : AgentConfig → Host → UploaderConfig
uploader_config cfg host = record {
  collector_url = cfg.collector;
  hostname = hostname_of cfg host;
  node_id = cfg.node_id;
  num_gpus = if cfg.synthetic then cfg.synthetic_gpus else detect_gpu_count host;
  max_batch_events = 20_000;
  flush_interval_ms = 250;
  agent_rpc_addr = agent_rpc_addr cfg;
}

-- The first message of `run_session`.
abbrev pub hello_of : String → UploaderConfig → AgentHello
hello_of version cfg = record {
  node_id = cfg.node_id;
  hostname = cfg.hostname;
  agent_version = version;
  num_gpus = cfg.num_gpus;
  device_peaks = [];
  agent_rpc_addr = cfg.agent_rpc_addr;
}
