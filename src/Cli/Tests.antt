-- ===== src/Cli/Tests.antt =====
-- The command line at concrete inputs.
use perf_weave.Base.{ℕ, ◌≡◌, refl, true, false, none, some, List, [], ◌∷◌, All}
use perf_weave.Base.Text.{Text, codes}
use perf_weave.Agent.Start.{AgentConfig, Host, Sampler}
use perf_weave.Agent.Start
use perf_weave.Cli.LocalAgent
use perf_weave.Cli.Doctor.{Report, Environment, all_checks, run}
use perf_weave.Cli.Doctor.Verdict.{Advises, run-Advises}

-- A laptop without a database.
abbrev laptop : Environment
laptop = record {
  os = codes "macos";
  arch = codes "aarch64";
  nvml = none;
  exists = λ p. false;
  nsys = none;
  ch_url = none;
  query_error = λ url. some (codes "refused");
}

abbrev no_json : Report → List Text
no_json r = []

abbrev text : List Text × ℕ
text = run no_json laptop false

first_line_test :
    codes "[WARN] os             macos: CUPTI/DCGM unavailable; only synthetic mode will work"
    ≡ (elim (text.0) [ l ∷ ls ↦ l | [] ↦ [] ])
unfolding run
first_line_test = refl

run-Advises_example : ((run no_json laptop false).1 ≡ 1) × All Advises (all_checks laptop)
run-Advises_example = run-Advises laptop no_json false

-- A Jetson board without NVML.
abbrev jetson : Host
jetson = record {
  version = "0.1.0";
  linux = true;
  unix = true;
  nvml = false;
  dcgm = false;
  is_tegra = true;
  device_count = none;
  cupti_sock = none;
  hostname_variable = none;
  hostname_output = some "orin";
}

abbrev zero_config : LocalAgent.Opts
zero_config = record {
  collector_url = codes "http://127.0.0.1:7778";
  synthetic = false;
  synthetic_gpus = 2;
}

abbrev agent_config : AgentConfig
agent_config = record {
  collector = codes "http://127.0.0.1:7778";
  metric_hz = 1;
  synthetic = false;
  synthetic_burst = false;
  synthetic_gpus = 1;
  node_id = 0;
  hostname = none;
  ring_capacity = 1_048_576;
  rpc_listen = "127.0.0.1:7780";
}

tegra_test :
    (Start.samplers_of agent_config jetson ≡ Sampler.tegra 0 1 ∷ [])
    × (LocalAgent.samplers_of zero_config jetson
        ≡ Sampler.synthetic 2 1 0 12_648_430 true ∷ Sampler.cupti "/tmp/perfweave.cupti.sock" ∷ [])
unfolding Start.samplers_of LocalAgent.samplers_of
tegra_test = (refl, refl)
