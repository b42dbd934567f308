-- ===== src/Server/Graphql/Tests.antt =====
-- Runs of the control plane at concrete inputs.
use Prim.Native.String.{String}
use perf_weave.Base.{◌≡◌, refl, true, none, [], ◌∷◌}
use perf_weave.Agent.Replay as Agent
use perf_weave.Agent.Replay.{Status}
use perf_weave.Base.Maps.{lookup, insert}
use perf_weave.Base.Floats.{whole_numbers}
use perf_weave.Base.Results.{ok}
use perf_weave.Base.Text.{codes}
use perf_weave.Proto.{AgentHello, Bound, Confidence, Source}
use perf_weave.Proto.Defaults.{getters}
use perf_weave.Server.Graphql.Profile.{Names, Transport, profile_kernels}
use perf_weave.Server.Graphql.Profile.Outcome.{Profiled, profile_kernels-Profiled}
use perf_weave.Server.Graphql.Profile.Replayed.{Replays, profile_kernels-synthetic}
use perf_weave.Server.Registry.{AgentRegistry, new, register_agent, replay_target, Target}

abbrev spelled : Names
spelled = record {
  bound = λ b. elim b [
    | Bound.bound_unknown ↦ codes "BoundUnknown"
    | Bound.memory ↦ codes "Memory"
    | Bound.compute ↦ codes "Compute"
    | Bound.latency ↦ codes "Latency"
    | Bound.balanced ↦ codes "Balanced"
  ];
  confidence = λ c. elim c [
    | Confidence.conf_unknown ↦ codes "ConfUnknown"
    | Confidence.low ↦ codes "Low"
    | Confidence.high ↦ codes "High"
  ];
  source = λ s. elim s [
    | Source.src_unknown ↦ codes "SrcUnknown"
    | Source.host_sampling ↦ codes "HostSampling"
    | Source.replay ↦ codes "Replay"
  ];
}

-- A transport that runs the synthetic agent, whatever the address.
abbrev to_agent : Transport Status
to_agent = record {
  Client = String;
  connect = λ addr. ok addr;
  call = λ client req. ok (Agent.profile_kernels whole_numbers (λ text. 7) true req);
}

abbrev hello : AgentHello
hello = record {
  node_id = 4;
  hostname = "orin";
  agent_version = "0";
  num_gpus = 1;
  device_peaks = [];
  agent_rpc_addr = "http://orin:7701";
}

abbrev agents : AgentRegistry
agents = register_agent new 4 hello

agents-target : replay_target agents 4 ≡ Target.call "http://orin:7701"
unfolding register_agent replay_target lookup insert
agents-target = refl

profile_kernels-Profiled_example :
    let done =
      profile_kernels getters whole_numbers spelled to_agent
        (λ k. true)
        agents
        9
        0
        0
        100
        (77 ∷ [])
        none in
    Profiled getters whole_numbers spelled to_agent
      (λ k. true)
      agents
      9
      0
      0
      100
      (77 ∷ [])
      none
      done.0
      done.1
profile_kernels-Profiled_example =
    profile_kernels-Profiled getters whole_numbers spelled to_agent (λ k. true) agents 9 0 0 100
      (77 ∷ []) none

profile_kernels-synthetic_example :
    Replays getters whole_numbers spelled
      (λ text. 7)
      to_agent
      (λ k. true)
      agents
      4
      0
      0
      100
      (77 ∷ 78 ∷ [])
      none
      "http://orin:7701"
      "http://orin:7701"
      9
      (profile_kernels getters whole_numbers spelled to_agent
        (λ k. true)
        agents
        4
        0
        0
        100
        (77 ∷ 78 ∷ [])
        none)
profile_kernels-synthetic_example =
    profile_kernels-synthetic getters whole_numbers spelled (λ text. 7) to_agent (λ k. true) agents
      4 0 0 100 (77 ∷ 78 ∷ []) none "http://orin:7701" "http://orin:7701" 9 agents-target refl
      (λ req. refl) (λ k. refl)
