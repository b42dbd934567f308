-- ===== src/Agent/Start/Tests.antt =====
-- An agent with the default configuration at a server that has just started.
use perf_weave.Base.{◌≡◌, refl, true, false, none, some}
use perf_weave.Base.Maps.{lookup, insert}
use perf_weave.Base.Text.{codes}
use perf_weave.Agent.Start.{AgentConfig, Host, uploader_config, hello_of}
use perf_weave.Server.Registry.{new_nodes, not_registered, refuse, get, replay_target, register}

abbrev default_config : AgentConfig
default_config = record {
  collector = codes "http://127.0.0.1:7778";
  metric_hz = 1;
  synthetic = false;
  synthetic_burst = false;
  synthetic_gpus = 1;
  node_id = 0;
  hostname = none;
  ring_capacity = 1_048_576;
  rpc_listen = "127.0.0.1:7780";
}

abbrev workstation : Host
workstation = record {
  version = "0.1.0";
  linux = true;
  unix = true;
  nvml = true;
  dcgm = false;
  is_tegra = false;
  device_count = some 2;
  cupti_sock = none;
  hostname_variable = none;
  hostname_output = some "node";
}

-- It introduces itself with the node id 0 and is registered under 1; a replay for node 0 is refused.
registered_test :
    let (n', reply) =
      register 9 new_nodes
        (hello_of workstation.version (uploader_config default_config workstation)) in
    (reply.assigned_node_id ≡ 1) × (replay_target n'.agents 0 ≡ refuse (not_registered 0))
unfolding register replay_target get lookup insert
registered_test = (refl, refl)
