-- ===== src/Server/Registry.antt =====
-- crates/perfweave-server/src/replay.rs: which agents are known and where to call them back, and the
-- `register` handler of ingest/grpc.rs that fills the table.
pub mod Assign
use Prim.Native.String.{String}
use text.Mathlib.Text.{◌==◌ as str_eq}
use perf_weave.Base.{ℕ, Bool, true, false, Option, none, some, List, [], ◌∷◌, ◌==◌, if◌then◌else◌}
use perf_weave.Base.Words.{add_u32}
use perf_weave.Base.Maps.{nat_eq, lookup, insert}
use perf_weave.Proto.{AgentHello, RegisterAck}

pub record AgentEntry : Type 0 where
  pub node_id : ℕ
  pub hostname : String
  pub rpc_addr : Option String

abbrev pub AgentRegistry : Type 0
AgentRegistry = List (ℕ × AgentEntry)

abbrev pub new : AgentRegistry
new = []

abbrev pub entry_of : ℕ → AgentHello → AgentEntry
entry_of node_id hello = record {
  node_id = node_id;
  hostname = hello.hostname;
  rpc_addr = if str_eq hello.agent_rpc_addr "" then none else some hello.agent_rpc_addr;
}

-- `AgentRegistry::register`.
unfoldable pub register_agent : AgentRegistry → ℕ → AgentHello → AgentRegistry
register_agent r node_id hello = insert node_id (entry_of node_id hello) r

-- `AgentRegistry::get`.
unfoldable pub get : AgentRegistry → ℕ → Option AgentEntry
get r node_id = lookup node_id r

-- Why `profile_kernels` gives up before it calls the agent.
pub data ReplayError : Type 0 where
  not_registered : ℕ → ReplayError
  no_rpc_address : ℕ → ReplayError

pub data Target : Type 0 where
  call : String → Target
  refuse : ReplayError → Target

-- The address that `profile_kernels` connects to.
unfoldable pub replay_target : AgentRegistry → ℕ → Target
unfolding get
replay_target r node_id = elim (get r node_id) [
  | none ↦ refuse (not_registered node_id)
  | some e ↦ elim e.rpc_addr [ none ↦ refuse (no_rpc_address node_id) | some addr ↦ call addr ]
]

-- The part of `CollectorSvc` that `register` changes: the counter is a `u32` and wraps.
pub record Nodes : Type 0 where
  pub next_node_id : ℕ
  pub agents : AgentRegistry

abbrev pub new_nodes : Nodes
new_nodes = record { next_node_id = 1; agents = new }

-- The `register` handler; `now` is the host clock's reading.
unfoldable pub register : ℕ → Nodes → AgentHello → Nodes × RegisterAck
unfolding register_agent
register now n hello =
    let fresh = hello.node_id == 0 in
    let assigned = if fresh then n.next_node_id else hello.node_id in
    (
      record n {
        next_node_id = if fresh then add_u32 n.next_node_id 1 else n.next_node_id;
        agents = register_agent n.agents assigned hello;
      },
      record { assigned_node_id = assigned; server_epoch_ns = now },
    )
