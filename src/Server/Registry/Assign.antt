-- ===== src/Server/Registry/Assign.antt =====
-- Node ids and callback addresses (ingest/grpc.rs `register`, replay.rs).
use text.Mathlib.Text.{◌==◌ as str_eq}
use perf_weave.Base.{
  ℕ, zero, suc, ◌+◌, ◌^◌, ◌<◌, ◌≡◌, refl, subst, true, List, [], ◌∷◌, arith, ◌==◌, if◌then◌else◌,
  ap, ◌∙◌, length, ==_iff, All, Bool-cases, inl, inr,
}
use mathlib.Core.Path.{ap₂}
use perf_weave.Base.Maps.{nat_eq, lookup-insert_self, lookup-insert_ne}
use perf_weave.Proto.{AgentHello}
use perf_weave.Server.Registry.{
  AgentRegistry, entry_of, register_agent, no_rpc_address, Target, call, refuse, replay_target,
  Nodes, register,
}

-- The target that an agent's greeting asks for.
abbrev pub wanted_target : ℕ → AgentHello → Target
wanted_target node_id hello =
    if str_eq hello.agent_rpc_addr ""
    then refuse (no_rpc_address node_id)
    else call hello.agent_rpc_addr

replay_target-registered :
    (r : AgentRegistry) (j : ℕ) (hello : AgentHello)
    → replay_target (register_agent r j hello) j ≡ wanted_target j hello
unfolding replay_target register_agent
replay_target-registered r j hello =
    rw (replay_target, lookup-insert_self j (entry_of j hello) r) (ground arith)

replay_target-register_agent :
    (r : AgentRegistry) (j : ℕ) (hello : AgentHello) (k : ℕ)
    → replay_target (register_agent r j hello) k
      ≡ (if j == k then wanted_target k hello else replay_target r k)
unfolding replay_target register_agent
replay_target-register_agent r j hello k = elim (Bool-cases (j == k)) [
  | inl same ↦ rw same (
      subst (λ i. replay_target (register_agent r j hello) i ≡ wanted_target i hello)
        ((==_iff j k).0 same) (replay_target-registered r j hello))
  | inr other ↦ rw (
    other,
    replay_target,
    lookup-insert_ne j k (entry_of j hello) r (λ e. absurd (ground (arith, ==_iff j k))),
  )
]

-- Right after a registration, a replay for the assigned node goes to the address that the agent gave,
-- and is refused if it gave none; every other node's target is as before.
pub register-replay_target :
    (now : ℕ) (n : Nodes) (hello : AgentHello) (k : ℕ)
    → let (n', reply) = register now n hello in
      replay_target n'.agents k
      ≡ (if reply.assigned_node_id == k then wanted_target k hello else replay_target n.agents k)
unfolding register
register-replay_target now n hello k =
    replay_target-register_agent n.agents
      (if hello.node_id == 0 then n.next_node_id else hello.node_id) hello k

-- The ids that a sequence of registrations assigns.
abbrev pub assigned_ids : ℕ → Nodes → List AgentHello → List ℕ
assigned_ids now n [] = []
assigned_ids now n (h ∷ hs) =
    let (n', reply) = register now n h in reply.assigned_node_id ∷ assigned_ids now n' hs

-- Agents that bring no id of their own.
abbrev pub AllNew : List AgentHello → Type 0
AllNew = All (λ h. h.node_id ≡ 0)

abbrev pub count_from : ℕ → ℕ → List ℕ
count_from k zero = []
count_from k (suc n) = k ∷ count_from (k + 1) n

-- Agents that bring no id get consecutive ids, from the counter on, so that no two of them share
-- one, as long as the counter does not pass 2^32.
pub assigned_ids-AllNew :
    (now : ℕ) (hs : List AgentHello) (n : Nodes)
    → AllNew hs
    → n.next_node_id + length hs < 2 ^ 32
    → assigned_ids now n hs ≡ count_from n.next_node_id (length hs)
unfolding register
assigned_ids-AllNew now [] n zs h = refl
assigned_ids-AllNew now (a ∷ hs) n zs h =
    let n' = (register now n a).0 in
    let zero_id : (a.node_id == 0) ≡ true = (==_iff a.node_id 0).1 zs.0 in
    let next : n'.next_node_id ≡ n.next_node_id + 1 = rw zero_id (omega arith) in
    let head : (register now n a).1.assigned_node_id ≡ n.next_node_id = rw zero_id in
    let rest = assigned_ids-AllNew now hs n' zs.1 (omega arith) in
    ap₂ ◌∷◌ head (rest ∙ ap (λ k. count_from k (length hs)) next)
