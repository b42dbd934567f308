-- ===== src/Server/Graphql/Profile.antt =====
-- The mutation `profile_kernels`, with the function of the same name in replay.rs. The transport to the
-- agent and the names that the generated enumerations print are parameters.
pub mod Outcome
pub mod Replayed
use Prim.Native.String.{String}
use perf_weave.Base.{
  ℕ, ◌+◌, ◌%◌, Bool, Option, none, some, List, [], ◌∷◌, ◌++◌, length, if◌then◌else◌,
}
use perf_weave.Base.Floats.{Floats}
use perf_weave.Base.Results.{Result, err, ok}
use perf_weave.Base.Text.{Text, codes}
use perf_weave.Base.Text.Decimal.{to_string}
use perf_weave.Base.Text.Parts.{concat}
use perf_weave.Base.Words.{add_u32, u32_mod}
use perf_weave.Proto.{Bound, Confidence, Source, Getters, KernelSol, ProfileRequest}
use perf_weave.Server.Graphql.Rows.{KernelSolRow, ProfileKernelsAck}
use perf_weave.Server.Registry.{AgentRegistry, Target, ReplayError, replay_target}
use perf_weave.Server.Sink.Loop.{SinkMsg}

-- `{:?}` of the generated enumerations.
pub record Names : Type 0 where
  pub bound : Bound → Text
  pub confidence : Confidence → Text
  pub source : Source → Text

-- The generated client: connecting, and the call, which gives a stream; an error is its text.
pub record Transport (Status : Type 0) : Type 1 where
  pub Client : Type 0
  pub connect : String → Result Text Client
  pub call : Client → ProfileRequest → Result Text (List (Result Status KernelSol))

-- The texts of the two errors that replay.rs makes.
unfoldable pub refusal : ReplayError → Text
refusal (ReplayError.not_registered node_id) =
    concat (codes "node " ∷ to_string node_id ∷ codes " not registered" ∷ [])
refusal (ReplayError.no_rpc_address node_id) = concat (
    codes "agent on node "
    ∷ to_string node_id
    ∷ codes " did not advertise an RPC address; build with --features cupti-replay"
    ∷ [])

module _ {Status : Type 0} (t : Transport Status) where
  abbrev pub call_client :
      ProfileRequest → Result Text t.Client → Result Text (List (Result Status KernelSol))
  call_client req (err e) = err e
  call_client req (ok client) = t.call client req

  -- `profile_kernels` of replay.rs.
  unfoldable pub replay_kernels :
      AgentRegistry → ℕ → ProfileRequest → Result Text (List (Result Status KernelSol))
  replay_kernels agents node_id req = elim (replay_target agents node_id) [
    | Target.refuse e ↦ err (refusal e)
    | Target.call addr ↦ call_client req (t.connect addr)
  ]

-- The locals of the loop, and the messages that the sink's queue has taken.
pub record Progress : Type 0 where
  pub completed : ℕ
  pub results : List KernelSolRow
  pub queued : List SinkMsg

abbrev pub no_progress : Progress
no_progress = record { completed = 0; results = []; queued = [] }

abbrev pub timeout_or_default : Option ℕ → ℕ
timeout_or_default none = 5_000
timeout_or_default (some n) = n

module _ (g : Getters) (f : Floats) (names : Names) where
  unfoldable pub kernel_sol_to_row : KernelSol → KernelSolRow
  kernel_sol_to_row s = record {
    sm_active_pct = f.widen s.sm_active_pct;
    achieved_occupancy_pct = f.widen s.achieved_occupancy_pct;
    dram_bw_pct = f.widen s.dram_bw_pct;
    l1_bw_pct = f.widen s.l1_bw_pct;
    l2_bw_pct = f.widen s.l2_bw_pct;
    inst_throughput_pct = f.widen s.inst_throughput_pct;
    arithmetic_intensity = f.widen s.arithmetic_intensity;
    achieved_gflops = f.widen s.achieved_gflops;
    bound = names.bound (g.bound s.bound);
    confidence = names.confidence (g.confidence s.confidence);
    source = names.source (g.source s.source);
  }

  -- The loop over the stream. `takes k` says whether the sink's queue takes the message of round `k`;
  -- a failure is only logged.
  unfoldable pub collect :
      {Status : Type 0} → (ℕ → Bool) → ℕ → ℕ → Progress → List (Result Status KernelSol) → Progress
  unfolding kernel_sol_to_row
  collect takes node_id k p [] = p
  collect takes node_id k p (err e ∷ msgs) = p
  collect takes node_id k p (ok sol ∷ msgs) =
      collect takes node_id (k + 1)
        record {
          completed = add_u32 p.completed 1;
          results = p.results ++ kernel_sol_to_row sol ∷ [];
          queued = if takes k then p.queued ++ SinkMsg.kernel_sol node_id sol ∷ [] else p.queued;
        }
        msgs

  abbrev pub acknowledge : ℕ → ℕ → Progress → Result Text ProfileKernelsAck × List SinkMsg
  acknowledge node_id requested p = (
    ok record {
      node_id = node_id;
      requested = requested;
      completed = p.completed;
      results = p.results;
    },
    p.queued,
  )

  abbrev pub request_of : ℕ → ℕ → ℕ → List ℕ → Option ℕ → ProfileRequest
  request_of gpu_id window_start_ns window_end_ns correlation_ids timeout_ms = record {
    gpu_id = gpu_id;
    window_start_ns = window_start_ns;
    window_end_ns = window_end_ns;
    correlation_ids = correlation_ids;
    name_ids = [];
    timeout_ms = timeout_or_default timeout_ms;
  }

  module _ {Status : Type 0} (t : Transport Status) (takes : ℕ → Bool) where
    abbrev pub drain_stream :
        ℕ
        → List ℕ
        → Result Text (List (Result Status KernelSol))
        → Result Text ProfileKernelsAck × List SinkMsg
    drain_stream node_id correlation_ids (err e) =
        (err (concat (codes "profile_kernels: " ∷ e ∷ [])), [])
    drain_stream node_id correlation_ids (ok msgs) =
        acknowledge node_id (length correlation_ids % u32_mod)
          (collect takes node_id 0 no_progress msgs)

    -- The answer of the mutation, and what the sink's queue has taken.
    unfoldable pub profile_kernels :
        AgentRegistry
        → ℕ
        → ℕ
        → ℕ
        → ℕ
        → List ℕ
        → Option ℕ
        → Result Text ProfileKernelsAck × List SinkMsg
    unfolding replay_kernels collect
    profile_kernels agents node_id gpu_id window_start_ns window_end_ns correlation_ids timeout_ms =
        drain_stream node_id correlation_ids (
          replay_kernels t agents node_id
            (request_of gpu_id window_start_ns window_end_ns correlation_ids timeout_ms))
