-- ===== src/Agent/Replay.antt =====
-- crates/perfweave-agent/src/rpc_server.rs: the agent's answer to a request to profile kernels.
pub mod Cards
use Prim.Native.String.{String}
use perf_weave.Base.{ℕ, zero, suc, ◌+◌, ◌%◌, Bool, List, [], ◌∷◌, is_empty, if◌then◌else◌}
use perf_weave.Base.Floats.{Floats}
use perf_weave.Base.Results.{Result, err, ok}
use perf_weave.Base.Words.{F32, u32_mod}
use perf_weave.Proto.{
  Bound, KernelSol, StallCount, ProfileRequest, bound_num, confidence_num, source_num, Confidence,
  Source,
}

-- `Status`, as far as the agent makes one.
pub data Status : Type 0 where
  unimplemented : String → Status

-- The bound of the kernel at a place of the list.
abbrev pub bound_by_rest : ℕ → Bound
bound_by_rest zero = Bound.memory
bound_by_rest (suc zero) = Bound.compute
bound_by_rest (suc (suc zero)) = Bound.latency
bound_by_rest (suc (suc (suc n))) = Bound.balanced

abbrev pub bound_at : ℕ → Bound
bound_at i = bound_by_rest (i % 4)

-- The hash of the interner is a parameter.
module _ (f : Floats) (intern_hash : String → ℕ) where
  unfoldable pub synthetic_sol : ℕ → ℕ → KernelSol
  synthetic_sol i corr =
      let at : F32 = f.of_usize32 i in
      record {
        correlation_id = corr;
        sm_active_pct =
            f.add32 (f.lit32 350 1) (f.rem32 (f.mul32 at (f.lit32 50 1)) (f.lit32 600 1));
        achieved_occupancy_pct = f.lit32 400 1;
        dram_bw_pct = f.sub32 (f.lit32 700 1) (f.rem32 (f.mul32 at (f.lit32 30 1)) (f.lit32 400 1));
        l1_bw_pct = f.lit32 250 1;
        l2_bw_pct = f.lit32 500 1;
        inst_throughput_pct = f.lit32 600 1;
        theoretical_occupancy_pct = f.lit32 600 1;
        arithmetic_intensity = f.lit32 425 2;
        achieved_gflops = f.lit32 12_000 1;
        bound = bound_num (bound_at i);
        confidence = confidence_num Confidence.high;
        source = source_num Source.replay;
        stalls =
            record { reason_id = intern_hash "MemoryThrottle" % u32_mod; count = 1_000 }
            ∷ record { reason_id = intern_hash "Barrier" % u32_mod; count = 250 }
            ∷ [];
      }

  -- The loop of `synthetic_replay` from the place `i` on: what it sends, in order.
  unfoldable pub replay_from : ℕ → List ℕ → List (Result Status KernelSol)
  unfolding synthetic_sol
  replay_from i [] = []
  replay_from i (corr ∷ ids) = ok (synthetic_sol i corr) ∷ replay_from (i + 1) ids

  unfoldable pub synthetic_replay : ProfileRequest → List (Result Status KernelSol)
  unfolding replay_from
  synthetic_replay req =
      let ids = if is_empty req.correlation_ids then req.name_ids else req.correlation_ids in
      replay_from 0 ids

  -- The `profile_kernels` service; the flag is the server's `synthetic`.
  unfoldable pub profile_kernels : Bool → ProfileRequest → List (Result Status KernelSol)
  unfolding synthetic_replay
  profile_kernels synthetic req =
      if synthetic
      then synthetic_replay req
      else err (
          unimplemented
            "CUPTI_PROFILER_REPLAY_KERNEL not compiled in; rebuild agent with --features cupti-replay")
        ∷ []
