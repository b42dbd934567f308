-- ===== src/Inject/Pm.antt =====
-- crates/perfweave-cupti-inject/src/pm.rs: samples of the host sampler, gathered by kernel, become cards.
-- The float operations are a parameter; a count is a `u32` and wraps.
pub mod Cards
use perf_weave.Base.{
  ℕ, Bool, true, false, ◌&&◌, Option, none, some, List, [], ◌∷◌, ◌++◌, ltb, if◌then◌else◌,
}
use perf_weave.Base.Words.{F64, F32, add_u32}
use perf_weave.Base.Floats.{Floats}
use perf_weave.Base.Maps.{lookup, insert, pair_eq}
use perf_weave.Proto.{KernelSol, Bound, bound_num, Confidence, confidence_num, Source, source_num}

abbrev pub min_samples_for_card : ℕ
min_samples_for_card = 5

pub record PmSample : Type 0 where
  pub sm_active_pct : F32
  pub occupancy_pct : F32
  pub dram_bw_pct : F32
  pub inst_tp_pct : F32

pub record Attribution : Type 0 where
  pub count : ℕ
  pub sum_sm_active : F64
  pub sum_occ : F64
  pub sum_dram : F64
  pub sum_inst : F64

abbrev pub default : Attribution
default = record { count = 0; sum_sm_active = 0; sum_occ = 0; sum_dram = 0; sum_inst = 0 }

-- The state of `HostSampler`.
abbrev pub HostSampler : Type 0
HostSampler = List ((ℕ × ℕ) × Attribution)

abbrev pub new : HostSampler
new = []

module _ (f : Floats) where
  unfoldable pub add : Attribution → PmSample → Attribution
  add a s = record {
    count = add_u32 a.count 1;
    sum_sm_active = f.add a.sum_sm_active (f.widen s.sm_active_pct);
    sum_occ = f.add a.sum_occ (f.widen s.occupancy_pct);
    sum_dram = f.add a.sum_dram (f.widen s.dram_bw_pct);
    sum_inst = f.add a.sum_inst (f.widen s.inst_tp_pct);
  }

  unfoldable pub classify_bound : F32 → F32 → F32 → Bound
  classify_bound sm_active_pct dram_bw_pct inst_tp_pct =
      let h = f.lit32 10 0 in
      let idle = f.lit32 30 0 in
      let compute_score = f.max32 sm_active_pct inst_tp_pct in
      if f.lt32 sm_active_pct idle && f.lt32 dram_bw_pct idle && f.lt32 inst_tp_pct idle
      then Bound.latency
      else if f.lt32 (f.add32 compute_score h) dram_bw_pct
      then Bound.memory
      else if f.lt32 (f.add32 dram_bw_pct h) compute_score
      then Bound.compute
      else Bound.balanced

  -- The card that `finalize` makes of enough samples.
  abbrev pub card : Attribution → ℕ → KernelSol
  card a correlation_id =
      let n = f.of_u64 a.count in
      let sm_active = f.narrow (f.div a.sum_sm_active n) in
      let occ = f.narrow (f.div a.sum_occ n) in
      let dram = f.narrow (f.div a.sum_dram n) in
      let inst = f.narrow (f.div a.sum_inst n) in
      record {
        correlation_id = correlation_id;
        sm_active_pct = sm_active;
        achieved_occupancy_pct = occ;
        dram_bw_pct = dram;
        l1_bw_pct = 0;
        l2_bw_pct = 0;
        inst_throughput_pct = inst;
        theoretical_occupancy_pct = 0;
        arithmetic_intensity = 0;
        achieved_gflops = 0;
        bound = bound_num (classify_bound sm_active dram inst);
        confidence = confidence_num Confidence.low;
        source = source_num Source.host_sampling;
        stalls = [];
      }

  unfoldable pub finalize : Attribution → ℕ → Option KernelSol
  unfolding classify_bound
  finalize a correlation_id =
      if ltb a.count min_samples_for_card then none else some (card a correlation_id)

  -- `entry((gpu_id, correlation_id)).or_default().add(s)`.
  unfoldable pub sample : HostSampler → ℕ → ℕ → PmSample → HostSampler
  unfolding add lookup insert
  sample hs gpu_id correlation_id s =
      insert (gpu_id, correlation_id)
        (add (elim (lookup (gpu_id, correlation_id) hs) [ none ↦ default | some a ↦ a ]) s) hs

  -- The loop of `drain_cards` over the drained buckets.
  unfoldable pub cards : HostSampler → List KernelSol
  unfolding finalize
  cards [] = []
  cards (((gpu, corr), bucket) ∷ rest) = elim (finalize bucket corr) [
    | none ↦ cards rest
    | some c ↦ c ∷ cards rest
  ]

  unfoldable pub drain_cards : HostSampler → HostSampler × List KernelSol
  unfolding cards
  drain_cards hs = ([], cards hs)
