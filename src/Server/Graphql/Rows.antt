-- ===== src/Server/Graphql/Rows.antt =====
-- The objects that the schema shows, and the rows that the queries read.
use perf_weave.Base.{ℕ, Option, List}
use perf_weave.Base.Text.{Text}
use perf_weave.Base.Words.{F64, F32}

pub record Node : Type 0 where
  pub node_id : ℕ
  pub hostname : Text
  pub agent_version : Text
  pub num_gpus : ℕ
  pub last_seen_ns : ℕ

pub record StringEntry : Type 0 where
  pub id : ℕ
  pub text : Text

pub record Spike : Type 0 where
  pub bucket_start_ns : ℕ
  pub bucket_width_ns : ℕ
  pub node_id : ℕ
  pub gpu_id : ℕ
  pub metric_id : ℕ
  pub value : F64
  pub median : F64
  pub mad : F64
  pub z_mad : F64

pub record CorrelatedEvent : Type 0 where
  pub ts_ns : ℕ
  pub duration_ns : ℕ
  pub gpu_id : ℕ
  pub category : ℕ
  pub name_id : ℕ
  pub pid : ℕ
  pub stream_id : ℕ

pub record TopKernelsInWindow : Type 0 where
  pub name_id : ℕ
  pub name : Text
  pub total_duration_ns : ℕ
  pub launches : ℕ
  pub mean_duration_ns : ℕ

-- The row `R` of `top_kernels_in_window`, which is also the row `K` of `spike_context`.
pub record TopKernelRow : Type 0 where
  pub name_id : ℕ
  pub name : Text
  pub total_duration_ns : ℕ
  pub launches : ℕ
  pub mean_duration_ns : ℕ

pub data Bottleneck : Type 0 where
  compute_bound memory_bound unclassified : Bottleneck

pub record KernelSolRow : Type 0 where
  pub sm_active_pct : F64
  pub achieved_occupancy_pct : F64
  pub dram_bw_pct : F64
  pub l1_bw_pct : F64
  pub l2_bw_pct : F64
  pub inst_throughput_pct : F64
  pub arithmetic_intensity : F64
  pub achieved_gflops : F64
  pub bound : Text
  pub confidence : Text
  pub source : Text

pub record KernelInWindow : Type 0 where
  pub correlation_id : ℕ
  pub name_id : ℕ
  pub name : Text
  pub ts_ns : ℕ
  pub duration_ns : ℕ
  pub gpu_id : ℕ
  pub sol : Option KernelSolRow

pub record SpikeContext : Type 0 where
  pub bucket_start_ns : ℕ
  pub bucket_width_ns : ℕ
  pub gpu_id : ℕ
  pub metric_id : ℕ
  pub metric_name : Text
  pub bottleneck : Bottleneck
  pub avg_mem_util : F64
  pub avg_gpu_util : F64
  pub top_kernels : List TopKernelsInWindow
  pub kernels_in_window : List KernelInWindow

pub record UtilRow : Type 0 where
  pub avg_gpu_util : F64
  pub avg_mem_util : F64

pub record Kiw : Type 0 where
  pub correlation_id : ℕ
  pub name_id : ℕ
  pub name : Text
  pub ts_ns : ℕ
  pub duration_ns : ℕ
  pub gpu_id : ℕ
  pub sm : F32
  pub occ : F32
  pub dram : F32
  pub l1 : F32
  pub l2 : F32
  pub inst : F32
  pub ai : F32
  pub gflops : F32
  pub bound : Text
  pub confidence : Text
  pub source : Text
  pub sol_rows : ℕ

pub record ProfileKernelsAck : Type 0 where
  pub node_id : ℕ
  pub requested : ℕ
  pub completed : ℕ
  pub results : List KernelSolRow
