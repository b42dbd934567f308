-- ===== src/Server/Graphql/Spike.antt =====
-- `spike_context`: what happened around a spike. The operations on floats are a parameter.
pub mod Window
use perf_weave.Base.{ℕ, Bool, ◌&&◌, Option, none, some, List, ◌∷◌, [], map, ltb, if◌then◌else◌}
use perf_weave.Base.Floats.{Floats}
use perf_weave.Base.Results.{Result, ok, ◌>>=◌}
use perf_weave.Base.Text.{Text, codes}
use perf_weave.Base.Text.Decimal.{to_string}
use perf_weave.Base.Text.Parts.{concat}
use perf_weave.Base.Words.{saturating_sub, saturating_add_u64}
use perf_weave.Server.Graphql.Queries.{Ch, top_kernel_of}
use perf_weave.Server.Graphql.Rows.{
  Bottleneck, compute_bound, memory_bound, unclassified, KernelSolRow, KernelInWindow, SpikeContext,
  UtilRow, Kiw,
}
use perf_weave.Server.Graphql.Sql.{metric_name_sql, util_sql, kernels_sql, kiw_sql}

abbrev pub pad : ℕ
pad = 500_000_000

unfoldable pub win_start : ℕ → ℕ
win_start bucket_start_ns = saturating_sub bucket_start_ns pad

unfoldable pub win_end : ℕ → ℕ → ℕ
win_end bucket_start_ns bucket_width_ns =
    saturating_add_u64 (saturating_add_u64 bucket_start_ns bucket_width_ns) pad

abbrev pub metric_name_or : ℕ → Option Text → Text
metric_name_or metric_id none = concat (codes "metric#" ∷ to_string metric_id ∷ [])
metric_name_or metric_id (some text) = text

module _ (f : Floats) where
  -- `UtilRow::default`.
  abbrev pub util_or_default : Option UtilRow → UtilRow
  util_or_default none = record { avg_gpu_util = f.lit 0 0; avg_mem_util = f.lit 0 0 }
  util_or_default (some u) = u

  unfoldable pub bottleneck_of : UtilRow → Bottleneck
  bottleneck_of util =
      if f.lt (f.mul util.avg_gpu_util (f.lit 12 1)) util.avg_mem_util
        && f.lt (f.lit 50 1) util.avg_mem_util
      then memory_bound
      else if f.lt (f.mul util.avg_mem_util (f.lit 12 1)) util.avg_gpu_util
          && f.lt (f.lit 200 1) util.avg_gpu_util
      then compute_bound
      else unclassified

  abbrev pub sol_of : Kiw → Option KernelSolRow
  sol_of r =
      if ltb 0 r.sol_rows
      then some record {
        sm_active_pct = f.widen r.sm;
        achieved_occupancy_pct = f.widen r.occ;
        dram_bw_pct = f.widen r.dram;
        l1_bw_pct = f.widen r.l1;
        l2_bw_pct = f.widen r.l2;
        inst_throughput_pct = f.widen r.inst;
        arithmetic_intensity = f.widen r.ai;
        achieved_gflops = f.widen r.gflops;
        bound = r.bound;
        confidence = r.confidence;
        source = r.source;
      }
      else none

  abbrev pub kernel_of : Kiw → KernelInWindow
  kernel_of r = record {
    correlation_id = r.correlation_id;
    name_id = r.name_id;
    name = r.name;
    ts_ns = r.ts_ns;
    duration_ns = r.duration_ns;
    gpu_id = r.gpu_id;
    sol = sol_of r;
  }

  module _ {Error : Type 0} (ch : Ch Error) where
    unfoldable pub spike_context : ℕ → ℕ → ℕ → ℕ → Result Error SpikeContext
    unfolding win_start win_end bottleneck_of
    spike_context bucket_start_ns bucket_width_ns gpu_id metric_id =
        let from = win_start bucket_start_ns in
        let to = win_end bucket_start_ns bucket_width_ns in
        ch.fetch_text (metric_name_sql metric_id) >>= (λ text.
          ch.fetch_util (util_sql gpu_id from to) >>= (λ row.
            let util = util_or_default row in
            ch.fetch_top_kernels (kernels_sql gpu_id from to) >>= (λ krows.
              ch.fetch_kiw (kiw_sql gpu_id from to) >>= (λ kiw. ok record {
                bucket_start_ns = bucket_start_ns;
                bucket_width_ns = bucket_width_ns;
                gpu_id = gpu_id;
                metric_id = metric_id;
                metric_name = metric_name_or metric_id text;
                bottleneck = bottleneck_of util;
                avg_mem_util = util.avg_mem_util;
                avg_gpu_util = util.avg_gpu_util;
                top_kernels = map top_kernel_of krows;
                kernels_in_window = map kernel_of kiw;
              }))))
