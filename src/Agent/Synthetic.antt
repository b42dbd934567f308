-- ===== src/Agent/Synthetic.antt =====
-- crates/perfweave-agent/src/sampler/synthetic.rs: what the synthetic sampler puts into the ring at a tick.
-- The random numbers of the library are a parameter; the timer of the loop is left out.
pub mod Rng
pub mod Launches
mod Tests
use Prim.Native.String.{String}
use text.Mathlib.Text.{◌==◌ as str_eq}
use perf_weave.Base.{
  ℕ, zero, suc, ◌+◌, ◌*◌, ◌-◌, Bool, Option, none, some, List, [], ◌∷◌, ◌++◌, length, get_or, max,
  if◌then◌else◌,
}
use perf_weave.Base.Floats.{Floats}
use perf_weave.Base.Words.{F64, add_u32, add_u64}
use perf_weave.Proto.{
  Event, Payload, KernelDetail, MemcpyDetail, MetricFrame, MetricPoint, Category, category_num,
  MemcpyKind, kind_num,
}
use Rng.{Random}

pub record SyntheticSampler : Type 0 where
  pub num_gpus : ℕ
  pub metric_hz : ℕ
  pub node_id : ℕ
  pub seed : ℕ
  pub burst : Bool

abbrev pub metric_names : List String
metric_names =
    "gpu.util.percent" ∷ "gpu.mem.util.percent" ∷ "gpu.mem.used.bytes" ∷ "gpu.power.watts"
    ∷ "gpu.sm.clock.hz" ∷ "gpu.mem.bandwidth.bytes_per_sec" ∷ []

abbrev pub kernel_names : List String
kernel_names =
    "void cutlass::Kernel<cutlass::gemm::kernel::Gemm>(...)"
    ∷ "void at::native::vectorized_elementwise_kernel<...>(int, ...)"
    ∷ "void at::native::reduce_kernel<512, 1, ...>()"
    ∷ "void flash_attention::mha_fwd_kernel<...>()" ∷ "void cub::DeviceReduceKernel<...>()"
    ∷ "void nccl::ncclAllReduceRing<...>()" ∷ "void cudnn::conv::Conv2dKernel<...>()" ∷ []

abbrev pub api_names : List String
api_names =
    "cuLaunchKernel" ∷ "cudaMemcpyAsync" ∷ "cudaMalloc" ∷ "cudaFree" ∷ "cudaStreamSynchronize"
    ∷ "cudaEventRecord" ∷ "cudaMemsetAsync" ∷ []

-- A call of the ring.
pub data Push : Type 0 where
  frame : MetricFrame → Push
  event : Event → Push

module _ (intern_hash : String → ℕ) (f : Floats) (tau : F64) (r : Random) where
  open r use {State, gen_range, gen_f64, gen_range_f64, gen_bool, gamma}

  abbrev pub clamp : F64 → F64 → F64 → F64
  clamp v lo hi = f.fmin (f.fmax v lo) hi

  abbrev pub sinewave : State → F64 → F64 × State
  sinewave s amplitude = let (t, s') = gen_f64 s in (f.mul (f.sin (f.mul t tau)) amplitude, s')

  -- The value; the unit beside it is not used.
  unfoldable pub synth_metric : String → State → F64 × State
  synth_metric name s =
      if str_eq name "gpu.util.percent"
      then (let (x, s') = gen_range_f64 s (f.lit 0 0) (f.lit 100 0) in
          let (y, s'') = sinewave s' (f.lit 20 0) in
          (clamp (f.add x y) (f.lit 0 0) (f.lit 100 0), s''))
      else if str_eq name "gpu.mem.util.percent"
      then (let (x, s') = gen_range_f64 s (f.lit 0 0) (f.lit 100 0) in
          (clamp x (f.lit 0 0) (f.lit 100 0), s'))
      else if str_eq name "gpu.mem.used.bytes"
      then gen_range_f64 s (f.lit 8_000_000_000 0) (f.lit 20_000_000_000 0)
      else if str_eq name "gpu.power.watts"
      then gen_range_f64 s (f.lit 60 0) (f.lit 350 0)
      else if str_eq name "gpu.sm.clock.hz"
      then gen_range_f64 s (f.lit 1_000_000_000 0) (f.lit 1_900_000_000 0)
      else if str_eq name "gpu.mem.bandwidth.bytes_per_sec"
      then gen_range_f64 s (f.lit 0 0) (f.lit 900_000_000_000 0)
      else (f.lit 0 0, s)

  unfoldable pub gamma_us : State → F64 → F64 → ℕ × State
  gamma_us s mean_us shape =
      let (g, s') = gamma s shape (f.div mean_us shape) in
      (max (f.trunc_u64 (f.mul g (f.lit 1_000 0))) 500, s')

  -- The loop over the metrics.
  unfoldable pub points : List String → State → List MetricPoint × State
  points [] s = ([], s)
  points (name ∷ names) s =
      let (value, s') = synth_metric name s in
      let (rest, s'') = points names s' in
      (record { metric_id = intern_hash name; value = value } ∷ rest, s'')

  -- A round of the loop over the kernels of a tick: the API call and the kernel that it launches.
  unfoldable pub launch : SyntheticSampler → ℕ → ℕ → ℕ → State → Event × Event × State
  launch c now_ns gpu corr s =
      let (ki, s1) = gen_range s 0 (length kernel_names) in
      let (ai, s2) = gen_range s1 0 (length api_names) in
      let (delay, s3) = gen_range s2 0 1_000_000 in
      let api_start = add_u64 now_ns delay in
      let (api_dur, s4) = gen_range s3 500 5_000 in
      let (gap, s5) = gen_range s4 1_000 20_000 in
      let kernel_start = add_u64 (add_u64 api_start api_dur) gap in
      let (kernel_dur, s6) = gamma_us s5 (f.lit 80 0) (f.lit 3 0) in
      let (api_stream, s7) = gen_range s6 0 4 in
      let (cbid, s8) = gen_range s7 1 400 in
      let (kernel_stream, s9) = gen_range s8 0 4 in
      let (grid_x, s10) = gen_range s9 1 512 in
      let (shared, s11) = gen_range s10 0 16_384 in
      let (registers, s12) = gen_range s11 16 64 in
      (
        record {
          ts_ns = api_start;
          duration_ns = api_dur;
          node_id = c.node_id;
          gpu_id = gpu;
          pid = 12_345;
          tid = 1;
          ctx_id = 1;
          stream_id = api_stream;
          category = category_num Category.api_call;
          name_id = intern_hash (get_or api_names ai "");
          correlation_id = corr;
          parent_id = 0;
          payload = some (Payload.api (record { cbid = cbid; status = 0 }));
        },
        record {
          ts_ns = kernel_start;
          duration_ns = kernel_dur;
          node_id = c.node_id;
          gpu_id = gpu;
          pid = 12_345;
          tid = 1;
          ctx_id = 1;
          stream_id = kernel_stream;
          category = category_num Category.kernel;
          name_id = intern_hash (get_or kernel_names ki "");
          correlation_id = corr;
          parent_id = 0;
          payload = some (
              Payload.kernel (record {
                grid_x = grid_x;
                grid_y = 1;
                grid_z = 1;
                block_x = 128;
                block_y = 1;
                block_z = 1;
                static_shared_mem_bytes = 0;
                dynamic_shared_mem_bytes = shared;
                registers_per_thread = registers;
                local_mem_per_thread = 0;
                launch_cbid = 211;
              }));
        },
        s12,
      )

  -- What the loops carry: the generator, the next correlation id, and the pushes so far are its result.
  unfoldable pub launches : SyntheticSampler → ℕ → ℕ → ℕ → ℕ → State → List Push × ℕ × State
  launches c now_ns gpu zero corr s = ([], corr, s)
  launches c now_ns gpu (suc left) corr s =
      let (a, k, s') = launch c now_ns gpu corr s in
      let (rest, corr', s'') = launches c now_ns gpu left (add_u64 corr 1) s' in
      (event a ∷ event k ∷ rest, corr', s'')

  -- The copy to the device, three times out of ten.
  unfoldable pub copy : SyntheticSampler → ℕ → ℕ → State → List Push × State
  copy c now_ns gpu s =
      let (taken, s1) = gen_bool s (f.lit 3 1) in
      let (bytes, s2) = gen_range s1 4_096 16_777_216 in
      let (extra, s3) = gen_range s2 500 2_000 in
      let (delay, s4) = gen_range s3 0 500_000 in
      let seconds =
        f.mul (f.div (f.of_u64 bytes) (f.lit 12_000_000_000 0)) (f.lit 1_000_000_000 0) in
      if taken
      then (
        event (record {
          ts_ns = add_u64 now_ns delay;
          duration_ns = add_u64 (f.trunc_u64 seconds) extra;
          node_id = c.node_id;
          gpu_id = gpu;
          pid = 12_345;
          tid = 1;
          ctx_id = 1;
          stream_id = 0;
          category = category_num Category.memcpy;
          name_id = intern_hash "cudaMemcpyH2D";
          correlation_id = 0;
          parent_id = 0;
          payload = some (
              Payload.memcpy (record {
                kind = kind_num MemcpyKind.h2d;
                bytes = bytes;
                src_device = 0;
                dst_device = gpu;
              }));
        })
            ∷ [],
        s4,
      )
      else ([], s1)

  -- A round of the loop over the GPUs.
  unfoldable pub gpu_tick : SyntheticSampler → ℕ → ℕ → ℕ → State → List Push × ℕ × State
  unfolding points launches copy
  gpu_tick c now_ns gpu corr s =
      let (ps, s1) = points metric_names s in
      let m = frame (record { node_id = c.node_id; gpu_id = gpu; ts_ns = now_ns; points = ps }) in
      let (kernels_this_tick, s2) = gen_range s1 4 32 in
      let (ls, corr', s3) = launches c now_ns gpu kernels_this_tick corr s2 in
      let (cs, s4) = copy c now_ns gpu s3 in
      if c.burst then (m ∷ (ls ++ cs), corr', s4) else (m ∷ [], corr, s1)

  unfoldable pub gpus : SyntheticSampler → ℕ → ℕ → ℕ → ℕ → State → List Push × ℕ × State
  unfolding gpu_tick
  gpus c now_ns zero gpu corr s = ([], corr, s)
  gpus c now_ns (suc left) gpu corr s =
      let (ps, corr', s') = gpu_tick c now_ns gpu corr s in
      let (rest, corr'', s'') = gpus c now_ns left (suc gpu) corr' s' in (ps ++ rest, corr'', s'')

  -- A tick.
  unfoldable pub tick : SyntheticSampler → ℕ → ℕ → State → List Push × ℕ × State
  unfolding gpus
  tick c now_ns corr s = gpus c now_ns c.num_gpus 0 corr s

  -- The ticks at the given times.
  unfoldable pub run_ticks : SyntheticSampler → List ℕ → ℕ → State → List Push
  unfolding tick
  run_ticks c [] corr s = []
  run_ticks c (now_ns ∷ nows) corr s =
      let (ps, corr', s') = tick c now_ns corr s in ps ++ run_ticks c nows corr' s'

  unfoldable pub run : SyntheticSampler → List ℕ → List Push
  unfolding run_ticks
  run c nows = run_ticks c nows 1 (r.seed_from_u64 c.seed)
