-- ===== src/Agent/Nvml.antt =====
-- crates/perfweave-agent/src/sampler/nvml.rs: the points of one GPU at one tick. The readings of the
-- library are a parameter.
pub mod Frames
pub mod Run
mod Tests
use Prim.Native.String.{String}
use perf_weave.Base.{
  ℕ, ◌≡◌, Option, none, some, List, [], ◌∷◌, ◌++◌, Subseq, none_left, skip, keep, Subseq-nil,
}
use perf_weave.Base.Floats.{Floats}
use perf_weave.Base.Words.{F64}
use perf_weave.Proto.{MetricFrame, MetricPoint}

pub record MetricIds : Type 0 where
  pub util : ℕ
  pub mem_util : ℕ
  pub mem_used : ℕ
  pub mem_free : ℕ
  pub power : ℕ
  pub power_limit : ℕ
  pub sm_clock : ℕ
  pub mem_clock : ℕ
  pub temp : ℕ
  pub fan : ℕ
  pub throttle : ℕ

abbrev pub metric_ids_of : (String → ℕ) → MetricIds
metric_ids_of intern_hash = record {
  util = intern_hash "gpu.util.percent";
  mem_util = intern_hash "gpu.mem.util.percent";
  mem_used = intern_hash "gpu.mem.used.bytes";
  mem_free = intern_hash "gpu.mem.free.bytes";
  power = intern_hash "gpu.power.watts";
  power_limit = intern_hash "gpu.power.limit.watts";
  sm_clock = intern_hash "gpu.sm.clock.hz";
  mem_clock = intern_hash "gpu.mem.clock.hz";
  temp = intern_hash "gpu.temp.celsius";
  fan = intern_hash "gpu.fan.percent";
  throttle = intern_hash "gpu.throttle.reasons.bitmask";
}

-- The answers of a device; a call that fails gives `none`.
pub record Device : Type 0 where
  pub utilization_rates : Option (ℕ × ℕ)
  pub memory_info : Option (ℕ × ℕ)
  pub power_usage : Option ℕ
  pub enforced_power_limit : Option ℕ
  pub clock_info_sm : Option ℕ
  pub clock_info_memory : Option ℕ
  pub temperature : Option ℕ
  pub fan_speed : Option ℕ
  pub current_throttle_reasons : Option ℕ

module _ (f : Floats) where
  abbrev pub push : ℕ → F64 → List MetricPoint
  push metric_id v = record { metric_id = metric_id; value = v } ∷ []

  abbrev pub push_one : ℕ → (ℕ → F64) → Option ℕ → List MetricPoint
  push_one metric_id value none = []
  push_one metric_id value (some v) = push metric_id (value v)

  abbrev pub push_two : ℕ → ℕ → Option (ℕ × ℕ) → List MetricPoint
  push_two first second none = []
  push_two first second (some v) = push first (f.of_u64 v.0) ++ push second (f.of_u64 v.1)

  abbrev pub milli : ℕ → F64
  milli p = f.div (f.of_u64 p) (f.lit 1_000 0)

  abbrev pub mega : ℕ → F64
  mega c = f.mul (f.of_u64 c) (f.lit 1_000_000 0)

  unfoldable pub points_of : Device → MetricIds → List MetricPoint
  points_of dev ids =
      push_two ids.util ids.mem_util dev.utilization_rates
      ++ (push_two ids.mem_used ids.mem_free dev.memory_info
          ++ (push_one ids.power milli dev.power_usage
              ++ (push_one ids.power_limit milli dev.enforced_power_limit
                  ++ (push_one ids.sm_clock mega dev.clock_info_sm
                      ++ (push_one ids.mem_clock mega dev.clock_info_memory
                          ++ (push_one ids.temp f.of_u64 dev.temperature
                              ++ (push_one ids.fan f.of_u64 dev.fan_speed
                                  ++ push_one ids.throttle f.of_u64
                                      dev.current_throttle_reasons)))))))

  unfoldable pub build_frame : Device → ℕ → ℕ → ℕ → MetricIds → MetricFrame
  unfolding points_of
  build_frame dev now_ns gpu_id node_id ids = record {
    node_id = node_id;
    gpu_id = gpu_id;
    ts_ns = now_ns;
    points = points_of dev ids;
  }

  -- The loop over the devices at one tick; one that cannot be opened is passed over.
  unfoldable pub tick_frames : List (ℕ × Option Device) → ℕ → ℕ → MetricIds → List MetricFrame
  unfolding build_frame
  tick_frames [] now_ns node_id ids = []
  tick_frames (d ∷ devs) now_ns node_id ids =
      let rest = tick_frames devs now_ns node_id ids in
      elim d.1 [ none ↦ rest | some dev ↦ build_frame dev now_ns d.0 node_id ids ∷ rest ]
