-- ===== src/Agent/Nvml/Frames.antt =====
-- The frames of one tick of the NVML sampler.
use perf_weave.Base.{ℕ, Bool, ◌≡◌, refl, ap, Option, none, some, List, [], ◌∷◌, ◌++◌, if◌then◌else◌}
use perf_weave.Base.Floats.{Floats}
use perf_weave.Base.Words.{F64}
use perf_weave.Proto.{MetricFrame, MetricPoint}
use perf_weave.Agent.Nvml.{
  MetricIds, Device, push_one, push_two, milli, mega, points_of, build_frame, tick_frames,
}
use perf_weave.Agent.Tegra.Points.{ids_of, told, is_some}

-- The devices that could be opened.
abbrev pub opened : List (ℕ × Option Device) → List (ℕ × Device)
opened [] = []
opened (d ∷ devs) =
    let rest = opened devs in elim d.1 [ none ↦ rest | some dev ↦ (d.0, dev) ∷ rest ]

-- The eleven metrics, and whether a device tells them.
abbrev pub eleven : MetricIds → Device → List (ℕ × Bool)
eleven ids dev =
    (ids.util, is_some dev.utilization_rates)
    ∷ (ids.mem_util, is_some dev.utilization_rates)
    ∷ (ids.mem_used, is_some dev.memory_info)
    ∷ (ids.mem_free, is_some dev.memory_info)
    ∷ (ids.power, is_some dev.power_usage)
    ∷ (ids.power_limit, is_some dev.enforced_power_limit)
    ∷ (ids.sm_clock, is_some dev.clock_info_sm)
    ∷ (ids.mem_clock, is_some dev.clock_info_memory)
    ∷ (ids.temp, is_some dev.temperature)
    ∷ (ids.fan, is_some dev.fan_speed)
    ∷ (ids.throttle, is_some dev.current_throttle_reasons)
    ∷ []

-- A frame of the tick for each device in turn: its index, the time and the node, and one point for each
-- metric that the device tells.
abbrev pub OfTick : ℕ → ℕ → MetricIds → List (ℕ × Device) → List MetricFrame → Type 0
OfTick now_ns node_id ids [] [] = Unit
OfTick now_ns node_id ids [] (m ∷ ms) = ⊥
OfTick now_ns node_id ids (d ∷ ds) [] = ⊥
OfTick now_ns node_id ids (d ∷ ds) (m ∷ ms) =
    (m.gpu_id ≡ d.0)
    × (m.ts_ns ≡ now_ns)
    × (m.node_id ≡ node_id)
    × (ids_of m.points ≡ told (eleven ids d.1))
    × OfTick now_ns node_id ids ds ms

module _ (f : Floats) where
  -- One metric more in front.
  one_more :
      (id : ℕ) (value : ℕ → F64) (v : Option ℕ) (qs : List MetricPoint) (l : List ℕ)
      → ids_of qs ≡ l
      → ids_of (push_one f id value v ++ qs) ≡ (if is_some v then id ∷ l else l)
  one_more id value none qs l h = h
  one_more id value (some v) qs l h = ap (◌∷◌ id) h

  two_more :
      (a b : ℕ) (v : Option (ℕ × ℕ)) (qs : List MetricPoint) (l : List ℕ)
      → ids_of qs ≡ l
      → ids_of (push_two f a b v ++ qs)
        ≡ (let rest = if is_some v then b ∷ l else l in if is_some v then a ∷ rest else rest)
  two_more a b none qs l h = h
  two_more a b (some v) qs l h = ap (λ t. a ∷ b ∷ t) h

  last_one :
      (id : ℕ) (value : ℕ → F64) (v : Option ℕ)
      → ids_of (push_one f id value v) ≡ told ((id, is_some v) ∷ [])
  last_one id value none = refl
  last_one id value (some v) = refl

  points_of-told :
      (dev : Device) (ids : MetricIds) → ids_of (points_of f dev ids) ≡ told (eleven ids dev)
  unfolding points_of
  points_of-told dev ids = two_more ids.util ids.mem_util dev.utilization_rates _ _ (
      two_more ids.mem_used ids.mem_free dev.memory_info _ _ (
        one_more ids.power (milli f) dev.power_usage _ _ (
          one_more ids.power_limit (milli f) dev.enforced_power_limit _ _ (
            one_more ids.sm_clock (mega f) dev.clock_info_sm _ _ (
              one_more ids.mem_clock (mega f) dev.clock_info_memory _ _ (
                one_more ids.temp f.of_u64 dev.temperature _ _ (
                  one_more ids.fan f.of_u64 dev.fan_speed _ _
                    (last_one ids.throttle f.of_u64 dev.current_throttle_reasons))))))))

  -- A tick gives one frame for each device that could be opened, in their order and under their index;
  -- each has the time and the node of the tick, and one point for each of the eleven metrics that the
  -- device tells, in their order, and no other.
  pub tick_frames_lem :
      (devs : List (ℕ × Option Device)) (now_ns node_id : ℕ) (ids : MetricIds)
      → OfTick now_ns node_id ids (opened devs) (tick_frames f devs now_ns node_id ids)
  unfolding tick_frames build_frame
  tick_frames_lem [] now_ns node_id ids = tt
  tick_frames_lem ((i, none) ∷ devs) now_ns node_id ids = tick_frames_lem devs now_ns node_id ids
  tick_frames_lem ((i, some dev) ∷ devs) now_ns node_id ids =
      (refl, refl, refl, points_of-told dev ids, tick_frames_lem devs now_ns node_id ids)
