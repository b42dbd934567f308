-- ===== src/Agent/Nvml/Run.antt =====
-- crates/perfweave-agent/src/sampler/nvml.rs, `NvmlSampler::run`: the start of the sampler and its loop.
use perf_weave.Base.{ℕ, zero, suc, ◌+◌, Bool, true, false, Option, none, some, List, [], ◌∷◌, ◌++◌}
use perf_weave.Base.Floats.{Floats}
use perf_weave.Base.Results.{Result, err, ok}
use perf_weave.Base.Text.{Text}
use perf_weave.Proto.{MetricFrame}
use perf_weave.Agent.Nvml.{Device, MetricIds, tick_frames}

-- A turn of the loop: a change of the shutdown flag, or a tick, with the devices that can be opened then.
pub data Turn : Type 0 where
  told : Bool → Turn
  tick : ℕ → (ℕ → Option Device) → Turn

-- `device_by_index` for `n` devices from `idx` on.
pub devices : (ℕ → Option Device) → ℕ → ℕ → List (ℕ × Option Device)
devices device_by_index idx zero = []
devices device_by_index idx (suc n) =
    (idx, device_by_index idx) ∷ devices device_by_index (idx + 1) n

module _ (f : Floats) (node_id : ℕ) (ids : MetricIds) where
  -- The frames that the loop pushes into the ring.
  unfoldable pub turns : ℕ → List Turn → List MetricFrame
  unfolding tick_frames devices
  turns device_count [] = []
  turns device_count (told true ∷ ts) = []
  turns device_count (told false ∷ ts) = turns device_count ts
  turns device_count (tick now_ns device_by_index ∷ ts) =
      tick_frames f (devices device_by_index 0 device_count) now_ns node_id ids
      ++ turns device_count ts

  -- A library that does not start, or does not count its devices, ends the sampler.
  unfoldable pub run : Option Text → Result Text ℕ → List Turn → List MetricFrame
  unfolding turns
  run (some e) device_count ts = []
  run none (err e) ts = []
  run none (ok device_count) ts = turns device_count ts
