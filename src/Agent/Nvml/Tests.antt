-- ===== src/Agent/Nvml/Tests.antt =====
-- A tick with a device that tells little and one that cannot be opened.
use perf_weave.Base.{ℕ, none, some, List, [], ◌∷◌, Option}
use perf_weave.Base.Floats.{whole_numbers}
use perf_weave.Agent.Nvml.{MetricIds, Device, tick_frames}
use perf_weave.Agent.Nvml.Frames.{opened, OfTick, tick_frames_lem}

abbrev quiet : Device
quiet = record {
  utilization_rates = none;
  memory_info = some (5, 6);
  power_usage = some 60_000;
  enforced_power_limit = none;
  clock_info_sm = none;
  clock_info_memory = none;
  temperature = some 40;
  fan_speed = none;
  current_throttle_reasons = none;
}

abbrev counted_ids : MetricIds
counted_ids = record {
  util = 1;
  mem_util = 2;
  mem_used = 3;
  mem_free = 4;
  power = 5;
  power_limit = 6;
  sm_clock = 7;
  mem_clock = 8;
  temp = 9;
  fan = 10;
  throttle = 11;
}

abbrev devices : List (ℕ × Option Device)
devices = (0, none) ∷ (1, some quiet) ∷ []

tick_frames_lem_example :
    OfTick 99 5 counted_ids (opened devices) (tick_frames whole_numbers devices 99 5 counted_ids)
tick_frames_lem_example = tick_frames_lem whole_numbers devices 99 5 counted_ids
