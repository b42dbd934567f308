-- ===== src/Agent/Tegra/Tests.antt =====
-- Runs of the Tegra sampler on a small file system.
use perf_weave.Base.{◌*◌, ◌≡◌, refl, true, false, none, some, [], if◌then◌else◌}
use perf_weave.Base.Text.{codes, text_beq, trim_start, is_whitespace}
use perf_weave.Base.Text.Decimal.{parse, scan}
use perf_weave.Base.Text.Lines.{first_word, lines, to_ascii_lowercase}
use perf_weave.Base.Text.Parts.{split}
use perf_weave.Agent.Tegra.{Fs, DiscoveredPaths, is_tegra, scan_meminfo, read_meminfo}
use perf_weave.Agent.Tegra.Frame.{MetricIds}

abbrev small_fs : Fs
small_fs = record {
  read_to_string = λ p.
      if text_beq p (codes "/proc/meminfo")
      then some (codes "MemTotal:        1000 kB\nMemFree:  7 kB\nMemAvailable:  400 kB\n")
      else if text_beq p (codes "/proc/device-tree/model")
      then some (codes "NVIDIA Jetson AGX Orin")
      else if text_beq p (codes "/load")
      then some (codes "250\n")
      else none;
  exists = λ p. text_beq p (codes "/load");
  read_dir = λ p. none;
}

read_meminfo_test : read_meminfo small_fs ≡ some (600 * 1_024, 400 * 1_024)
unfolding read_meminfo scan_meminfo lines split first_word trim_start is_whitespace parse scan
read_meminfo_test = refl

is_tegra_test : is_tegra false small_fs ≡ true
unfolding is_tegra to_ascii_lowercase
is_tegra_test = refl

abbrev found : DiscoveredPaths
found = record {
  gpu_clock = none;
  gpu_load = some (codes "/load");
  temp_zones = [];
  power_rails = [];
}

abbrev six_ids : MetricIds
six_ids = record { util = 1; sm_clock = 2; mem_used = 3; mem_free = 4; power_total = 5; temp = 6 }
