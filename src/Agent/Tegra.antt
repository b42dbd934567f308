-- ===== src/Agent/Tegra.antt =====
-- crates/perfweave-agent/src/sampler/tegra.rs: the sampler of Jetson boards, which reads files. The file
-- system, the parser of floats and the hash of the interner are parameters.
pub mod Discovered
pub mod Frame
pub mod Points
mod Tests
use Prim.Native.String.{String}
use perf_weave.Base.{
  ℕ, ◌-◌, ◌*◌, ◌%◌, Bool, true, false, ◌&&◌, ◌||◌, not, Option, none, some, List, [], ◌∷◌, ◌++◌,
  filter, if◌then◌else◌,
}
use perf_weave.Base.Floats.{Floats}
use perf_weave.Base.Text.{Text, codes, trim}
use perf_weave.Base.Text.Decimal.{parse, to_string}
use perf_weave.Base.Text.Lines.{
  lines, strip_prefix, starts_with, contains, first_word, to_ascii_lowercase,
}
use perf_weave.Base.Text.Parts.{concat}
use perf_weave.Base.Words.{F64, saturating_sub, u64_mod}
use perf_weave.Proto.{MetricFrame, MetricPoint}

-- An entry of a directory; a name that is no text is missing.
pub record DirEntry : Type 0 where
  pub path : Text
  pub file_name : Option Text

-- `read_to_string`, `exists` and `read_dir`, at one moment.
pub record Fs : Type 0 where
  pub read_to_string : Text → Option Text
  pub exists : Text → Bool
  pub read_dir : Text → Option (List DirEntry)

-- `Path::join` of a relative path.
abbrev pub path_join : Text → String → Text
path_join p name = concat (p ∷ codes "/" ∷ codes name ∷ [])

-- `forced` says whether the variable PERFWEAVE_FORCE_TEGRA is set.
unfoldable pub is_tegra : Bool → Fs → Bool
is_tegra forced fs =
    if forced then true else elim (fs.read_to_string (codes "/proc/device-tree/model")) [
      | none ↦ false
      | some model ↦
          let m = to_ascii_lowercase model in
          contains m (codes "nvidia")
          && (contains m (codes "orin")
              || contains m (codes "xavier")
              || contains m (codes "jetson"))
    ]

pub record DiscoveredPaths : Type 0 where
  pub gpu_clock : Option Text
  pub gpu_load : Option Text
  pub temp_zones : List (Text × Text)
  pub power_rails : List (Text × Text)

abbrev pub devfreq_gpu_candidates : List Text
devfreq_gpu_candidates =
    codes "/sys/class/devfreq/17000000.gv11b"
    ∷ codes "/sys/class/devfreq/17000000.gp10b"
    ∷ codes "/sys/class/devfreq/57000000.gpu"
    ∷ codes "/sys/class/devfreq/13000000.gpu"
    ∷ []

module _ (fs : Fs) where
  abbrev pub when_exists : Text → Option Text
  when_exists p = if fs.exists p then some p else none

  abbrev pub or_else : Option Text → Option Text → Option Text
  or_else none d = d
  or_else (some p) d = some p

  -- The loop over the candidates: the clock and the load of the first that exists.
  unfoldable pub gpu_nodes : List Text → Option Text × Option Text
  gpu_nodes [] = (none, none)
  gpu_nodes (root ∷ roots) =
      let rest = gpu_nodes roots in
      if fs.exists root
      then (
        when_exists (path_join root "cur_freq"),
        or_else (when_exists (path_join (path_join root "device") "load"))
            (when_exists (path_join root "load")),
      )
      else rest

  abbrev pub is_interesting : Text → Bool
  is_interesting tl =
      contains tl (codes "gpu")
      || contains tl (codes "cpu")
      || contains tl (codes "soc")
      || contains tl (codes "tj")

  abbrev pub is_zone : Option Text → Bool
  is_zone none = false
  is_zone (some name) = starts_with name (codes "thermal_zone")

  -- The zone of one entry, if it is kept.
  unfoldable pub zone_of : DirEntry → Option (Text × Text)
  zone_of e =
      let type_path = path_join e.path "type" in
      let temp_path = path_join e.path "temp" in
      if not (is_zone e.file_name)
      then none
      else if not (fs.exists type_path) || not (fs.exists temp_path)
      then none
      else elim (fs.read_to_string type_path) [
        | none ↦ none
        | some raw ↦
            let t = trim raw in
            if is_interesting (to_ascii_lowercase t) then some (t, temp_path) else none
      ]

  unfoldable pub thermal_zones : List DirEntry → List (Text × Text)
  unfolding zone_of
  thermal_zones [] = []
  thermal_zones (e ∷ es) =
      let rest = thermal_zones es in elim (zone_of e) [ none ↦ rest | some z ↦ z ∷ rest ]

  abbrev pub rail_label : ℕ → Option Text → Text
  rail_label idx none = concat (codes "rail" ∷ to_string idx ∷ [])
  rail_label idx (some s) = trim s

  -- The loop over the channels of one monitor.
  unfoldable pub rails_of : Text → List ℕ → List (Text × Text)
  rails_of hwp [] = []
  rails_of hwp (idx ∷ more) =
      let val = concat (hwp ∷ codes "/in_power" ∷ to_string idx ∷ codes "_input" ∷ []) in
      let lab = concat (hwp ∷ codes "/in_label" ∷ to_string idx ∷ []) in
      let rest = rails_of hwp more in
      if fs.exists val then (rail_label idx (fs.read_to_string lab), val) ∷ rest else rest

  abbrev pub channels : List ℕ
  channels = 0 ∷ 1 ∷ 2 ∷ 3 ∷ 4 ∷ 5 ∷ 6 ∷ 7 ∷ []

  unfoldable pub monitor_rails : List DirEntry → List (Text × Text)
  unfolding rails_of
  monitor_rails [] = []
  monitor_rails (hw ∷ hws) = rails_of hw.path channels ++ monitor_rails hws

  unfoldable pub device_rails : List DirEntry → List (Text × Text)
  unfolding monitor_rails
  device_rails [] = []
  device_rails (dev ∷ devs) =
      let rest = device_rails devs in
      elim (fs.read_dir (path_join dev.path "hwmon")) [
        | none ↦ rest
        | some hws ↦ monitor_rails hws ++ rest
      ]

  abbrev pub entries : Option (List DirEntry) → List DirEntry
  entries none = []
  entries (some es) = es

  unfoldable pub discover_paths : DiscoveredPaths
  unfolding gpu_nodes thermal_zones device_rails
  discover_paths = record {
    gpu_clock = (gpu_nodes devfreq_gpu_candidates).0;
    gpu_load = (gpu_nodes devfreq_gpu_candidates).1;
    temp_zones = thermal_zones (entries (fs.read_dir (codes "/sys/class/thermal")));
    power_rails = device_rails (entries (fs.read_dir (codes "/sys/bus/i2c/drivers/ina3221")));
  }

  -- The first word behind the label, read as a `u64`.
  abbrev pub kilobytes : Text → Option ℕ
  kilobytes rest = elim (first_word rest) [ none ↦ none | some v ↦ parse (u64_mod - 1) v ]

  -- The loop over the lines, with `total_kb` and `free_kb`.
  unfoldable pub scan_meminfo : List Text → Option ℕ → Option ℕ → Option ℕ × Option ℕ
  scan_meminfo [] total free = (total, free)
  scan_meminfo (line ∷ more) total free = elim (strip_prefix (codes "MemTotal:") line) [
    | some rest ↦ scan_meminfo more (kilobytes rest) free
    | none ↦ elim (strip_prefix (codes "MemAvailable:") line) [
      | some rest ↦ scan_meminfo more total (kilobytes rest)
      | none ↦ scan_meminfo more total free
    ]
  ]

  -- Used and free bytes; the products wrap.
  abbrev pub used_free : Option ℕ → Option ℕ → Option (ℕ × ℕ)
  used_free (some t) (some f) = some (saturating_sub t f * 1_024 % u64_mod, f * 1_024 % u64_mod)
  used_free none f = none
  used_free (some t) none = none

  unfoldable pub read_meminfo : Option (ℕ × ℕ)
  unfolding scan_meminfo
  read_meminfo = elim (fs.read_to_string (codes "/proc/meminfo")) [
    | none ↦ none
    | some s ↦ let r = scan_meminfo (lines s) none none in used_free r.0 r.1
  ]
