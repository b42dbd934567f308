-- ===== src/Agent/Tegra/Frame.antt =====
-- `build_frame`: the points of one tick.
use Prim.Native.String.{String}
use perf_weave.Base.{ℕ, Option, none, some, List, [], ◌∷◌, ◌++◌, if◌then◌else◌}
use perf_weave.Base.Floats.{Floats}
use perf_weave.Base.Text.{Text, codes, trim}
use perf_weave.Base.Text.Lines.{contains, to_ascii_lowercase}
use perf_weave.Base.Words.{F64}
use perf_weave.Proto.{MetricFrame, MetricPoint}
use perf_weave.Agent.Tegra.{Fs, DiscoveredPaths, read_meminfo}

pub record MetricIds : Type 0 where
  pub util : ℕ
  pub sm_clock : ℕ
  pub mem_used : ℕ
  pub mem_free : ℕ
  pub power_total : ℕ
  pub temp : ℕ

abbrev pub metric_ids_of : (String → ℕ) → MetricIds
metric_ids_of intern_hash = record {
  util = intern_hash "gpu.util.percent";
  sm_clock = intern_hash "gpu.sm.clock.hz";
  mem_used = intern_hash "gpu.mem.used.bytes";
  mem_free = intern_hash "gpu.mem.free.bytes";
  power_total = intern_hash "soc.power.watts";
  temp = intern_hash "gpu.temp.celsius";
}

abbrev pub point : ℕ → F64 → MetricPoint
point metric_id value = record { metric_id = metric_id; value = value }

module _ (f : Floats) (parse_f64 : Text → Option F64) (fs : Fs) where
  -- `read_num::<f64>`.
  abbrev pub read_num : Text → Option F64
  read_num path = elim (fs.read_to_string path) [ none ↦ none | some raw ↦ parse_f64 (trim raw) ]

  abbrev pub read_at : Option Text → Option F64
  read_at none = none
  read_at (some p) = read_num p

  -- A point, if there is a value.
  abbrev pub point_of : ℕ → Option F64 → List MetricPoint
  point_of metric_id none = []
  point_of metric_id (some v) = point metric_id v ∷ []

  abbrev pub scaled : ℕ → Option F64 → Option F64
  scaled n none = none
  scaled n (some v) = some (f.div v (f.lit n 0))

  abbrev pub hotter : Option F64 → F64 → F64
  hotter none v = v
  hotter (some a) v = f.fmax a v

  abbrev pub hottest_with : Option F64 → Option F64 → Option F64
  hottest_with acc none = acc
  hottest_with acc (some v) = some (hotter acc v)

  -- The fold over the zones that are named after the GPU.
  unfoldable pub gpu_temp : List (Text × Text) → Option F64 → Option F64
  gpu_temp [] acc = acc
  gpu_temp (z ∷ zones) acc =
      let next = hottest_with acc (scaled 1_000 (read_num z.1)) in
      if contains (to_ascii_lowercase z.0) (codes "gpu")
      then gpu_temp zones next
      else gpu_temp zones acc

  -- The sum of the rails that can be read.
  unfoldable pub total_mw : List (Text × Text) → F64 → F64
  total_mw [] acc = acc
  total_mw (r ∷ rails) acc = elim (read_num r.1) [
    | none ↦ total_mw rails acc
    | some v ↦ total_mw rails (f.add acc v)
  ]

  abbrev pub memory_points : MetricIds → Option (ℕ × ℕ) → List MetricPoint
  memory_points ids none = []
  memory_points ids (some m) =
      point ids.mem_used (f.of_u64 m.0) ∷ point ids.mem_free (f.of_u64 m.1) ∷ []

  abbrev pub power_points : MetricIds → F64 → List MetricPoint
  power_points ids mw =
      if f.lt (f.lit 0 0) mw then point ids.power_total (f.div mw (f.lit 1_000 0)) ∷ [] else []

  unfoldable pub points_of : DiscoveredPaths → MetricIds → List MetricPoint
  unfolding gpu_temp total_mw
  points_of paths ids =
      point_of ids.util (scaled 10 (read_at paths.gpu_load))
      ++ (point_of ids.sm_clock (read_at paths.gpu_clock)
          ++ (point_of ids.temp (gpu_temp paths.temp_zones none)
              ++ (memory_points ids (read_meminfo fs)
                  ++ power_points ids (total_mw paths.power_rails (f.lit 0 0)))))

  unfoldable pub build_frame : DiscoveredPaths → MetricIds → ℕ → ℕ → MetricFrame
  unfolding points_of
  build_frame paths ids now_ns node_id = record {
    node_id = node_id;
    gpu_id = 0;
    ts_ns = now_ns;
    points = points_of paths ids;
  }
