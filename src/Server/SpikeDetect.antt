-- ===== src/Server/SpikeDetect.antt =====
-- crates/perfweave-server/src/spike_detect.rs: spikes in the live series, by a running z-score and then
-- by the median of the slow tail. The float operations are a parameter.
pub mod Rate
mod Tests
use perf_weave.Base.{
  ℕ, ◌+◌, ◌-◌, ◌/◌, ◌%◌, Bool, true, false, ◌||◌, Option, none, some, List, [], ◌∷◌, ◌++◌, map, ltb,
  leb, if◌then◌else◌, length, get_or, get_last?, is_empty,
}
use perf_weave.Base.Words.{add_u64, saturating_sub, F64, u8_mod}
use perf_weave.Base.Floats.{Floats, sort}
use perf_weave.Base.Maps.{lookup, insert}
use perf_weave.Server.FastRing.{
  SeriesKey, series_key_eq, SeriesSnapshot, FastRing, for_each_series, snapshot,
}
use perf_weave.Server.Sink.Rows.{SpikeRow}

pub record Welford : Type 0 where
  pub n : ℕ
  pub mean : F64
  pub m2 : F64

abbrev pub default : Welford
default = record { n = 0; mean = 0; m2 = 0 }

pub record SpikeEvent : Type 0 where
  pub bucket_start_ns : ℕ
  pub bucket_width_ns : ℕ
  pub node_id : ℕ
  pub gpu_id : ℕ
  pub metric_id : ℕ
  pub value : F64
  pub median : F64
  pub mad : F64
  pub z_mad : F64

abbrev pub row_of_spike : SpikeEvent → SpikeRow
row_of_spike ev = record {
  bucket_start_ns = ev.bucket_start_ns;
  bucket_width_ns = ev.bucket_width_ns;
  node_id = ev.node_id;
  gpu_id = ev.gpu_id % u8_mod;
  metric_id = ev.metric_id;
  value = ev.value;
  median = ev.median;
  mad = ev.mad;
  z_mad = ev.z_mad;
}

-- The two maps of `run`.
pub record Detector : Type 0 where
  pub welford : List (SeriesKey × Welford)
  pub last_fired_ts : List (SeriesKey × ℕ)

-- One entry of `work`.
pub record Work : Type 0 where
  pub key : SeriesKey
  pub value : F64
  pub snap : SeriesSnapshot

-- The closure that gathers the work.
abbrev pub gather : List Work → SeriesKey → SeriesSnapshot → List Work
gather work k snap = elim (get_last? snap.fast) [
  | none ↦ work
  | some latest ↦ work ++ record { key = k; value = latest.value; snap = snap } ∷ []
]

-- The gathered work of a tick.
unfoldable pub work_of : FastRing → List Work
unfolding for_each_series
work_of ring = for_each_series gather [] (snapshot ring).series

-- The test of the rate limit against the last time that the series fired.
abbrev pub too_soon : Option ℕ → ℕ → Bool
too_soon none latest_ts = false
too_soon (some prev) latest_ts = ltb (saturating_sub latest_ts prev) 10_000_000_000

module _ (f : Floats) where
  unfoldable pub update : Welford → F64 → Welford
  update w x =
      let n = add_u64 w.n 1 in
      let delta = f.sub x w.mean in
      let mean = f.add w.mean (f.div delta (f.of_u64 n)) in
      record { n = n; mean = mean; m2 = f.add w.m2 (f.mul delta (f.sub x mean)) }

  abbrev pub sigma : Welford → F64
  sigma w = if ltb w.n 2 then 0 else f.sqrt (f.div w.m2 (f.of_u64 (w.n - 1)))

  unfoldable pub median_and_mad : SeriesSnapshot → F64 × F64
  median_and_mad snap =
      if is_empty snap.slow
      then (0, 0)
      else (let values = sort f (map (λ s. s.value) snap.slow) in
          let median = get_or values (length values / 2) 0 in
          let dev = sort f (map (λ v. f.abs (f.sub v median)) values) in
          (median, f.mul (get_or dev (length dev / 2) 0) (f.lit 14_826 4)))

  -- The tests of the body of the loop before the rate limit, `true` if the value stands out.
  unfoldable pub stands_out : Welford → F64 → F64 → F64 → F64 → Bool
  stands_out w x median mad z_mad =
      let s = sigma w in
      let z = if f.lt 0 s then f.div (f.abs (f.sub x w.mean)) s else 0 in
      if f.le z (f.lit 30 1) || ltb w.n 16
      then false
      else if f.le mad 0
      then false
      else if f.lt z_mad (f.lit 35 1)
      then false
      else true

  -- `entry(k).or_default()` and `update`.
  abbrev pub updated : Detector → Work → Welford
  updated d w = update (elim (lookup w.key d.welford) [ none ↦ default | some v ↦ v ]) w.value

  abbrev pub latest_ts : Work → ℕ
  latest_ts w = elim (get_last? w.snap.fast) [ none ↦ 0 | some s ↦ s.ts_ns ]

  -- The body of the loop over the work: the maps, and the spike that is stored and broadcast.
  unfoldable pub examine : Detector → Work → Detector × Option SpikeEvent
  unfolding update median_and_mad stands_out
  examine d w =
      let v = updated d w in
      let d' : Detector = record d { welford = insert w.key v d.welford } in
      let (median, mad) = median_and_mad w.snap in
      let z_mad = f.div (f.abs (f.sub w.value median)) mad in
      if stands_out v w.value median mad z_mad
      then (if too_soon (lookup w.key d.last_fired_ts) (latest_ts w) then (d', none) else (
        record d' { last_fired_ts = insert w.key (latest_ts w) d.last_fired_ts },
        some (record {
          bucket_start_ns = latest_ts w;
          bucket_width_ns = 1_000_000_000;
          node_id = w.key.node_id;
          gpu_id = w.key.gpu_id;
          metric_id = w.key.metric_id;
          value = w.value;
          median = median;
          mad = mad;
          z_mad = z_mad;
        }),
      ))
      else (d', none)

  unfoldable pub examine_all : Detector → List Work → Detector × List SpikeEvent
  examine_all d [] = (d, [])
  examine_all d (w ∷ ws) =
      let (d', fired) = examine d w in
      let (d'', more) = examine_all d' ws in (d'', elim fired [ none ↦ more | some ev ↦ ev ∷ more ])

  unfoldable pub tick_once : Detector → FastRing → Detector × List SpikeEvent
  unfolding examine_all work_of
  tick_once d ring = examine_all d (work_of ring)

  -- The loop of `run`: at each tick the ring is as it is then.
  unfoldable pub run : Detector → List FastRing → List SpikeEvent
  unfolding tick_once
  run d [] = []
  run d (ring ∷ rings) = let (d', fired) = tick_once d ring in fired ++ run d' rings
