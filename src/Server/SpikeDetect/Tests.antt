-- ===== src/Server/SpikeDetect/Tests.antt =====
-- A series that stands out twice, with calm samples before and between.
use perf_weave.Base.{ℕ, ◌+◌, ◌/◌, ◌^◌, ◌-◌, ◌≡◌, refl, none, List, [], ◌∷◌, ◌++◌, replicate}
use perf_weave.Base.Floats.{Floats, whole_numbers}
use perf_weave.Base.Maps.{lookup, insert}
use perf_weave.Server.FastRing.{SeriesKey, Sample, FastRing}
use perf_weave.Server.SpikeDetect.{run, examine}
use perf_weave.Server.SpikeDetect.Rate.{IsSpaced, times, run-IsSpaced}

-- Whole numbers under the distance, with literals rounded down.
abbrev distances : Floats
distances = record whole_numbers { sub = λ a b. (a - b) + (b - a); lit = λ n k. n / 10 ^ k }

abbrev key : SeriesKey
key = record { node_id = 1; gpu_id = 0; metric_id = 5 }

abbrev at : ℕ → ℕ → Sample
at ts value = record { ts_ns = ts; value = value }

-- The ring at a tick: the last sample, and a slow tail of three.
abbrev ring_at : ℕ → ℕ → FastRing
ring_at ts value = record {
  writer = [];
  published = record {
    series = (key, record { slow = at 1 0 ∷ at 2 1 ∷ at 3 2 ∷ []; fast = at ts value ∷ [] }) ∷ [];
    published_at_ns = ts;
  };
}

abbrev rings : List FastRing
rings =
    replicate 15 (ring_at 1_000_000_000 0)
    ++ ring_at 20_000_000_000 4
      ∷ (replicate 15 (ring_at 22_000_000_000 0) ++ ring_at 40_000_000_000 4 ∷ [])

spikes_test :
    times key (run distances (record { welford = []; last_fired_ts = [] }) rings)
    ≡ 20_000_000_000 ∷ 40_000_000_000 ∷ []
unfolding run examine lookup insert
spikes_test = refl

run-IsSpaced_example : IsSpaced none (20_000_000_000 ∷ 40_000_000_000 ∷ [])
unfolding run examine lookup insert
run-IsSpaced_example = run-IsSpaced distances rings key
