-- ===== src/Agent/Synthetic/Tests.antt =====
-- The synthetic sampler with a generator that always gives the least number.
use Prim.Native.String.{String}
use perf_weave.Base.{ℕ, ◌+◌, ◌*◌, ◌≡◌, ◌≤◌, ◌<◌, refl, Bool, true, false, [], ◌∷◌, map, arith}
use perf_weave.Base.Floats.{whole_numbers}
use perf_weave.Agent.Synthetic.{SyntheticSampler, Push, frame, event, metric_names, tick, run}
use perf_weave.Agent.Synthetic.Rng.{Random}
use perf_weave.Agent.Synthetic.Launches.{GpuPushes, tick-GpuPushes}

least-bounds : (s lo hi : ℕ) → lo < hi → (lo ≤ lo) × (lo < hi)
least-bounds s lo hi h = (omega arith, h)

abbrev least : Random
least = record {
  State = ℕ;
  seed_from_u64 = λ n. n;
  gen_range = λ s lo hi. (lo, s + 1);
  gen_range_f64 = λ s lo hi. (lo, s + 1);
  gen_f64 = λ s. (1, s + 1);
  gen_bool = λ s p. (true, s + 1);
  gamma = λ s shape scale. (shape, s + 1);
  gen_range-bounds = least-bounds;
}

abbrev toy_hash : String → ℕ
toy_hash text = 5

abbrev sampler : SyntheticSampler
sampler = record { num_gpus = 2; metric_hz = 1; node_id = 3; seed = 7; burst = true }

tick-GpuPushes_example :
    let (ps, d, s') = tick toy_hash whole_numbers 6 least sampler 1_000 1 7 in
    GpuPushes 1_000 3 true (map toy_hash metric_names) 2 0 1 ps d × (d ≤ 1 + 31 * 2)
tick-GpuPushes_example =
    tick-GpuPushes toy_hash whole_numbers 6 least sampler 1_000 1 7 (omega arith) (omega arith)

abbrev is_frame : Push → Bool
is_frame (frame m) = true
is_frame (event e) = false

calm_test :
    map is_frame
      (run toy_hash whole_numbers 6 least (record sampler { burst = false }) (1 ∷ 2 ∷ []))
    ≡ true ∷ true ∷ true ∷ true ∷ []
unfolding run
calm_test = refl
