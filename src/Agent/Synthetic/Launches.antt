-- ===== src/Agent/Synthetic/Launches.antt =====
-- The order and the pairing of what the synthetic sampler pushes (synthetic.rs).
use Prim.Native.String.{String}
use perf_weave.Base.{
  ℕ, zero, suc, ◌+◌, ◌*◌, ◌^◌, ◌≤◌, ◌<◌, ◌≡◌, refl, sym, subst, ap, Bool, true, false, Bool-cases,
  inl, inr, List, [], ◌∷◌, ◌++◌, map, arith, if◌then◌else◌,
}
use perf_weave.Base.Floats.{Floats}
use perf_weave.Base.Words.{F64, add_u64}
use perf_weave.Proto.{Event, MetricFrame, MetricPoint, Category, category_num}
use perf_weave.Agent.Synthetic.{
  SyntheticSampler, Push, frame, event, metric_names, points, gamma_us, launch, launches, copy,
  gpu_tick, gpus, tick,
}
use perf_weave.Agent.Synthetic.Rng.{Random}

-- An API call and the kernel that it launches: the same correlation id, GPU and node, the call within a
-- millisecond after `now`, and the kernel at least a microsecond after the end of the call.
pub record IsLaunch (now node gpu corr : ℕ) (a k : Event) : Type 0 where
  pub categories :
      (a.category ≡ category_num Category.api_call) × (k.category ≡ category_num Category.kernel)
  pub ids : (a.correlation_id ≡ corr) × (k.correlation_id ≡ corr)
  pub places : (a.gpu_id ≡ gpu) × (k.gpu_id ≡ gpu) × (a.node_id ≡ node) × (k.node_id ≡ node)
  pub starts : (now ≤ a.ts_ns) × (a.ts_ns < now + 1_000_000)
  pub follows : a.ts_ns + a.duration_ns + 1_000 ≤ k.ts_ns
  pub lasts : 500 ≤ k.duration_ns

-- The pushes for one GPU after its frame, as the correlation id goes from `c` to `d`.
pub data Burst (now node gpu : ℕ) : ℕ → List Push → ℕ → Type 0 where
  ends : (c d : ℕ) → c ≡ d → Burst now node gpu c [] d
  launched :
      {c d : ℕ} {ps : List Push} (a k : Event)
      → IsLaunch now node gpu c a k
      → Burst now node gpu (suc c) ps d
      → Burst now node gpu c (event a ∷ event k ∷ ps) d
  copied :
      {c d : ℕ} {ps : List Push} (e : Event)
      → (e.category ≡ category_num Category.memcpy) × (e.gpu_id ≡ gpu) × (e.node_id ≡ node)
      → Burst now node gpu c ps d
      → Burst now node gpu c (event e ∷ ps) d

-- The frame of a GPU: a point for every metric.
abbrev pub OfMetrics : (now node : ℕ) → List ℕ → (gpu : ℕ) → MetricFrame → Type 0
OfMetrics now node metric_ids gpu m =
    (m.gpu_id ≡ gpu)
    × (m.node_id ≡ node)
    × (m.ts_ns ≡ now)
    × (map (λ (p : MetricPoint). p.metric_id) m.points ≡ metric_ids)

-- The pushes for the GPUs from `gpu` on, `left` of them: a frame each, and a burst if there are bursts.
pub data GpuPushes (now node : ℕ) (bursts : Bool) (metric_ids : List ℕ)
    : ℕ → ℕ → ℕ → List Push → ℕ → Type 0 where
  none_left : (gpu c d : ℕ) → c ≡ d → GpuPushes now node bursts metric_ids zero gpu c [] d
  one_gpu :
      {left gpu c d e : ℕ} {ps qs : List Push} (m : MetricFrame)
      → OfMetrics now node metric_ids gpu m
      → Burst now node gpu c ps d
      → (bursts ≡ false → ps ≡ [])
      → GpuPushes now node bursts metric_ids left (suc gpu) d qs e
      → GpuPushes now node bursts metric_ids (suc left) gpu c ((frame m ∷ ps) ++ qs) e

Burst-append :
    {now node gpu c d e : ℕ} {ps qs : List Push}
    → Burst now node gpu c ps d
    → Burst now node gpu d qs e
    → Burst now node gpu c (ps ++ qs) e
Burst-append {now} {node} {gpu} {c} {d} {e} {ps} {qs} (ends _ _ same) t =
    subst (λ x. Burst now node gpu x qs e) (sym same) t
Burst-append (launched a k l b) t = launched a k l (Burst-append b t)
Burst-append (copied e h b) t = copied e h (Burst-append b t)

module _ (intern_hash : String → ℕ) (f : Floats) (tau : F64) (r : Random) where
  open r use {State, gen_range, gen_range-bounds, gen_bool}

  points-ids :
      (names : List String) (s : State)
      → map (λ (p : MetricPoint). p.metric_id) (points intern_hash f tau r names s).0
        ≡ map intern_hash names
  unfolding points
  points-ids [] s = refl
  points-ids (name ∷ names) s = ap (◌∷◌ (intern_hash name)) (points-ids names _)

  gamma_us-ge :
      (s : State) (mean_us shape : F64) → 500 ≤ (gamma_us intern_hash f tau r s mean_us shape).0
  unfolding gamma_us
  gamma_us-ge s mean_us shape = omega arith

  launch-IsLaunch :
      (c : SyntheticSampler) (now_ns gpu corr : ℕ) (s : State)
      → now_ns + 2 ^ 21 < 2 ^ 64
      → let (a, k, s') = launch intern_hash f tau r c now_ns gpu corr s in
        IsLaunch now_ns c.node_id gpu corr a k
  unfolding launch
  launch-IsLaunch c now_ns gpu corr s h =
      let s2 = (gen_range (gen_range s 0 7).1 0 7).1 in
      let delay = gen_range-bounds s2 0 1_000_000 (omega arith) in
      let s3 = (gen_range s2 0 1_000_000).1 in
      let dur = gen_range-bounds s3 500 5_000 (omega arith) in
      let s4 = (gen_range s3 500 5_000).1 in
      let gap = gen_range-bounds s4 1_000 20_000 (omega arith) in
      let s5 = (gen_range s4 1_000 20_000).1 in
      record {
        categories = (refl, refl);
        ids = (refl, refl);
        places = (refl, refl, refl, refl);
        starts = (omega (arith, delay), omega (arith, delay));
        follows = omega (arith, delay, dur, gap);
        lasts = gamma_us-ge s5 (f.lit 80 0) (f.lit 3 0);
      }

  launches-Burst :
      (c : SyntheticSampler) (now_ns gpu left corr : ℕ) (s : State)
      → now_ns + 2 ^ 21 < 2 ^ 64
      → corr + left < 2 ^ 64
      → let (ps, corr', s') = launches intern_hash f tau r c now_ns gpu left corr s in
        Burst now_ns c.node_id gpu corr ps corr' × (corr' ≡ corr + left)
  unfolding launches
  launches-Burst c now_ns gpu zero corr s h room = (ends corr corr refl, omega arith)
  launches-Burst c now_ns gpu (suc left) corr s h room =
      let (a, k, s') = launch intern_hash f tau r c now_ns gpu corr s in
      let step : add_u64 corr 1 ≡ suc corr = omega arith in
      let (b, n) = launches-Burst c now_ns gpu left (suc corr) s' h (omega arith) in
      rw step (launched a k (launch-IsLaunch c now_ns gpu corr s h) b, omega (arith, n))

  copy-Burst :
      (c : SyntheticSampler) (now_ns gpu corr : ℕ) (s : State)
      → Burst now_ns c.node_id gpu corr (copy intern_hash f tau r c now_ns gpu s).0 corr
  unfolding copy
  copy-Burst c now_ns gpu corr s = elim (Bool-cases (gen_bool s (f.lit 3 1)).0) [
    | inl taken ↦ rw taken (copied _ (refl, refl, refl) (ends corr corr refl))
    | inr none_taken ↦ rw none_taken (ends corr corr refl)
  ]

  -- The parts of what is pushed for one GPU, as the correlation id goes from `corr` to `d`.
  abbrev OneGpu : Bool → (node now gpu corr : ℕ) → List Push → ℕ → Type 0
  OneGpu bursts node now gpu corr ps d =
      (m : MetricFrame) × (tail : List Push) × (ps ≡ frame m ∷ tail)
      × OfMetrics now node (map intern_hash metric_names) gpu m
      × Burst now node gpu corr tail d
      × (bursts ≡ false → tail ≡ [])
      × (d ≤ corr + 31)

  gated-OneGpu :
      (bursts : Bool) (node now gpu corr d : ℕ) (m : MetricFrame) (tail : List Push) (s s' : State)
      → OfMetrics now node (map intern_hash metric_names) gpu m
      → Burst now node gpu corr tail d
      → d ≤ corr + 31
      → let out : List Push × ℕ × State =
          if bursts then (frame m ∷ tail, d, s) else (frame m ∷ [], corr, s') in
        OneGpu bursts node now gpu corr out.0 out.1
  gated-OneGpu true node now gpu corr d m tail s s' facts b few =
      (m, tail, refl, facts, b, (λ e. cc), few)
  gated-OneGpu false node now gpu corr d m tail s s' facts b few =
      (m, [], refl, facts, ends corr corr refl, (λ e. refl), omega arith)

  gpu_tick-OneGpu :
      (c : SyntheticSampler) (now_ns gpu corr : ℕ) (s : State)
      → now_ns + 2 ^ 21 < 2 ^ 64
      → corr + 31 < 2 ^ 64
      → let (ps, d, s') = gpu_tick intern_hash f tau r c now_ns gpu corr s in
        OneGpu c.burst c.node_id now_ns gpu corr ps d
  unfolding gpu_tick
  gpu_tick-OneGpu c now_ns gpu corr s h room =
      let (ps, s1) = points intern_hash f tau r metric_names s in
      let n = gen_range-bounds s1 4 32 (omega arith) in
      let (k, s2) = gen_range s1 4 32 in
      let (b, d) = launches-Burst c now_ns gpu k corr s2 h (omega (arith, n)) in
      let (ls, corr', s3) = launches intern_hash f tau r c now_ns gpu k corr s2 in
      gated-OneGpu c.burst c.node_id now_ns gpu corr corr' _ _ _ s1
        (refl, refl, refl, points-ids metric_names s)
        (Burst-append b (copy-Burst c now_ns gpu corr' s3)) (omega (arith, n, d))

  gpus-GpuPushes :
      (c : SyntheticSampler) (now_ns left gpu corr : ℕ) (s : State)
      → now_ns + 2 ^ 21 < 2 ^ 64
      → corr + 31 * left < 2 ^ 64
      → let (ps, d, s') = gpus intern_hash f tau r c now_ns left gpu corr s in
        GpuPushes now_ns c.node_id c.burst (map intern_hash metric_names) left gpu corr ps d
        × (d ≤ corr + 31 * left)
  unfolding gpus
  gpus-GpuPushes c now_ns zero gpu corr s h room = (none_left gpu corr corr refl, omega arith)
  gpus-GpuPushes c now_ns (suc left) gpu corr s h room =
      let (ps, corr', s') = gpu_tick intern_hash f tau r c now_ns gpu corr s in
      let (m, tail, e, facts, b, calm, few) = gpu_tick-OneGpu c now_ns gpu corr s h (omega arith) in
      let (rest, more) = gpus-GpuPushes c now_ns left (suc gpu) corr' s' h (omega (arith, few)) in
      (rw e (one_gpu m facts b calm rest), omega (arith, few, more))

  -- At a tick, before times and correlation ids run out: every GPU in turn gets its frame, with the node,
  -- the time and a point for each of the six metrics in order, and then, only if the sampler bursts, its
  -- API calls, each directly followed by the kernel that it launches, under one correlation id that counts
  -- on from the one before, and copies.
  pub tick-GpuPushes :
      (c : SyntheticSampler) (now_ns corr : ℕ) (s : State)
      → now_ns + 2 ^ 21 < 2 ^ 64
      → corr + 31 * c.num_gpus < 2 ^ 64
      → let (ps, d, s') = tick intern_hash f tau r c now_ns corr s in
        GpuPushes now_ns c.node_id c.burst (map intern_hash metric_names) c.num_gpus 0 corr ps d
        × (d ≤ corr + 31 * c.num_gpus)
  unfolding tick
  tick-GpuPushes c now_ns corr s h room = gpus-GpuPushes c now_ns c.num_gpus 0 corr s h room
