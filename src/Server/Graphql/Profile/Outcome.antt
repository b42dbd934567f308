-- ===== src/Server/Graphql/Profile/Outcome.antt =====
-- The ways in which a replay request can end.
use Prim.Native.String.{String}
use mathlib.Core.List.{append-nil, append_assoc}
use perf_weave.Base.{
  ℕ, ◌+◌, ◌%◌, ◌<◌, ◌≡◌, ◌⊎◌, inl, inr, refl, sym, ◌∙◌, Bool, true, false, Option, List, [], ◌∷◌,
  ◌++◌, map, length, arith, if◌then◌else◌,
}
use perf_weave.Base.Floats.{Floats}
use perf_weave.Base.Results.{Result, err, ok, Result-cases}
use perf_weave.Base.Text.{Text, codes}
use perf_weave.Base.Text.Parts.{concat}
use perf_weave.Base.Words.{u32_mod, add_u32}
use perf_weave.Proto.{Getters, KernelSol}
use perf_weave.Server.Graphql.Profile.{
  Names, Transport, refusal, replay_kernels, Progress, no_progress, kernel_sol_to_row, collect,
  request_of, profile_kernels,
}
use perf_weave.Server.Graphql.Rows.{ProfileKernelsAck}
use perf_weave.Server.Registry.{AgentRegistry, Target, ReplayError, replay_target}
use perf_weave.Server.Sink.Loop.{SinkMsg}

-- The cards that a stream carries before its first error.
abbrev pub received : {Status : Type 0} → List (Result Status KernelSol) → List KernelSol
received [] = []
received (err e ∷ msgs) = []
received (ok sol ∷ msgs) = sol ∷ received msgs

-- The messages that the sink's queue takes, from round `k` on.
abbrev pub taken : (ℕ → Bool) → ℕ → ℕ → List KernelSol → List SinkMsg
taken takes node_id k [] = []
taken takes node_id k (s ∷ ss) =
    let rest = taken takes node_id (k + 1) ss in
    if takes k then SinkMsg.kernel_sol node_id s ∷ rest else rest

Target-cases :
    (t : Target)
    → ((e : ReplayError) × (t ≡ Target.refuse e)) ⊎ ((a : String) × (t ≡ Target.call a))
Target-cases (Target.refuse e) = inl (e, refl)
Target-cases (Target.call a) = inr (a, refl)

taken_first {ℓ} :
    {A : Type ℓ} (b : Bool) (q : List A) (m : A) (rest : List A)
    → (if b then q ++ m ∷ [] else q) ++ rest ≡ q ++ (if b then m ∷ rest else rest)
taken_first true q m rest = append_assoc q (m ∷ []) rest
taken_first false q m rest = refl

module _ (g : Getters) (f : Floats) (names : Names) {Status : Type 0} (takes : ℕ → Bool)
    (node_id : ℕ) where
  collect-completed :
      (k : ℕ) (p : Progress) (msgs : List (Result Status KernelSol))
      → p.completed < u32_mod
      → (collect g f names takes node_id k p msgs).completed
        ≡ (p.completed + length (received msgs)) % u32_mod
  unfolding collect
  collect-completed k p [] h = omega arith
  collect-completed k p (err e ∷ msgs) h = omega arith
  collect-completed k p (ok sol ∷ msgs) h =
      let p' : Progress = record {
        completed = add_u32 p.completed 1;
        results = p.results ++ kernel_sol_to_row g f names sol ∷ [];
        queued = if takes k then p.queued ++ SinkMsg.kernel_sol node_id sol ∷ [] else p.queued;
      } in
      let ih = collect-completed (k + 1) p' msgs (omega arith) in ih ∙ omega arith

  collect-results :
      (k : ℕ) (p : Progress) (msgs : List (Result Status KernelSol))
      → (collect g f names takes node_id k p msgs).results
        ≡ p.results ++ map (kernel_sol_to_row g f names) (received msgs)
  unfolding collect
  collect-results k p [] = sym (append-nil p.results)
  collect-results k p (err e ∷ msgs) = sym (append-nil p.results)
  collect-results k p (ok sol ∷ msgs) = simp (collect-results (k + 1) _ msgs, append_assoc)

  collect-queued :
      (k : ℕ) (p : Progress) (msgs : List (Result Status KernelSol))
      → (collect g f names takes node_id k p msgs).queued
        ≡ p.queued ++ taken takes node_id k (received msgs)
  unfolding collect
  collect-queued k p [] = sym (append-nil p.queued)
  collect-queued k p (err e ∷ msgs) = sym (append-nil p.queued)
  collect-queued k p (ok sol ∷ msgs) =
      collect-queued (k + 1) _ msgs
      ∙ taken_first (takes k) p.queued (SinkMsg.kernel_sol node_id sol)
          (taken takes node_id (k + 1) (received msgs))

  pub acknowledged :
      (msgs : List (Result Status KernelSol))
      → let p = collect g f names takes node_id 0 no_progress msgs in
        (p.completed ≡ length (received msgs) % u32_mod)
        × (p.results ≡ map (kernel_sol_to_row g f names) (received msgs))
        × (p.queued ≡ taken takes node_id 0 (received msgs))
  acknowledged msgs = (
    omega (arith, collect-completed 0 no_progress msgs (omega arith)),
    collect-results 0 no_progress msgs,
    collect-queued 0 no_progress msgs,
  )

module _ (g : Getters) (f : Floats) (names : Names) {Status : Type 0} (t : Transport Status)
    (takes : ℕ → Bool) (agents : AgentRegistry) (node_id gpu_id window_start_ns window_end_ns : ℕ)
    (ids : List ℕ) (timeout_ms : Option ℕ) where
  -- What each end of the mutation tells: its answer, and the messages that the sink's queue has taken.
  pub data Profiled : Result Text ProfileKernelsAck → List SinkMsg → Type 1 where
    refused :
        (e : ReplayError)
        → replay_target agents node_id ≡ Target.refuse e
        → Profiled (err (concat (codes "profile_kernels: " ∷ refusal e ∷ []))) []
    unreachable :
        (addr : String) (e : Text)
        → replay_target agents node_id ≡ Target.call addr
        → t.connect addr ≡ err e
        → Profiled (err (concat (codes "profile_kernels: " ∷ e ∷ []))) []
    rejected :
        (addr : String) (client : t.Client) (e : Text)
        → replay_target agents node_id ≡ Target.call addr
        → t.connect addr ≡ ok client
        → t.call client (request_of g f names gpu_id window_start_ns window_end_ns ids timeout_ms)
          ≡ err e
        → Profiled (err (concat (codes "profile_kernels: " ∷ e ∷ []))) []
    answered :
        (addr : String) (client : t.Client) (msgs : List (Result Status KernelSol))
        → replay_target agents node_id ≡ Target.call addr
        → t.connect addr ≡ ok client
        → t.call client (request_of g f names gpu_id window_start_ns window_end_ns ids timeout_ms)
          ≡ ok msgs
        → Profiled
            (ok record {
              node_id = node_id;
              requested = length ids % u32_mod;
              completed = length (received msgs) % u32_mod;
              results = map (kernel_sol_to_row g f names) (received msgs);
            })
            (taken takes node_id 0 (received msgs))

  -- A replay ends in one of four ways. The node is unknown or gave no address, the agent cannot be
  -- reached, or it rejects the call: then the answer is the error's text behind the mutation's name, and
  -- nothing is queued. Else the answer has the rows of all the cards before the stream's first error, in
  -- order and counted, and the sink's queue has those of them that it takes.
  pub profile_kernels-Profiled :
      let done =
        profile_kernels g f names t takes agents node_id gpu_id window_start_ns window_end_ns ids
          timeout_ms in
      Profiled done.0 done.1
  unfolding profile_kernels replay_kernels
  profile_kernels-Profiled =
      let req = request_of g f names gpu_id window_start_ns window_end_ns ids timeout_ms in
      elim (Target-cases (replay_target agents node_id)) [
        | inl (e, h) ↦ rw (h, profile_kernels, replay_kernels) (refused e h)
        | inr (addr, h) ↦ elim (Result-cases (t.connect addr)) [
          | inl (e, c) ↦ rw (h, c, profile_kernels, replay_kernels) (unreachable addr e h c)
          | inr (client, c) ↦ elim (Result-cases (t.call client req)) [
            | inl (e, a) ↦
                rw (h, c, a, profile_kernels, replay_kernels) (rejected addr client e h c a)
            | inr (msgs, a) ↦
                let (n, r, q) = acknowledged g f names takes node_id msgs in
                rw (h, c, a, profile_kernels, replay_kernels)
                  (rw (n, r, q) (answered addr client msgs h c a))
          ]
        ]
      ]
