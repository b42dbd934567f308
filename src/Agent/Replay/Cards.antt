-- ===== src/Agent/Replay/Cards.antt =====
-- The cards of a synthetic replay.
use Prim.Native.String.{String}
use perf_weave.Base.{ℕ, ◌+◌, ◌≡◌, refl, ap, List, [], ◌∷◌, map, All}
use perf_weave.Base.Floats.{Floats}
use perf_weave.Base.Results.{ok}
use perf_weave.Proto.{KernelSol, Confidence, Source, confidence_num, source_num}
use perf_weave.Agent.Replay.{synthetic_sol, replay_from}

-- A card of a replay: exact numbers.
abbrev pub IsExact : KernelSol → Type 0
IsExact s = (s.confidence ≡ confidence_num Confidence.high) × (s.source ≡ source_num Source.replay)

module _ (f : Floats) (intern_hash : String → ℕ) where
  -- The cards of the kernels of a list, from the place `i` on.
  abbrev pub cards_from : ℕ → List ℕ → List KernelSol
  cards_from i [] = []
  cards_from i (corr ∷ ids) = synthetic_sol f intern_hash i corr ∷ cards_from (i + 1) ids

  pub replay_from-cards :
      (i : ℕ) (ids : List ℕ) → replay_from f intern_hash i ids ≡ map ok (cards_from i ids)
  unfolding replay_from
  replay_from-cards i [] = refl
  replay_from-cards i (corr ∷ ids) =
      ap (◌∷◌ (ok (synthetic_sol f intern_hash i corr))) (replay_from-cards (i + 1) ids)

  pub ids-cards_from : (i : ℕ) (ids : List ℕ) → map (λ s. s.correlation_id) (cards_from i ids) ≡ ids
  unfolding synthetic_sol
  ids-cards_from i [] = refl
  ids-cards_from i (corr ∷ ids) = ap (◌∷◌ corr) (ids-cards_from (i + 1) ids)

  pub cards_from-IsExact : (i : ℕ) (ids : List ℕ) → All IsExact (cards_from i ids)
  unfolding synthetic_sol
  cards_from-IsExact i [] = tt
  cards_from-IsExact i (corr ∷ ids) = ((refl, refl), cards_from-IsExact (i + 1) ids)
