-- ===== src/Agent/Tegra/Points.antt =====
-- Which points a frame has.
use perf_weave.Base.{
  ℕ, ◌≡◌, refl, ap, Bool, true, false, Option, none, some, List, [], ◌∷◌, ◌++◌, map, if◌then◌else◌,
}
use perf_weave.Base.Floats.{Floats}
use perf_weave.Base.Text.{Text}
use perf_weave.Proto.{MetricPoint}

abbrev pub ids_of : List MetricPoint → List ℕ
ids_of = map (λ p. p.metric_id)

pub ids_of-append : (ps qs : List MetricPoint) → ids_of (ps ++ qs) ≡ ids_of ps ++ ids_of qs
ids_of-append [] qs = refl
ids_of-append (p ∷ ps) qs = ap (◌∷◌ p.metric_id) (ids_of-append ps qs)

-- The ids that have a value, of ids with whether they have one.
abbrev pub told : List (ℕ × Bool) → List ℕ
told [] = []
told ((id, has) ∷ more) = if has then id ∷ told more else told more

abbrev pub is_some {ℓ} : {A : Type ℓ} → Option A → Bool
is_some none = false
is_some (some a) = true
