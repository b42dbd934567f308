-- ===== src/Common/Intern/Once.antt =====
-- What the interner announces over a connection (crates/perfweave-common/src/intern.rs).
use Prim.Native.String.{String}
use perf_weave.Base.{
  ℕ, ◌+◌, ◌≡◌, inl, inr, List, [], ◌∷◌, map, arith, ◌==◌, ==_iff, if◌then◌else◌, Bool-cases,
}
use perf_weave.Proto.{StringIntern}
use perf_weave.Common.Intern.{Interner, contains, record_all, reset}

-- How often an id is announced.
abbrev pub announced : ℕ → List StringIntern → ℕ
announced id [] = 0
announced id (r ∷ rs) = (if r.id == id then 1 else 0) + announced id rs

module _ (hash : String → ℕ) where
  record_all-announced :
      (i : Interner) (texts : List String) (id : ℕ)
      → announced id (record_all hash i texts).1
        ≡ (if contains id i.seen then 0 else if contains id (map hash texts) then 1 else 0)
  unfolding record_all
  record_all-announced i [] id = ground arith
  record_all-announced i (t ∷ ts) id = elim (Bool-cases (contains (hash t) i.seen)) [
    | inl old ↦ ground (arith, old, record_all-announced i ts id, ==_iff (hash t) id)
    | inr first ↦ ground (
      arith,
      first,
      record_all-announced (record { seen = hash t ∷ i.seen }) ts id,
      ==_iff (hash t) id,
    )
  ]

  -- On a fresh connection, or after a reset, an id is announced exactly once if some text of the
  -- sequence hashes to it, and never otherwise.
  pub record_all-announces_once :
      (i : Interner) (texts : List String) (id : ℕ)
      → announced id (record_all hash (reset i) texts).1
        ≡ (if contains id (map hash texts) then 1 else 0)
  record_all-announces_once i texts id = record_all-announced (reset i) texts id
