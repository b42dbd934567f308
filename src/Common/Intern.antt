-- ===== src/Common/Intern.antt =====
-- crates/perfweave-common/src/intern.rs: the agent's interner, which announces a name once for each
-- connection. The xxh3 hash is a parameter.
pub mod Once
pub mod Backed
use Prim.Native.String.{String}
use perf_weave.Base.{
  ℕ, ◌≡◌, ◌≢◌, refl, Bool, true, false, ◌||◌, Option, none, some, List, [], ◌∷◌, ◌++◌, arith, ◌==◌,
  ==_refl, if◌then◌else◌, inl, inr, Bool-cases,
}
use perf_weave.Proto.{StringIntern}

abbrev pub contains : ℕ → List ℕ → Bool
contains a [] = false
contains a (x ∷ xs) = x == a || contains a xs

-- The ids already announced; the handle is shared, and every call holds its lock throughout.
pub record Interner : Type 0 where
  pub seen : List ℕ

abbrev pub new : Interner
new = record { seen = [] }

module _ (hash : String → ℕ) where
  -- `Interner::record`: the id, and the announcement the first time.
  unfoldable pub record_text : Interner → String → Interner × ℕ × Option StringIntern
  record_text i text =
      let id = hash text in
      if contains id i.seen
      then (i, id, none)
      else (record i { seen = id ∷ i.seen }, id, some (record { id = id; text = text }))

abbrev pub reset : Interner → Interner
reset i = record i { seen = [] }

module _ (hash : String → ℕ) where
  -- A sequence of calls, with the announcements to send in their order.
  unfoldable pub record_all : Interner → List String → Interner × List StringIntern
  unfolding record_text
  record_all i [] = (i, [])
  record_all i (t ∷ ts) =
      let (i', id, rec) = record_text hash i t in
      let (i'', sent) = record_all i' ts in (i'', elim rec [ none ↦ sent | some r ↦ r ∷ sent ])
