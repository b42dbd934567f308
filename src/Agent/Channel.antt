-- ===== src/Agent/Channel.antt =====
-- The bounded channel of the crossbeam library, which crates/perfweave-agent/src/ring.rs is built on:
-- its operations, with the documented behaviour that the ring relies on.
pub mod Bounded
use perf_weave.Base.{
  ℕ, ◌<◌, ◌≤◌, ◌≡◌, Bool, true, false, Option, none, some, List, [], ◌∷◌, ◌++◌, length,
}

-- `try_send` answers `true` if the value was queued and `false` if the channel was full: the ring
-- holds both ends, so that it is never disconnected.
pub record Channel (A : Type 0) : Type 1 where
  pub Chan : Type 0
  pub bounded : ℕ → Chan
  pub try_send : Chan → A → Chan × Bool
  pub try_recv : Chan → Option A × Chan
  pub queue : Chan → List A
  pub capacity : Chan → ℕ
  pub queue-bounded : (n : ℕ) → (queue (bounded n) ≡ []) × (capacity (bounded n) ≡ n)
  pub send_room :
      (c : Chan) (a : A)
      → length (queue c) < capacity c
      → ((try_send c a).1 ≡ true)
        × (queue (try_send c a).0 ≡ queue c ++ a ∷ [])
        × (capacity (try_send c a).0 ≡ capacity c)
  pub send_full :
      (c : Chan) (a : A)
      → capacity c ≤ length (queue c)
      → ((try_send c a).1 ≡ false)
        × (queue (try_send c a).0 ≡ queue c)
        × (capacity (try_send c a).0 ≡ capacity c)
  pub recv_empty :
      (c : Chan)
      → queue c ≡ []
      → ((try_recv c).0 ≡ none)
        × (queue (try_recv c).1 ≡ [])
        × (capacity (try_recv c).1 ≡ capacity c)
  pub recv_some :
      (c : Chan) {a : A} {q : List A}
      → queue c ≡ a ∷ q
      → ((try_recv c).0 ≡ some a)
        × (queue (try_recv c).1 ≡ q)
        × (capacity (try_recv c).1 ≡ capacity c)
