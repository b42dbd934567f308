-- ===== src/Agent/Channel/Bounded.antt =====
-- A list with a bound has the behaviour that the ring (crates/perfweave-agent/src/ring.rs) relies on.
use perf_weave.Base.{
  ℕ, ◌≡◌, refl, Bool, true, false, Option, none, some, List, [], ◌∷◌, ◌++◌, arith, ltb,
  if◌then◌else◌, length,
}
use perf_weave.Agent.Channel.{Channel}

module _ {A : Type 0} where
  abbrev list_send : List A × ℕ → A → (List A × ℕ) × Bool
  list_send (q, n) a = if ltb (length q) n then ((q ++ a ∷ [], n), true) else ((q, n), false)

  abbrev list_recv : List A × ℕ → Option A × (List A × ℕ)
  list_recv ([], n) = (none, ([], n))
  list_recv (a ∷ q, n) = (some a, (q, n))

  pub list_recv-nil :
      (c : List A × ℕ)
      → c.0 ≡ []
      → ((list_recv c).0 ≡ none) × ((list_recv c).1.0 ≡ []) × ((list_recv c).1.1 ≡ c.1)
  list_recv-nil ([], n) e = (refl, refl, refl)
  list_recv-nil (a ∷ q, n) e = absurd (cc)

  pub list_recv-cons :
      (c : List A × ℕ) {a : A} {q : List A}
      → c.0 ≡ a ∷ q
      → ((list_recv c).0 ≡ some a) × ((list_recv c).1.0 ≡ q) × ((list_recv c).1.1 ≡ c.1)
  list_recv-cons ([], n) e = absurd (cc)
  list_recv-cons (b ∷ q, n) e = (cc, cc, refl)

  abbrev pub list_channel : Channel A
  list_channel = record {
    Chan = List A × ℕ;
    bounded = λ n. ([], n);
    try_send = list_send;
    try_recv = list_recv;
    queue = λ c. c.0;
    capacity = λ c. c.1;
    queue-bounded = λ n. (refl, refl);
    send_room = λ c a h. ground arith;
    send_full = λ c a h. ground arith;
    recv_empty = λ c e. list_recv-nil c e;
    recv_some = λ c e. list_recv-cons c e;
  }
