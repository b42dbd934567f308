-- ===== src/Inject/Ship/Retry.antt =====
-- How long the reconnecting loop (transport.rs) sleeps.
use perf_weave.Base.{
  ℕ, ◌+◌, ◌*◌, ◌≤◌, ◌<◌, ◌≡◌, refl, ap, suc, false, inl, inr, List, [], ◌∷◌, ◌++◌, arith, leb,
  length, min, All, Bool-cases,
}
use perf_weave.Inject.Ship.{
  Try, connected, failed, err, retry_loop, reconnect, max_backoff, min_backoff,
}

-- Every reading of the clock is at least this.
abbrev pub NotBefore : ℕ → List Try → Type 0
NotBefore start [] = Unit
NotBefore start (connected ∷ tries) = NotBefore start tries
NotBefore start (failed now ∷ tries) = (start ≤ now) × NotBefore start tries

retry_loop-bounds :
    (deadline budget start backoff : ℕ) (tries : List Try)
    → deadline ≡ start + budget
    → NotBefore start tries
    → backoff ≤ max_backoff
    → All (λ ms. (ms ≤ max_backoff) × (ms ≤ budget)) (retry_loop deadline backoff tries).0
unfolding retry_loop
retry_loop-bounds deadline budget start backoff [] e after h = tt
retry_loop-bounds deadline budget start backoff (connected ∷ tries) e after h = tt
retry_loop-bounds deadline budget start backoff (failed now ∷ tries) e after h =
    let rest =
      retry_loop-bounds deadline budget start (min (backoff * 2) max_backoff) tries e after.1
        (omega arith) in
    elim (Bool-cases (leb deadline now)) [
      | inl late ↦ rw (late, All) tt
      | inr early ↦ rw (early, All) ((omega arith, omega arith), rest)
    ]

-- All fail, and before the deadline.
abbrev pub FailEarly : ℕ → List Try → Type 0
FailEarly deadline [] = Unit
FailEarly deadline (connected ∷ tries) = ⊥
FailEarly deadline (failed now ∷ tries) = (now < deadline) × FailEarly deadline tries

retry_loop-late :
    (deadline now backoff : ℕ) (tries rest : List Try)
    → FailEarly deadline tries
    → deadline ≤ now
    → let r = retry_loop deadline backoff (tries ++ failed now ∷ rest) in
      (length r.0 ≡ length tries) × (r.1 ≡ err)
unfolding retry_loop
retry_loop-late deadline now backoff [] rest early late = ground arith
retry_loop-late deadline now backoff (connected ∷ tries) rest early late = absurd early
retry_loop-late deadline now backoff (failed t ∷ tries) rest early late =
    let in_time : leb deadline t ≡ false = ground (arith, early.0) in
    let (n, e) =
      retry_loop-late deadline now (min (backoff * 2) max_backoff) tries rest early.1 late in
    rw in_time (ap suc n, e)

-- If the clock is never before its reading at the call: however the tries end, no single sleep of a
-- reconnection is longer than half a second, nor longer than the whole budget. After any number of
-- failures before the deadline, the first one at or after it ends the reconnection with an error, whatever would
-- follow, and there was one sleep for each failure before.
pub reconnect_lem :
    (budget start now : ℕ) (tries early rest : List Try)
    → NotBefore start tries
    → FailEarly (start + budget) early
    → start + budget ≤ now
    → let r = reconnect budget start (early ++ failed now ∷ rest) in
      All (λ ms. (ms ≤ max_backoff) × (ms ≤ budget)) (reconnect budget start tries).0
      × (length r.0 ≡ length early)
      × (r.1 ≡ err)
unfolding reconnect
reconnect_lem budget start now tries early rest after in_time late =
    let (n, e) = retry_loop-late (start + budget) now min_backoff early rest in_time late in
    (
      retry_loop-bounds (start + budget) budget start min_backoff tries refl after (omega arith),
      n,
      e,
    )
