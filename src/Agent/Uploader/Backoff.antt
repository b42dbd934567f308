-- ===== src/Agent/Uploader/Backoff.antt =====
-- The waits of the uploader's loop (grpc_client.rs).
use perf_weave.Base.{
  ℕ, zero, suc, ◌*◌, ◌^◌, ◌≤◌, ◌≡◌, refl, ap, ◌∙◌, List, [], ◌∷◌, ◌++◌, arith, min, replicate, All,
}
use native.Mathlib.Nat.{pow-suc}
use perf_weave.Agent.Uploader.{
  Attempt, no_connection, session_error, session_done, Action, sleep, reset_interner, next_backoff,
  first_backoff, run_loop, run,
}

-- Every wait lies between a quarter of a second and ten seconds.
abbrev pub InBounds : Action → Type 0
InBounds (sleep ms) = (250 ≤ ms) × (ms ≤ 10_000)
InBounds reset_interner = Unit

run_loop-InBounds :
    (attempts : List Attempt) (b : ℕ) → 250 ≤ b → b ≤ 10_000 → All InBounds (run_loop b attempts)
unfolding run_loop
run_loop-InBounds [] b low high = tt
run_loop-InBounds (no_connection ∷ rest) b low high =
    ((low, high), run_loop-InBounds rest (next_backoff b) (omega arith) (omega arith))
run_loop-InBounds (session_error ∷ rest) b low high =
    (tt, ((omega arith, omega arith), run_loop-InBounds rest 250 (omega arith) (omega arith)))
run_loop-InBounds (session_done ∷ rest) b low high = tt

-- The wait after `k` failures in a row, starting at `b`.
abbrev pub wait_after : ℕ → ℕ → ℕ
wait_after b zero = b
wait_after b (suc k) = next_backoff (wait_after b k)

wait_after-next : (b k : ℕ) → wait_after (next_backoff b) k ≡ next_backoff (wait_after b k)
wait_after-next b zero = refl
wait_after-next b (suc k) = ap next_backoff (wait_after-next b k)

wait_after_lem : (k : ℕ) → wait_after first_backoff k ≡ min (250 * 2 ^ k) 10_000
wait_after_lem zero = refl
wait_after_lem (suc k) =
    let e : 2 ^ suc k ≡ 2 * 2 ^ k = omega (arith, pow-suc 2 k) in omega (arith, wait_after_lem k, e)

-- The waits of `k` failures in a row.
abbrev pub waits : ℕ → ℕ → List Action
waits b zero = []
waits b (suc k) = sleep b ∷ waits (next_backoff b) k

run_loop-failures :
    (k b : ℕ) (rest : List Attempt)
    → run_loop b (replicate k no_connection ++ rest) ≡ waits b k ++ run_loop (wait_after b k) rest
unfolding run_loop
run_loop-failures zero b rest = refl
run_loop-failures (suc k) b rest = ap (◌∷◌ (sleep b)) (
    run_loop-failures k (next_backoff b) rest
    ∙ ap (λ t. waits (next_backoff b) k ++ run_loop t rest) (wait_after-next b k))

-- The waits number `i` to `i + k - 1` of failures in a row, in milliseconds.
abbrev pub doubling : ℕ → ℕ → List Action
doubling i zero = []
doubling i (suc k) = sleep (min (250 * 2 ^ i) 10_000) ∷ doubling (suc i) k

waits-doubling : (k i : ℕ) → waits (wait_after first_backoff i) k ≡ doubling i k
waits-doubling zero i = refl
waits-doubling (suc k) i =
    ap (◌∷◌ (sleep (wait_after first_backoff i))) (waits-doubling k (suc i))
    ∙ ap (λ b. sleep b ∷ doubling (suc i) k) (wait_after_lem i)

-- The loop does not end within these attempts.
abbrev pub GoesOn : List Attempt → Type 0
GoesOn [] = Unit
GoesOn (no_connection ∷ rest) = GoesOn rest
GoesOn (session_error ∷ rest) = GoesOn rest
GoesOn (session_done ∷ rest) = ⊥

-- A failed session makes the loop forget what was before it.
run_loop-session :
    (before more : List Attempt) (b : ℕ)
    → GoesOn before
    → run_loop b (before ++ session_error ∷ more)
      ≡ run_loop b (before ++ session_error ∷ []) ++ run_loop first_backoff more
unfolding run_loop
run_loop-session [] more b h = refl
run_loop-session (no_connection ∷ before) more b h =
    ap (◌∷◌ (sleep b)) (run_loop-session before more (next_backoff b) h)
run_loop-session (session_error ∷ before) more b h =
    ap (λ l. reset_interner ∷ sleep 500 ∷ l) (run_loop-session before more first_backoff h)
run_loop-session (session_done ∷ before) more b h = absurd h

in_a_row :
    (k : ℕ) (rest : List Attempt)
    → run_loop first_backoff (replicate k no_connection ++ rest)
      ≡ doubling 0 k ++ run_loop (min (250 * 2 ^ k) 10_000) rest
in_a_row k rest =
    run_loop-failures k first_backoff rest
    ∙ ap (λ t. waits first_backoff k ++ run_loop t rest) (wait_after_lem k)
    ∙ ap (λ l. l ++ run_loop (min (250 * 2 ^ k) 10_000) rest) (waits-doubling k 0)

-- Whatever the environment does, every wait of the reconnecting loop is at least a quarter of a second
-- and at most ten. Of `k` failed connections in a row, at the start or after any session that failed, the
-- wait after number `i`, counted from 0, is a quarter of a second doubled `i` times, cut at ten seconds,
-- and the loop goes on with the wait for `k`.
pub run_lem :
    (attempts before rest : List Attempt) (k : ℕ)
    → GoesOn before
    → All InBounds (run attempts)
      × (run (replicate k no_connection ++ rest)
          ≡ doubling 0 k ++ run_loop (min (250 * 2 ^ k) 10_000) rest)
      × (run (before ++ session_error ∷ (replicate k no_connection ++ rest))
          ≡ run (before ++ session_error ∷ [])
            ++ (doubling 0 k ++ run_loop (min (250 * 2 ^ k) 10_000) rest))
unfolding run
run_lem attempts before rest k going = (
  run_loop-InBounds attempts first_backoff (omega arith) (omega arith),
  in_a_row k rest,
  run_loop-session before (replicate k no_connection ++ rest) first_backoff going
      ∙ ap (λ l. run_loop first_backoff (before ++ session_error ∷ []) ++ l) (in_a_row k rest),
)
