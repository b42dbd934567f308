-- ===== src/Agent/Uploader/Session/Announced.antt =====
-- Which strings the collector knows when it needs them (grpc_client.rs with intern.rs).
use Prim.Native.String.{String}
use perf_weave.Base.{
  ℕ, suc, ◌≡◌, Bool, true, false, Bool-cases, inl, inr, some, List, [], ◌∷◌, ◌++◌, map, arith,
  length, All, ◌==◌, ◌||◌, not, take,
}
use perf_weave.Proto.{Event, MetricFrame, Batch}
use perf_weave.Common.Intern.{contains}
use perf_weave.Agent.Channel.{Channel}
use perf_weave.Agent.ClockSync.{current}
use perf_weave.Agent.Uploader.{correct, units}
use perf_weave.Agent.Uploader.Flush.{flush_tick_lem}
use perf_weave.Agent.Uploader.Session.{
  Connected, shut_before, no_connection, no_stream, opened, acknowledged, ended, failed, Turn,
  pushed, pushed_frame, measured, connect, shutdown, flush, message, dropped_tick, Output,
  delivered, refused, warned, reset_interner, sleep, is_connecting, is_in_session, Agent,
  try_connect, sent_batch, on_flush, on_dropped_tick, on_message, only_if, turn, run,
}
use perf_weave.Common.Intern.Backed.{ids, Backed, record_all-Backed}

-- What is announced on the present connection after some output, if `known` was before it.
abbrev pub known_after : List ℕ → List Output → List ℕ
known_after known [] = known
known_after known (delivered b ∷ os) = known_after (ids b.strings ++ known) os
known_after known (reset_interner ∷ os) = known_after [] os
known_after known (_ ∷ os) = known_after known os

module _ (hash : String → ℕ) where
  -- Every batch that is delivered comes with, or after, the announcements of all the units that its
  -- metric events name, on the same connection.
  abbrev pub Known : List ℕ → List Output → Type 0
  Known known [] = Unit
  Known known (delivered b ∷ os) =
      All (λ u. contains (hash u) (ids b.strings ++ known) ≡ true) (units b.events)
      × Known (ids b.strings ++ known) os
  Known known (reset_interner ∷ os) = Known [] os
  Known known (refused b ∷ os) = Known known os
  Known known (warned d df ∷ os) = Known known os
  Known known (sleep ms ∷ os) = Known known os

  Known-append :
      (known : List ℕ) (xs ys : List Output)
      → Known known xs
      → Known (known_after known xs) ys
      → Known known (xs ++ ys)
  Known-append known [] ys h k = k
  Known-append known (delivered b ∷ xs) ys h k =
      (h.0, Known-append (ids b.strings ++ known) xs ys h.1 k)
  Known-append known (reset_interner ∷ xs) ys h k = Known-append [] xs ys h k
  Known-append known (refused b ∷ xs) ys h k = Known-append known xs ys h k
  Known-append known (warned d df ∷ xs) ys h k = Known-append known xs ys h k
  Known-append known (sleep ms ∷ xs) ys h k = Known-append known xs ys h k

module _ (hash : String → ℕ) (ce : Channel Event) (cf : Channel MetricFrame)
    (max_batch_events node_id : ℕ) where
  -- What a step adds keeps to this, if the interner remembers only what is announced, and it still does.
  abbrev Knows : List ℕ → Agent hash ce cf max_batch_events node_id × List Output → Type 0
  Knows known (a, o) = Known hash known o × Backed hash (known_after known o) a.interner

  only_if-Knows :
      (b : Bool) (known : List ℕ) (a : Agent hash ce cf max_batch_events node_id)
      (next : Agent hash ce cf max_batch_events node_id × List Output)
      → Backed hash known a.interner
      → Knows known next
      → Knows known (only_if hash ce cf max_batch_events node_id b a next)
  only_if-Knows true known a next h k = k
  only_if-Knows false known a next h k = (tt, h)

  sent-Knows :
      (takes : Bool) (known : List ℕ) (a : Agent hash ce cf max_batch_events node_id) (b : Batch)
      → All (λ u. contains (hash u) (ids b.strings ++ known) ≡ true) (units b.events)
      → Backed hash (ids b.strings ++ known) a.interner
      → Knows known (sent_batch hash ce cf max_batch_events node_id a takes (some b))
  sent-Knows true known a b all h = ((all, tt), h)
  sent-Knows false known a b all h = (tt, λ id e. e)

  connect-Knows :
      (known : List ℕ) (a : Agent hash ce cf max_batch_events node_id) (how : Connected)
      → Backed hash known a.interner
      → Knows known (try_connect hash ce cf max_batch_events node_id a how)
  unfolding try_connect
  connect-Knows known a shut_before h = (tt, h)
  connect-Knows known a no_connection h = (tt, h)
  connect-Knows known a no_stream h = (tt, λ id e. e)
  connect-Knows known a opened h = (tt, h)

  dropped_tick-Knows :
      (known : List ℕ) (a : Agent hash ce cf max_batch_events node_id)
      → Backed hash known a.interner
      → Knows known (on_dropped_tick hash ce cf max_batch_events node_id a)
  unfolding on_dropped_tick
  dropped_tick-Knows known a h =
      elim (Bool-cases (not (a.ring.dropped == 0) || not (a.ring.dropped_frames == 0))) [
        | inl some_lost ↦ rw some_lost (tt, h)
        | inr none_lost ↦ rw none_lost (tt, h)
      ]

  flush-Knows :
      (known : List ℕ) (a : Agent hash ce cf max_batch_events node_id) (takes : Bool)
      → Backed hash known a.interner
      → Knows known (on_flush hash ce cf max_batch_events node_id a takes)
  unfolding on_flush
  flush-Knows known a takes h =
      let fuel = suc (length (cf.queue a.ring.frames)) in
      let taken = take max_batch_events (ce.queue a.ring.events) in
      let (r', kept, clear, d, df, how) =
        flush_tick_lem hash ce cf fuel max_batch_events node_id a.offsets a.ring a.interner
          (omega arith) in
      elim how [
        | inl (nothing, done) ↦ rw (done, on_flush) (tt, h)
        | inr (something, done) ↦
            let texts = units (map (correct (current a.offsets)) taken) in
            let (b, all) = record_all-Backed hash known a.interner texts h in
            rw (done, on_flush) (sent-Knows takes known _ _ all b)
      ]

  turn-Knows :
      (known : List ℕ) (a : Agent hash ce cf max_batch_events node_id) (t : Turn)
      → Backed hash known a.interner
      → Knows known (turn hash ce cf max_batch_events node_id a t)
  unfolding turn on_message
  turn-Knows known a (pushed e) h = (tt, h)
  turn-Knows known a (pushed_frame f) h = (tt, h)
  turn-Knows known a (measured offsets) h = (tt, h)
  turn-Knows known a (connect how) h =
      only_if-Knows (is_connecting a.phase) known a _ h (connect-Knows known a how h)
  turn-Knows known a (shutdown true) h = only_if-Knows (is_in_session a.phase) known a _ h (tt, h)
  turn-Knows known a (shutdown false) h = only_if-Knows (is_in_session a.phase) known a _ h (tt, h)
  turn-Knows known a (flush takes) h =
      only_if-Knows (is_in_session a.phase) known a _ h (flush-Knows known a takes h)
  turn-Knows known a (message (acknowledged ack)) h =
      only_if-Knows (is_in_session a.phase) known a _ h (tt, h)
  turn-Knows known a (message ended) h =
      only_if-Knows (is_in_session a.phase) known a _ h (tt, λ id e. e)
  turn-Knows known a (message failed) h =
      only_if-Knows (is_in_session a.phase) known a _ h (tt, λ id e. e)
  turn-Knows known a dropped_tick h =
      only_if-Knows (is_in_session a.phase) known a _ h (dropped_tick-Knows known a h)

  -- Whatever connections fail and batches are refused, from a state whose interner remembers only what is
  -- announced: every batch that is delivered comes with or after the announcements, on the same
  -- connection, of all the units that its metric events name.
  pub run-Known :
      (ts : List Turn) (known : List ℕ) (a : Agent hash ce cf max_batch_events node_id)
      → Backed hash known a.interner
      → Known hash known (run hash ce cf max_batch_events node_id a ts).1
  unfolding run
  run-Known [] known a h = tt
  run-Known (t ∷ ts) known a h =
      let (a', o) = turn hash ce cf max_batch_events node_id a t in
      let (k, h') = turn-Knows known a t h in
      Known-append hash known o (run hash ce cf max_batch_events node_id a' ts).1 k
        (run-Known ts (known_after known o) a' h')
