-- ===== src/Agent/Uploader/Session.antt =====
-- crates/perfweave-agent/src/grpc_client.rs as a whole: `run` with the sessions that it opens, while the
-- samplers push to the ring. A turn is one thing that happens: a push by another task, a call of
-- `OffsetHandle::set`, which `OffsetHandle` offers and no task of the repository makes so far, the
-- outcome of an attempt to connect, or a branch of the session's `select!`. A turn runs to its end.
mod Lanes
pub mod Trace
pub mod Life
pub mod Accounts
pub mod Carried
pub mod Announced
mod Tests
use Prim.Native.String.{String}
use perf_weave.Base.{
  ℕ, suc, ◌+◌, Bool, true, false, not, ◌||◌, ◌&&◌, Option, none, some, List, [], ◌∷◌, ◌++◌, length,
  ◌==◌, if◌then◌else◌,
}
use perf_weave.Proto.{Event, MetricFrame, Batch, Ack}
use perf_weave.Common.Intern.{Interner, reset}
use perf_weave.Common.Intern
use perf_weave.Agent.Channel.{Channel}
use perf_weave.Agent.ClockSync.{OffsetHandle}
use perf_weave.Agent.Ring.{EventRing, push, push_frame, take_dropped, take_dropped_frames}
use perf_weave.Agent.Ring
use perf_weave.Agent.Uploader.{flush_tick, first_backoff, next_backoff}

-- How an attempt goes: the shutdown flag is seen first, there is no connection, the registration or the
-- opening of the stream fails, or the session is open.
pub data Connected : Type 0 where
  shut_before no_connection no_stream opened : Connected

-- What `stream.message()` gives.
pub data Message : Type 0 where
  acknowledged : Ack → Message
  ended : Message
  failed : Message

pub data Turn : Type 0 where
  pushed : Event → Turn
  pushed_frame : MetricFrame → Turn
  measured : OffsetHandle → Turn
  connect : Connected → Turn
  shutdown : Bool → Turn
  flush : Bool → Turn
  message : Message → Turn
  dropped_tick : Turn

-- A batch that the stream took, one that it refused since it is closed, a warning with the two counters,
-- and what `run` does between its sessions.
pub data Output : Type 0 where
  delivered : Batch → Output
  refused : Batch → Output
  warned : (dropped_events dropped_frames : ℕ) → Output
  reset_interner : Output
  sleep : ℕ → Output

-- `stuck` is want of fuel in a flush tick.
pub data Phase : Type 0 where
  connecting in_session stopped stuck : Phase

abbrev pub is_connecting : Phase → Bool
is_connecting connecting = true
is_connecting _ = false

abbrev pub is_in_session : Phase → Bool
is_in_session in_session = true
is_in_session _ = false

module _ (hash : String → ℕ) (ce : Channel Event) (cf : Channel MetricFrame)
    (max_batch_events node_id : ℕ) where
  pub record Agent : Type 0 where
    pub phase : Phase
    pub backoff_ms : ℕ
    pub ring : EventRing ce cf
    pub offsets : OffsetHandle
    pub interner : Interner

  abbrev pub started : ℕ → OffsetHandle → Agent
  started capacity offsets = record {
    phase = connecting;
    backoff_ms = first_backoff;
    ring = Ring.new ce cf capacity;
    offsets = offsets;
    interner = Intern.new;
  }

  -- The end of a session with an error: `run` resets the interner and sleeps.
  abbrev pub failed_session : Agent → List Output → Agent × List Output
  failed_session a outs = (
    record a { phase = connecting; interner = reset a.interner },
    outs ++ (reset_interner ∷ sleep 500 ∷ []),
  )

  -- One round of the loop of `run`, up to the session.
  unfoldable pub try_connect : Agent → Connected → Agent × List Output
  try_connect a shut_before = (record a { phase = stopped }, [])
  try_connect a no_connection =
      (record a { backoff_ms = next_backoff a.backoff_ms }, sleep a.backoff_ms ∷ [])
  try_connect a no_stream = failed_session (record a { backoff_ms = first_backoff }) []
  try_connect a opened = (record a { phase = in_session; backoff_ms = first_backoff }, [])

  -- The branches of the `select!`.
  abbrev pub sent_batch : Agent → Bool → Option Batch → Agent × List Output
  sent_batch a takes none = (a, [])
  sent_batch a true (some b) = (a, delivered b ∷ [])
  sent_batch a false (some b) = failed_session a (refused b ∷ [])

  unfoldable pub on_flush : Agent → Bool → Agent × List Output
  on_flush a takes =
      let fuel = suc (length (cf.queue a.ring.frames)) in
      elim (flush_tick hash ce cf fuel max_batch_events node_id a.offsets a.ring a.interner) [
        | none ↦ (record a { phase = stuck }, [])
        | some (ring, interner, b) ↦
            sent_batch (record a { ring = ring; interner = interner }) takes b
      ]

  unfoldable pub on_dropped_tick : Agent → Agent × List Output
  on_dropped_tick a =
      let (ring, d) = take_dropped ce cf a.ring in
      let (ring', df) = take_dropped_frames ce cf ring in
      (record a { ring = ring' }, if not (d == 0) || not (df == 0) then warned d df ∷ [] else [])

  unfoldable pub on_message : Agent → Message → Agent × List Output
  on_message a (acknowledged ack) = (a, [])
  on_message a ended = failed_session a []
  on_message a failed = failed_session a []

  -- What a phase does not wait for does not happen in it.
  abbrev pub only_if : Bool → Agent → Agent × List Output → Agent × List Output
  only_if true a next = next
  only_if false a next = (a, [])

  unfoldable pub turn : Agent → Turn → Agent × List Output
  unfolding try_connect on_flush on_dropped_tick on_message
  turn a (pushed e) = (record a { ring = push ce cf a.ring e }, [])
  turn a (pushed_frame f) = (record a { ring = push_frame ce cf a.ring f }, [])
  turn a (measured offsets) = (record a { offsets = offsets }, [])
  turn a (connect how) = only_if (is_connecting a.phase) a (try_connect a how)
  turn a (shutdown flag) =
      only_if (is_in_session a.phase) a (if flag then record a { phase = stopped } else a, [])
  turn a (flush takes) = only_if (is_in_session a.phase) a (on_flush a takes)
  turn a (message m) = only_if (is_in_session a.phase) a (on_message a m)
  turn a dropped_tick = only_if (is_in_session a.phase) a (on_dropped_tick a)

  unfoldable pub run : Agent → List Turn → Agent × List Output
  unfolding turn
  run a [] = (a, [])
  run a (t ∷ ts) = let (a', outs) = turn a t in let (a'', more) = run a' ts in (a'', outs ++ more)
