-- ===== src/Agent/Uploader.antt =====
-- crates/perfweave-agent/src/grpc_client.rs: the uploader's flush tick, its session with the collector,
-- and the reconnecting loop around it. The environment says what each wait brings.
pub mod Backoff
pub mod Flush
pub mod Session
use Prim.Native.String.{String}
use text.Mathlib.Text.{◌==◌ as str_eq}
use perf_weave.Base.{
  ℕ, ◌*◌, Bool, true, false, not, ◌&&◌, ◌||◌, Option, none, some, List, [], ◌∷◌, map, min, ◌==◌,
  if◌then◌else◌, is_empty,
}
use perf_weave.Proto.{
  Event, Payload, Batch, MetricFrame, StringIntern, ClockOffset, Category, category_num,
}
use perf_weave.Common.Clock
use perf_weave.Common.Intern.{Interner, record_all, reset}
use perf_weave.Agent.Channel.{Channel}
use perf_weave.Agent.ClockSync.{OffsetHandle, current, latest_proto}
use perf_weave.Agent.Ring.{EventRing, drain_up_to, drain_frames, take_dropped, take_dropped_frames}

abbrev pub has_category : Category → Event → Bool
has_category c e = e.category == category_num c

-- Kernels, API calls and copies are in the source's time and are corrected.
unfoldable pub correct : Clock.ClockOffset → Event → Event
correct off e =
    if has_category Category.kernel e
      || has_category Category.api_call e
      || has_category Category.memcpy e
    then record e { ts_ns = Clock.map off e.ts_ns }
    else e

-- The unit of an event, if it has a metric for its payload and the unit is not empty.
abbrev pub unit_of : Option Payload → List String
unit_of (some (Payload.metric m)) = if str_eq m.unit "" then [] else m.unit ∷ []
unit_of _ = []

unfoldable pub units : List Event → List String
units [] = []
units (e ∷ es) = elim (unit_of e.payload) [ [] ↦ units es | u ∷ _ ↦ u ∷ units es ]

abbrev pub to_list {ℓ} : {A : Type ℓ} → Option A → List A
to_list none = []
to_list (some a) = a ∷ []

module _ (hash : String → ℕ) (ce : Channel Event) (cf : Channel MetricFrame) where
  -- The body of a flush tick up to the send: nothing if both lanes are empty. `none` outside is want of
  -- fuel for the frame lane.
  unfoldable pub flush_tick :
      ℕ
      → ℕ
      → ℕ
      → OffsetHandle
      → EventRing ce cf
      → Interner
      → Option (EventRing ce cf × Interner × Option Batch)
  flush_tick fuel max_batch_events node_id offsets ring interner =
      let (ring', events) = drain_up_to ce cf max_batch_events ring in
      elim (drain_frames ce cf fuel ring') [
        | none ↦ none
        | some (ring'', metric_frames) ↦
            if is_empty events && is_empty metric_frames
            then some (ring'', interner, none)
            else (let corrected = map (correct (current offsets)) events in
                let (interner', strings) = record_all hash interner (units corrected) in
                some (
                  ring'',
                  interner',
                  some (record {
                    events = corrected;
                    strings = strings;
                    offsets = to_list (latest_proto offsets node_id);
                    metric_frames = metric_frames;
                  }),
                ))
      ]

-- How one attempt of `run` ends: no connection, a session that failed, or a session that was shut
-- down.
pub data Attempt : Type 0 where
  no_connection session_error session_done : Attempt

-- What `run` does between its attempts.
pub data Action : Type 0 where
  sleep : ℕ → Action
  reset_interner : Action

abbrev pub first_backoff : ℕ
first_backoff = 250

abbrev pub next_backoff : ℕ → ℕ
next_backoff b = min (b * 2) 10_000

-- The loop of `run`, for the attempts that the environment allows before the shutdown flag is seen.
unfoldable pub run_loop : ℕ → List Attempt → List Action
run_loop backoff_ms [] = []
run_loop backoff_ms (no_connection ∷ rest) =
    sleep backoff_ms ∷ run_loop (next_backoff backoff_ms) rest
run_loop backoff_ms (session_error ∷ rest) =
    reset_interner ∷ sleep 500 ∷ run_loop first_backoff rest
run_loop backoff_ms (session_done ∷ rest) = []

unfoldable pub run : List Attempt → List Action
unfolding run_loop
run attempts = run_loop first_backoff attempts
