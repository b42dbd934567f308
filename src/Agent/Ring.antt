-- ===== src/Agent/Ring.antt =====
-- crates/perfweave-agent/src/ring.rs: the ring between the samplers and the uploader, two bounded
-- lanes with a counter of drops each.
pub mod Fifo
use perf_weave.Base.{
  ℕ, zero, suc, ◌+◌, ◌/◌, Bool, true, false, Option, none, some, List, [], ◌∷◌, ◌++◌, if◌then◌else◌,
}
use perf_weave.Base.Words.{add_u64}
use perf_weave.Proto.{Event, MetricFrame}
use perf_weave.Agent.Channel.{Channel}

module _ (ce : Channel Event) (cf : Channel MetricFrame) where
  open ce use {
    Chan as EventChan, bounded as bounded_events, try_send as send_event, try_recv as recv_event,
  }
  open cf use {
    Chan as FrameChan, bounded as bounded_frames, try_send as send_frame, try_recv as recv_frame,
  }

  pub record EventRing : Type 0 where
    pub events : EventChan
    pub frames : FrameChan
    pub dropped : ℕ
    pub dropped_frames : ℕ

  abbrev pub new : ℕ → EventRing
  new capacity = record {
    events = bounded_events capacity;
    frames = bounded_frames (capacity / 32 + 256);
    dropped = 0;
    dropped_frames = 0;
  }

  unfoldable pub push : EventRing → Event → EventRing
  push r e =
      let (c, queued) = send_event r.events e in
      record r { events = c; dropped = if queued then r.dropped else add_u64 r.dropped 1 }

  unfoldable pub push_frame : EventRing → MetricFrame → EventRing
  push_frame r f =
      let (c, queued) = send_frame r.frames f in
      record r {
        frames = c;
        dropped_frames = if queued then r.dropped_frames else add_u64 r.dropped_frames 1;
      }

  -- The loop of `drain_up_to`; `room` is what `out` still lacks of `max`.
  unfoldable pub drain_loop : ℕ → EventChan → List Event → EventChan × List Event
  drain_loop zero c out = (c, out)
  drain_loop (suc room) c out =
      let (got, c') = recv_event c in
      elim got [ none ↦ (c', out) | some e ↦ drain_loop room c' (out ++ e ∷ []) ]

  unfoldable pub drain_up_to : ℕ → EventRing → EventRing × List Event
  unfolding drain_loop
  drain_up_to max r = let (c, out) = drain_loop max r.events [] in (record r { events = c }, out)

  -- The loop of `drain_frames`, which runs until the lane is empty; `none` is want of fuel.
  unfoldable pub drain_frames_loop :
      ℕ → FrameChan → List MetricFrame → Option (FrameChan × List MetricFrame)
  drain_frames_loop zero c out = none
  drain_frames_loop (suc fuel) c out =
      let (got, c') = recv_frame c in
      elim got [ none ↦ some (c', out) | some f ↦ drain_frames_loop fuel c' (out ++ f ∷ []) ]

  unfoldable pub drain_frames : ℕ → EventRing → Option (EventRing × List MetricFrame)
  unfolding drain_frames_loop
  drain_frames fuel r = elim (drain_frames_loop fuel r.frames []) [
    | none ↦ none
    | some (c, out) ↦ some (record r { frames = c }, out)
  ]

  abbrev pub dropped_count : EventRing → ℕ
  dropped_count r = r.dropped

  abbrev pub take_dropped : EventRing → EventRing × ℕ
  take_dropped r = (record r { dropped = 0 }, r.dropped)

  abbrev pub take_dropped_frames : EventRing → EventRing × ℕ
  take_dropped_frames r = (record r { dropped_frames = 0 }, r.dropped_frames)
