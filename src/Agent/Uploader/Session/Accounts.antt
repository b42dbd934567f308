-- ===== src/Agent/Uploader/Session/Accounts.antt =====
-- What is lost over the life of the uploader (grpc_client.rs), and what of it is counted.
use Prim.Native.String.{String}
use perf_weave.Base.{ℕ, ◌+◌, ◌^◌, ◌≡◌, ◌<◌, refl, List, [], ◌∷◌, arith, length, length-append}
use perf_weave.Proto.{Event, MetricFrame}
use perf_weave.Agent.Channel.{Channel}
use perf_weave.Agent.ClockSync.{OffsetHandle}
use perf_weave.Agent.Uploader.Session.{
  Turn, Output, delivered, refused, warned, reset_interner, sleep, started, run,
}
use perf_weave.Agent.Uploader.Session.Trace.{
  offered_batches, delivered_batches, refused_batches, events_of, frames_of, warned_events,
  warned_frames, pushed_events, pushed_frames,
}
use perf_weave.Agent.Uploader.Session.Carried.{Carries}
use perf_weave.Agent.Uploader.Session.Life.{run-Carries, new-Carries}

offered-events :
    (os : List Output)
    → length (events_of (offered_batches os))
      ≡ length (events_of (delivered_batches os)) + length (events_of (refused_batches os))
offered-events [] = refl
offered-events (delivered b ∷ os) = omega (
  arith,
  offered-events os,
  length-append b.events (events_of (offered_batches os)),
  length-append b.events (events_of (delivered_batches os)),
)
offered-events (refused b ∷ os) = omega (
  arith,
  offered-events os,
  length-append b.events (events_of (offered_batches os)),
  length-append b.events (events_of (refused_batches os)),
)
offered-events (warned d df ∷ os) = offered-events os
offered-events (reset_interner ∷ os) = offered-events os
offered-events (sleep ms ∷ os) = offered-events os

offered-frames :
    (os : List Output)
    → length (frames_of (offered_batches os))
      ≡ length (frames_of (delivered_batches os)) + length (frames_of (refused_batches os))
offered-frames [] = refl
offered-frames (delivered b ∷ os) = omega (
  arith,
  offered-frames os,
  length-append b.metric_frames (frames_of (offered_batches os)),
  length-append b.metric_frames (frames_of (delivered_batches os)),
)
offered-frames (refused b ∷ os) = omega (
  arith,
  offered-frames os,
  length-append b.metric_frames (frames_of (offered_batches os)),
  length-append b.metric_frames (frames_of (refused_batches os)),
)
offered-frames (warned d df ∷ os) = offered-frames os
offered-frames (reset_interner ∷ os) = offered-frames os
offered-frames (sleep ms ∷ os) = offered-frames os

module _ (hash : String → ℕ) (ce : Channel Event) (cf : Channel MetricFrame)
    (max_batch_events node_id : ℕ) where
  -- For any turns of an agent that has just started, and fewer than 2^64 events and frames: the events of
  -- the batches offered to the stream, taken or refused, and then those that wait are some of those
  -- pushed, in order and unchanged but for the time stamp. The number of those pushed is the sum of the
  -- events of batches taken, the events of batches refused, those that wait, those dropped by the ring
  -- that a warning has named, and the counter of those dropped. So for frames. What a refused batch
  -- holds is lost, and no counter or warning has it.
  pub run-Accounts :
      (capacity : ℕ) (offsets : OffsetHandle) (ts : List Turn)
      → length (pushed_events ts) < 2 ^ 64
      → length (pushed_frames ts) < 2 ^ 64
      → let r =
          run hash ce cf max_batch_events node_id
            (started hash ce cf max_batch_events node_id capacity offsets)
            ts in
        Carries hash ce cf max_batch_events node_id r.0 r.1 (pushed_events ts) (pushed_frames ts)
        × (length (events_of (delivered_batches r.1))
              + length (events_of (refused_batches r.1))
              + length (ce.queue r.0.ring.events)
              + warned_events r.1
              + r.0.ring.dropped
            ≡ length (pushed_events ts))
        × (length (frames_of (delivered_batches r.1))
              + length (frames_of (refused_batches r.1))
              + length (cf.queue r.0.ring.frames)
              + warned_frames r.1
              + r.0.ring.dropped_frames
            ≡ length (pushed_frames ts))
  run-Accounts capacity offsets ts he hf =
      let r =
        run hash ce cf max_batch_events node_id
          (started hash ce cf max_batch_events node_id capacity offsets) ts in
      let c =
        run-Carries hash ce cf max_batch_events node_id ts
          (new-Carries hash ce cf max_batch_events node_id capacity offsets) (omega (arith, he))
          (omega (arith, hf)) in
      (
        c,
        omega (arith, c.events.count, offered-events r.1),
        omega (arith, c.frames.count, offered-frames r.1),
      )
