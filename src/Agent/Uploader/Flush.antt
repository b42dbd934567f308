-- ===== src/Agent/Uploader/Flush.antt =====
-- One flush tick of the uploader (grpc_client.rs): what is taken from the ring, and what is sent.
use Prim.Native.String.{String}
use perf_weave.Base.{
  ℕ, ◌<◌, ◌≡◌, refl, true, false, ◌&&◌, Bool-cases, ◌⊎◌, inl, inr, none, some, List, [], ◌++◌, map,
  length, take, is_empty,
}
use perf_weave.Proto.{Event, MetricFrame, Batch}
use perf_weave.Common.Intern.{Interner, record_all}
use perf_weave.Agent.Channel.{Channel}
use perf_weave.Agent.ClockSync.{OffsetHandle, current, latest_proto}
use perf_weave.Agent.Ring.{EventRing, drain_up_to}
use perf_weave.Agent.Ring.Fifo.{drain_up_to_lem, drain_frames_lem}
use perf_weave.Agent.Uploader.{correct, units, to_list, flush_tick}

module _ (hash : String → ℕ) (ce : Channel Event) (cf : Channel MetricFrame) where
  -- The batch of a tick that takes the given events and frames.
  abbrev pub batch_of : ℕ → OffsetHandle → Interner → List Event → List MetricFrame → Batch
  batch_of node_id offsets interner events frames =
      let corrected = map (correct (current offsets)) events in
      record {
        events = corrected;
        strings = (record_all hash interner (units corrected)).1;
        offsets = to_list (latest_proto offsets node_id);
        metric_frames = frames;
      }

  drain_up_to-frames : (n : ℕ) (r : EventRing ce cf) → (drain_up_to ce cf n r).0.frames ≡ r.frames
  unfolding drain_up_to
  drain_up_to-frames n r = refl

  drain_up_to-drops :
      (n : ℕ) (r : EventRing ce cf)
      → let r' = (drain_up_to ce cf n r).0 in
        (r'.dropped ≡ r.dropped) × (r'.dropped_frames ≡ r.dropped_frames)
  unfolding drain_up_to
  drain_up_to-drops n r = (refl, refl)

  -- With fuel for the queued frames a tick always ends. It takes the oldest events, up to the batch
  -- size, and all the frames, and leaves the drop counters alone. It sends nothing exactly when both lanes gave nothing, and then leaves
  -- the interner alone; otherwise it sends one batch, with just those events, corrected by the
  -- current fit, those frames, and the strings not announced before.
  pub flush_tick_lem :
      (fuel n node_id : ℕ) (offsets : OffsetHandle) (r : EventRing ce cf) (i : Interner)
      → length (cf.queue r.frames) < fuel
      → let taken = take n (ce.queue r.events) in
        let frames = cf.queue r.frames in
        (r' : EventRing ce cf) × (taken ++ ce.queue r'.events ≡ ce.queue r.events)
        × (cf.queue r'.frames ≡ [])
        × (r'.dropped ≡ r.dropped)
        × (r'.dropped_frames ≡ r.dropped_frames)
        × ((((is_empty taken && is_empty frames) ≡ true)
              × (flush_tick hash ce cf fuel n node_id offsets r i ≡ some (r', i, none)))
            ⊎ (((is_empty taken && is_empty frames) ≡ false)
                × (flush_tick hash ce cf fuel n node_id offsets r i
                    ≡ some (
                      r',
                      (record_all hash i (units (map (correct (current offsets)) taken))).0,
                      some (batch_of node_id offsets i taken frames),
                    ))))
  unfolding flush_tick
  flush_tick_lem fuel n node_id offsets r i h =
      let (got, kept) = drain_up_to_lem ce cf n r in
      let same = drain_up_to-frames n r in
      let (c, done, clear) = drain_frames_lem ce cf fuel (drain_up_to ce cf n r).0 (rw same h) in
      let drops = drain_up_to-drops n r in
      let r' = record (drain_up_to ce cf n r).0 { frames = c } in
      elim (Bool-cases (is_empty (take n (ce.queue r.events)) && is_empty (cf.queue r.frames))) [
        | inl none_queued ↦ (
          r',
          rw got at kept,
          clear,
          drops.0,
          drops.1,
          inl (none_queued, rw (done, flush_tick) (rw (got, same, none_queued) refl)),
        )
        | inr some_queued ↦ (
          r',
          rw got at kept,
          clear,
          drops.0,
          drops.1,
          inr (some_queued, rw (done, flush_tick) (rw (got, same, some_queued) refl)),
        )
      ]
