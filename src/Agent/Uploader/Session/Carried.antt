-- ===== src/Agent/Uploader/Session/Carried.antt =====
-- The account of the uploader's events and frames (grpc_client.rs), and the steps at the ring's ends.
use Prim.Native.String.{String}
use perf_weave.Base.{
  ℕ, ◌+◌, ◌^◌, ◌≡◌, ◌≢◌, ◌<◌, ◌≤◌, Bool, true, false, not, ◌||◌, Bool-cases, inl, inr, List, [],
  ◌∷◌, ◌++◌, arith, length, ◌==◌, if◌then◌else◌,
}
use perf_weave.Base.Words.{add_u64}
use mathlib.Core.List.{append-nil}
use perf_weave.Proto.{Event, MetricFrame}
use perf_weave.Agent.Channel.{Channel}
use perf_weave.Agent.Ring.{push, push_frame}
use perf_weave.Agent.Uploader.Session.{Output, warned, stuck, Agent, on_dropped_tick}
use perf_weave.Agent.Uploader.Session.Trace.{
  untimed, offered_batches, events_of, frames_of, warned_events, warned_frames, events_of-append,
  frames_of-append, offered_batches-append, warned-append,
}
use perf_weave.Agent.Uploader.Session.Lanes.{Lane, send-Lane}

module _ (hash : String → ℕ) (ce : Channel Event) (cf : Channel MetricFrame)
    (max_batch_events node_id : ℕ) where
  -- The events that were offered to the stream or still wait are some of those pushed, in order and unchanged but for the
  -- correction of their time, and the warnings with the counter have the number of the rest; so for frames.
  pub record Carries (a : Agent hash ce cf max_batch_events node_id) (outs : List Output)
      (es : List Event) (fs : List MetricFrame) : Type 0 where
    pub events :
        Lane ce untimed a.ring.events
          (events_of (offered_batches outs))
          es
          (warned_events outs + a.ring.dropped)
    pub frames :
        Lane cf
          (λ f. f)
          a.ring.frames
          (frames_of (offered_batches outs))
          fs
          (warned_frames outs + a.ring.dropped_frames)
    pub running : a.phase ≢ stuck

  -- A step that adds `o` to what comes out.
  pub carry :
      {a : Agent hash ce cf max_batch_events node_id} (outs o : List Output) {es : List Event}
      {fs : List MetricFrame}
      → Lane ce untimed a.ring.events
          (events_of (offered_batches outs) ++ events_of (offered_batches o))
          es
          ((warned_events outs + warned_events o) + a.ring.dropped)
      → Lane cf
          (λ f. f)
          a.ring.frames
          (frames_of (offered_batches outs) ++ frames_of (offered_batches o))
          fs
          ((warned_frames outs + warned_frames o) + a.ring.dropped_frames)
      → a.phase ≢ stuck
      → Carries a (outs ++ o) es fs
  carry {a} outs o {es} {fs} e f r =
      let s = offered_batches-append outs o in
      let w = warned-append outs o in
      record {
        events = rw (s, events_of-append (offered_batches outs) (offered_batches o), w.0) e;
        frames = rw (s, frames_of-append (offered_batches outs) (offered_batches o), w.1) f;
        running = r;
      }

  -- A step that leaves the ring alone, sends nothing and warns of nothing.
  pub still :
      {a a' : Agent hash ce cf max_batch_events node_id} {outs : List Output} {es : List Event}
      {fs : List MetricFrame}
      → Carries a outs es fs
      → (o : List Output) → a'.ring ≡ a.ring
      → a'.phase ≢ stuck
      → offered_batches o ≡ []
      → warned_events o ≡ 0
      → warned_frames o ≡ 0
      → Carries a' (outs ++ o) (es ++ []) (fs ++ [])
  still {a} {a'} {outs} c o same r none_sent we wf =
      let x : warned_events outs + 0 ≡ warned_events outs = omega arith in
      let y : warned_frames outs + 0 ≡ warned_frames outs = omega arith in
      carry outs o (rw (same, none_sent, we, x, append-nil, append-nil) c.events)
        (rw (same, none_sent, wf, y, append-nil, append-nil) c.frames) r

  lost_lem :
      (ok : Bool) (w d n : ℕ)
      → w + d ≤ n
      → n + 1 < 2 ^ 64
      → (if ok then w + d else w + d + 1) ≡ w + 0 + (if ok then d else add_u64 d 1)
  lost_lem true w d n h lt = omega arith
  lost_lem false w d n h lt = omega arith

  pub push-Carries :
      {a : Agent hash ce cf max_batch_events node_id} {outs : List Output} {es : List Event}
      {fs : List MetricFrame} (e : Event)
      → Carries a outs es fs
      → length es + 1 < 2 ^ 64
      → Carries (record a { ring = push ce cf a.ring e }) (outs ++ []) (es ++ e ∷ []) (fs ++ [])
  unfolding push
  push-Carries {a} {outs} {es} {fs} e c lt =
      let ok = (ce.try_send a.ring.events e).1 in
      let lost =
        lost_lem ok (warned_events outs) a.ring.dropped (length es) (omega (arith, c.events.count))
          lt in
      let y : warned_frames outs + 0 ≡ warned_frames outs = omega arith in
      carry outs [] (rw (append-nil, ← lost) (send-Lane ce untimed e c.events))
        (rw (append-nil, append-nil, y) c.frames) c.running

  pub push_frame-Carries :
      {a : Agent hash ce cf max_batch_events node_id} {outs : List Output} {es : List Event}
      {fs : List MetricFrame} (f : MetricFrame)
      → Carries a outs es fs
      → length fs + 1 < 2 ^ 64
      → Carries
          (record a { ring = push_frame ce cf a.ring f })
          (outs ++ [])
          (es ++ [])
          (fs ++ f ∷ [])
  unfolding push_frame
  push_frame-Carries {a} {outs} {es} {fs} f c lt =
      let ok = (cf.try_send a.ring.frames f).1 in
      let lost =
        lost_lem ok (warned_frames outs) a.ring.dropped_frames (length fs)
          (omega (arith, c.frames.count)) lt in
      let y : warned_events outs + 0 ≡ warned_events outs = omega arith in
      carry outs [] (rw (append-nil, append-nil, y) c.events)
        (rw (append-nil, ← lost) (send-Lane cf (λ f. f) f c.frames)) c.running

  pub dropped_tick-Carries :
      {a : Agent hash ce cf max_batch_events node_id} {outs : List Output} {es : List Event}
      {fs : List MetricFrame}
      → Carries a outs es fs
      → let (a', o) = on_dropped_tick hash ce cf max_batch_events node_id a in
        Carries a' (outs ++ o) (es ++ []) (fs ++ [])
  unfolding on_dropped_tick
  dropped_tick-Carries {a} {outs} {es} {fs} c =
      let d = a.ring.dropped in
      let df = a.ring.dropped_frames in
      elim (Bool-cases (not (d == 0) || not (df == 0))) [
        | inl some_lost ↦
            let x : warned_events outs + (d + 0) + 0 ≡ warned_events outs + d = omega arith in
            let y : warned_frames outs + (df + 0) + 0 ≡ warned_frames outs + df = omega arith in
            rw some_lost (
              carry outs (warned d df ∷ []) (rw (append-nil, append-nil, x) c.events)
                (rw (append-nil, append-nil, y) c.frames) c.running)
        | inr none_lost ↦
            let x : warned_events outs + 0 + 0 ≡ warned_events outs + d = ground arith in
            let y : warned_frames outs + 0 + 0 ≡ warned_frames outs + df = ground arith in
            rw none_lost (
              carry outs [] (rw (append-nil, append-nil, x) c.events)
                (rw (append-nil, append-nil, y) c.frames) c.running)
      ]
