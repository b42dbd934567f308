-- ===== src/Agent/Uploader/Session/Life.antt =====
-- What becomes of every event and frame over the life of the uploader (grpc_client.rs), connections that
-- fail and batches that are refused included.
use Prim.Native.String.{String}
use perf_weave.Base.{
  none_left, ◌/◌, ℕ, suc, ◌+◌, ◌^◌, ◌≡◌, ◌≢◌, ◌<◌, refl, ap, Bool, true, false, inl, inr, some,
  List, [], ◌∷◌, ◌++◌, map, arith, length, length-append, take, is_empty, ◌&&◌, if◌then◌else◌,
}
use mathlib.Core.List.{append-nil, append_assoc}
use perf_weave.Proto.{Event, MetricFrame, Batch}
use perf_weave.Agent.Channel.{Channel}
use perf_weave.Agent.ClockSync.{OffsetHandle, current}
use perf_weave.Agent.Uploader.{correct}
use perf_weave.Agent.Uploader.Flush.{flush_tick_lem}
use perf_weave.Agent.Uploader.Session.{
  Connected, shut_before, no_connection, no_stream, opened, Message, acknowledged, ended, failed,
  Turn, pushed, pushed_frame, measured, connect, shutdown, flush, message, dropped_tick, Output,
  delivered, refused, reset_interner, sleep, stopped, stuck, is_connecting, is_in_session, Agent,
  started, try_connect, sent_batch, on_flush, on_message, only_if, turn, run,
}
use perf_weave.Agent.Uploader.Session.Trace.{
  untimed, offered_batches, events_of, frames_of, warned_events, warned_frames, put_events,
  put_frames, pushed_events, pushed_frames, map-untimed-correct,
}
use perf_weave.Agent.Uploader.Session.Lanes.{Lane, take-Lane}
use perf_weave.Agent.Uploader.Session.Carried.{
  Carries, carry, still, push-Carries, push_frame-Carries, dropped_tick-Carries,
}

is_empty-nil : {A : Type 0} (xs : List A) → is_empty xs ≡ true → xs ≡ []
is_empty-nil [] h = refl
is_empty-nil (x ∷ xs) h = cc

both : (a b : Bool) → (a && b) ≡ true → (a ≡ true) × (b ≡ true)
both a b h = ground arith

module _ (hash : String → ℕ) (ce : Channel Event) (cf : Channel MetricFrame)
    (max_batch_events node_id : ℕ) where
  abbrev Kept :
      Agent hash ce cf max_batch_events node_id × List Output
      → List Output
      → List Event
      → List MetricFrame
      → Type 0
  Kept (a', o) outs es fs = Carries hash ce cf max_batch_events node_id a' (outs ++ o) es fs

  sent-Kept :
      (takes : Bool) (a : Agent hash ce cf max_batch_events node_id) (b : Batch)
      (outs : List Output) {es : List Event} {fs : List MetricFrame}
      → Lane ce untimed a.ring.events
          (events_of (offered_batches outs) ++ (b.events ++ []))
          es
          ((warned_events outs + 0) + a.ring.dropped)
      → Lane cf
          (λ f. f)
          a.ring.frames
          (frames_of (offered_batches outs) ++ (b.metric_frames ++ []))
          fs
          ((warned_frames outs + 0) + a.ring.dropped_frames)
      → a.phase ≢ stuck
      → Kept (sent_batch hash ce cf max_batch_events node_id a takes (some b)) outs es fs
  sent-Kept true a b outs e f r =
      carry hash ce cf max_batch_events node_id outs (delivered b ∷ []) e f r
  sent-Kept false a b outs e f r =
      carry hash ce cf max_batch_events node_id outs (refused b ∷ reset_interner ∷ sleep 500 ∷ []) e
        f (λ h. cc)

  flush-Carries :
      {a : Agent hash ce cf max_batch_events node_id} {outs : List Output} {es : List Event}
      {fs : List MetricFrame} (takes : Bool)
      → Carries hash ce cf max_batch_events node_id a outs es fs
      → Kept (on_flush hash ce cf max_batch_events node_id a takes) outs (es ++ []) (fs ++ [])
  unfolding on_flush
  flush-Carries {a} {outs} {es} {fs} takes c =
      let fuel = suc (length (cf.queue a.ring.frames)) in
      let taken = take max_batch_events (ce.queue a.ring.events) in
      let queued = cf.queue a.ring.frames in
      let x : warned_events outs + 0 ≡ warned_events outs = omega arith in
      let y : warned_frames outs + 0 ≡ warned_frames outs = omega arith in
      let (r', kept, clear, d, df, how) =
        flush_tick_lem hash ce cf fuel max_batch_events node_id a.offsets a.ring a.interner
          (omega arith) in
      let cleared : queued ++ cf.queue r'.frames ≡ queued = rw (clear, append-nil) in
      elim how [
        | inl (nothing, done) ↦
            let (no_events, no_frames) = both (is_empty taken) (is_empty queued) nothing in
            let e =
              take-Lane ce untimed r'.events taken [] c.events kept
                (rw (is_empty-nil taken no_events)) in
            let f =
              take-Lane cf (λ f. f) r'.frames queued [] c.frames cleared
                (rw (is_empty-nil queued no_frames)) in
            rw (done, on_flush)
              (carry hash ce cf max_batch_events node_id outs [] (rw (x, d, append-nil es) e)
                (rw (y, df, append-nil fs) f) c.running)
        | inr (something, done) ↦
            let out' = map (correct (current a.offsets)) taken ++ [] in
            let keys : map untimed out' ≡ map untimed taken =
              rw append-nil (map-untimed-correct (current a.offsets) taken) in
            let e = take-Lane ce untimed r'.events taken out' c.events kept keys in
            let f =
              take-Lane cf (λ f. f) r'.frames queued (queued ++ []) c.frames cleared
                (rw append-nil refl) in
            rw (done, on_flush)
              (sent-Kept takes _ _ outs (rw (x, d, append-nil es) e) (rw (y, df, append-nil fs) f)
                c.running)
      ]

  only_if-Kept :
      (b : Bool) {a : Agent hash ce cf max_batch_events node_id}
      (next : Agent hash ce cf max_batch_events node_id × List Output) {outs : List Output}
      {es : List Event} {fs : List MetricFrame}
      → Carries hash ce cf max_batch_events node_id a outs es fs
      → Kept next outs (es ++ []) (fs ++ [])
      → Kept (only_if hash ce cf max_batch_events node_id b a next) outs (es ++ []) (fs ++ [])
  only_if-Kept true next c k = k
  only_if-Kept false next c k =
      still hash ce cf max_batch_events node_id c [] refl c.running refl refl refl

  connect-Kept :
      {a : Agent hash ce cf max_batch_events node_id} {outs : List Output} {es : List Event}
      {fs : List MetricFrame} (how : Connected)
      → Carries hash ce cf max_batch_events node_id a outs es fs
      → Kept (try_connect hash ce cf max_batch_events node_id a how) outs (es ++ []) (fs ++ [])
  unfolding try_connect
  connect-Kept shut_before c =
      still hash ce cf max_batch_events node_id c _ refl (λ h. cc) refl refl refl
  connect-Kept no_connection c =
      still hash ce cf max_batch_events node_id c _ refl c.running refl refl refl
  connect-Kept no_stream c =
      still hash ce cf max_batch_events node_id c _ refl (λ h. cc) refl refl refl
  connect-Kept opened c =
      still hash ce cf max_batch_events node_id c _ refl (λ h. cc) refl refl refl

  message-Kept :
      {a : Agent hash ce cf max_batch_events node_id} {outs : List Output} {es : List Event}
      {fs : List MetricFrame} (m : Message)
      → Carries hash ce cf max_batch_events node_id a outs es fs
      → Kept (on_message hash ce cf max_batch_events node_id a m) outs (es ++ []) (fs ++ [])
  unfolding on_message
  message-Kept (acknowledged ack) c =
      still hash ce cf max_batch_events node_id c _ refl c.running refl refl refl
  message-Kept ended c = still hash ce cf max_batch_events node_id c _ refl (λ h. cc) refl refl refl
  message-Kept failed c =
      still hash ce cf max_batch_events node_id c _ refl (λ h. cc) refl refl refl

  shutdown-Kept :
      {a : Agent hash ce cf max_batch_events node_id} {outs : List Output} {es : List Event}
      {fs : List MetricFrame} (flag : Bool)
      → Carries hash ce cf max_batch_events node_id a outs es fs
      → Kept (if flag then record a { phase = stopped } else a, []) outs (es ++ []) (fs ++ [])
  shutdown-Kept true c =
      still hash ce cf max_batch_events node_id c [] refl (λ h. cc) refl refl refl
  shutdown-Kept false c =
      still hash ce cf max_batch_events node_id c [] refl c.running refl refl refl

  turn-Kept :
      {a : Agent hash ce cf max_batch_events node_id} {outs : List Output} {es : List Event}
      {fs : List MetricFrame} (t : Turn)
      → Carries hash ce cf max_batch_events node_id a outs es fs
      → length es + length (put_events t) < 2 ^ 64
      → length fs + length (put_frames t) < 2 ^ 64
      → Kept
          (turn hash ce cf max_batch_events node_id a t)
          outs
          (es ++ put_events t)
          (fs ++ put_frames t)
  unfolding turn
  turn-Kept (pushed e) c he hf = push-Carries hash ce cf max_batch_events node_id e c (omega arith)
  turn-Kept (pushed_frame f) c he hf =
      push_frame-Carries hash ce cf max_batch_events node_id f c (omega arith)
  turn-Kept (measured offsets) c he hf =
      still hash ce cf max_batch_events node_id c [] refl c.running refl refl refl
  turn-Kept {a} (connect how) c he hf =
      only_if-Kept (is_connecting a.phase) _ c (connect-Kept how c)
  turn-Kept {a} (shutdown flag) c he hf =
      only_if-Kept (is_in_session a.phase) _ c (shutdown-Kept flag c)
  turn-Kept {a} (flush takes) c he hf =
      only_if-Kept (is_in_session a.phase) _ c (flush-Carries takes c)
  turn-Kept {a} (message m) c he hf = only_if-Kept (is_in_session a.phase) _ c (message-Kept m c)
  turn-Kept {a} dropped_tick c he hf =
      only_if-Kept (is_in_session a.phase) _ c
        (dropped_tick-Carries hash ce cf max_batch_events node_id c)

  -- Over any sequence of turns, from a state whose account is right, and for fewer than 2^64 events and
  -- frames each, the account stays right.
  pub run-Carries :
      (ts : List Turn) {a : Agent hash ce cf max_batch_events node_id} {outs : List Output}
      {es : List Event} {fs : List MetricFrame}
      → Carries hash ce cf max_batch_events node_id a outs es fs
      → length es + length (pushed_events ts) < 2 ^ 64
      → length fs + length (pushed_frames ts) < 2 ^ 64
      → Kept
          (run hash ce cf max_batch_events node_id a ts)
          outs
          (es ++ pushed_events ts)
          (fs ++ pushed_frames ts)
  unfolding run
  run-Carries [] {a} {outs} {es} {fs} c he hf = rw (append-nil outs, append-nil es, append-nil fs) c
  run-Carries (t ∷ ts) {a} {outs} {es} {fs} c he hf =
      let (a', o) = turn hash ce cf max_batch_events node_id a t in
      let split_e = length-append (put_events t) (pushed_events ts) in
      let split_f = length-append (put_frames t) (pushed_frames ts) in
      let next : Carries hash ce cf max_batch_events node_id a' (outs ++ o) (es ++ put_events t)
          (fs ++ put_frames t) =
        turn-Kept t c (omega (arith, split_e)) (omega (arith, split_f)) in
      let rest =
        run-Carries ts next (omega (arith, split_e, length-append es (put_events t)))
          (omega (arith, split_f, length-append fs (put_frames t))) in
      let more = (run hash ce cf max_batch_events node_id a' ts).1 in
      rw
        (
          append_assoc outs o more,
          append_assoc es (put_events t) (pushed_events ts),
          append_assoc fs (put_frames t) (pushed_frames ts),
        )
        at rest

  -- An agent that has just started has an empty account.
  pub new-Carries :
      (capacity : ℕ) (offsets : OffsetHandle)
      → Carries hash ce cf max_batch_events node_id
          (started hash ce cf max_batch_events node_id capacity offsets)
          []
          []
          []
  new-Carries capacity offsets =
      let e = (ce.queue-bounded capacity).0 in
      let f = (cf.queue-bounded (capacity / 32 + 256)).0 in
      record {
        events = record { order = rw e none_left; count = omega (arith, ap length e) };
        frames = record { order = rw f none_left; count = omega (arith, ap length f) };
        running = λ h. cc;
      }
