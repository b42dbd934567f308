-- ===== src/Flow/EndToEnd.antt =====
-- From a push to the agent's ring to a row of the events table.
use Prim.Native.String.{String}
use perf_weave.Base.{
  ℕ, ◌+◌, ◌^◌, ◌<◌, ◌≡◌, refl, sym, ap, subst, ◌∙◌, not, List, [], ◌++◌, map, arith, length,
  length-map, Subseq,
}
use mathlib.Core.List.{append-nil}
use perf_weave.Proto.{Event, MetricFrame, Batch, Category, Getters}
use perf_weave.Agent.Channel.{Channel}
use perf_weave.Agent.ClockSync.{OffsetHandle}
use perf_weave.Agent.Uploader.Session
use perf_weave.Agent.Uploader.Session.{Agent, Output, started}
use perf_weave.Agent.Uploader.Session.Trace.{
  untimed, offered_batches, events_of, warned_events, pushed_events, pushed_frames,
}
use perf_weave.Agent.Uploader.Session.Carried.{Carries}
use perf_weave.Agent.Uploader.Session.Life.{run-Carries, new-Carries}
use perf_weave.Server.Ingest.{Collector, Counts, Inbound, ingest, has_category}
use perf_weave.Server.Ingest.Split.{activity}
use perf_weave.Server.Sink.Rows.{row_of_event}
use perf_weave.Server.Sink.Loop.{Rows, no_rows, Outcome, Turn}
use perf_weave.Server.Sink.Loop
use perf_weave.Server.Sink.Durable.{AllOk, accepted, run-Stored}
use perf_weave.Flow.Lists.{filter-filter, filter-map, Subseq-map, Subseq-whole}
use perf_weave.Flow.Received.{received, AllTaken, ingest-sunk}
use perf_weave.Flow.Sunk.{batches, untimed_row, map-untimed_row, accepted-events}

activity-untimed : (es : List Event) → activity (map untimed es) ≡ map untimed (activity es)
activity-untimed = filter-map (λ e. not (has_category Category.metric e)) untimed (λ e. refl)

-- What the sink is handed, but for metrics, if all that was sent is received and taken.
activity_handed :
    (es : List Event) (items : List Inbound) (c : Collector) (n : Counts)
    (sts : List (Turn × Outcome)) {bs : List Batch}
    → map untimed (events_of bs) ≡ map untimed es
    → received items ≡ bs
    → AllTaken items
    → c.sunk ≡ []
    → batches sts ≡ (ingest c n items).0.sunk
    → map untimed (activity (events_of (batches sts))) ≡ map untimed (activity es)
activity_handed es items c n sts sent same taken first handed =
    let later = events_of (received items) in
    let core : map untimed (events_of (batches sts)) ≡ map untimed (activity es) =
      ap (λ bs. map untimed (events_of bs)) handed
      ∙ ingest-sunk items c n taken
      ∙ ap (λ bs. map untimed (events_of bs) ++ map untimed (activity later)) first
      ∙ sym (activity-untimed later)
      ∙ ap activity (ap (λ bs. map untimed (events_of bs)) same ∙ sent)
      ∙ activity-untimed es in
    sym (activity-untimed (events_of (batches sts)))
    ∙ ap activity core
    ∙ activity-untimed (activity es)
    ∙ ap (map untimed) (filter-filter (λ e. not (has_category Category.metric e)) es)

module _ (hash : String → ℕ) (ce : Channel Event) (cf : Channel MetricFrame)
    (max_batch_events node_id : ℕ) where
  -- An account with nothing lost and nothing left: all that was pushed was sent.
  sent_all :
      {a : Agent hash ce cf max_batch_events node_id} {outs : List Output} {es : List Event}
      {fs : List MetricFrame}
      → Carries hash ce cf max_batch_events node_id a outs es fs
      → warned_events outs + a.ring.dropped ≡ 0
      → ce.queue a.ring.events ≡ []
      → map untimed (events_of (offered_batches outs)) ≡ map untimed es
  sent_all {a} {outs} {es} c none_lost empty =
      let sent = events_of (offered_batches outs) in
      Subseq-whole (rw (empty, append-nil sent) at c.events.order) (
        omega
          (arith, length-map untimed sent, length-map untimed es, c.events.count, ap length empty))

  -- For fewer than 2^64 events and frames: if the ring has dropped no event and is empty in the end, the
  -- server receives just the batches that were sent, its sink takes each of them, and the inserts of the
  -- sink's last flush succeed, then whatever connections and inserts failed before, the table of events
  -- holds a row for every event pushed that is no metric, in the order of the pushes, unchanged but for
  -- the time stamp.
  pub run-Stored_end_to_end :
      (g : Getters) (max_batch_rows capacity : ℕ) (offsets : OffsetHandle) (ts : List Session.Turn)
      (a : Agent hash ce cf max_batch_events node_id) (outs : List Output) (c : Collector)
      (n : Counts) (items : List Inbound) (sts : List (Turn × Outcome)) (last : Outcome)
      (tables : Rows)
      → Session.run hash ce cf max_batch_events node_id
          (started hash ce cf max_batch_events node_id capacity offsets)
          ts
        ≡ (a, outs)
      → length (pushed_events ts) < 2 ^ 64
      → length (pushed_frames ts) < 2 ^ 64
      → warned_events outs + a.ring.dropped ≡ 0
      → ce.queue a.ring.events ≡ []
      → received items ≡ offered_batches outs
      → AllTaken items
      → c.sunk ≡ []
      → batches sts ≡ (ingest c n items).0.sunk
      → AllOk last
      → Subseq (map (row_of_event g) (map untimed (activity (pushed_events ts)))) (
          map untimed_row
            (Loop.run g max_batch_rows sts last
              (record { pending = no_rows; tables = tables })).tables.events)
  run-Stored_end_to_end g max_batch_rows capacity offsets ts a outs c n items sts last tables ran he
        hf none_lost empty same taken first handed ok =
      let es = pushed_events ts in
      let account =
        subst (λ p. Carries hash ce cf max_batch_events node_id p.0 p.1 es (pushed_frames ts)) ran
          (run-Carries hash ce cf max_batch_events node_id ts
            (new-Carries hash ce cf max_batch_events node_id capacity offsets) (omega (arith, he))
            (omega (arith, hf))) in
      let stored = Subseq-map untimed_row (run-Stored g max_batch_rows sts last tables ok).events in
      let rows : map untimed_row (accepted g no_rows sts).events
          ≡ map (row_of_event g) (map untimed (activity es)) =
        ap (map untimed_row) (accepted-events g sts no_rows)
        ∙ map-untimed_row g (activity (events_of (batches sts)))
        ∙ ap (map (row_of_event g)) (
            activity_handed es items c n sts (sent_all account none_lost empty) same taken first
              handed) in
      let table =
        (Loop.run g max_batch_rows sts last
          (record { pending = no_rows; tables = tables })).tables.events in
      subst (λ l. Subseq l (map untimed_row table)) rows stored
