-- ===== src/Flow/Tests.antt =====
-- Two kernels and a copy on their way to the table, over a connection that fails first.
use Prim.Native.String.{String}
use perf_weave.Base.{ℕ, ◌+◌, ◌≡◌, refl, ap, true, false, none, List, [], ◌∷◌, map, arith, Subseq}
use perf_weave.Proto.{Event, Batch}
use perf_weave.Proto.Defaults.{getters}
use perf_weave.Agent.Channel.Bounded.{list_channel}
use perf_weave.Agent.ClockSync
use perf_weave.Agent.Ring.{drain_frames, drain_up_to, push}
use perf_weave.Agent.Uploader.{flush_tick}
use perf_weave.Agent.Uploader.Session
use perf_weave.Agent.Uploader.Session.{
  Agent, Output, started, pushed, connect, flush, no_connection, opened,
}
use perf_weave.Agent.Uploader.Session.Trace.{untimed, offered_batches, warned_events, pushed_events}
use perf_weave.Server.FastRing
use perf_weave.Server.Ingest.{Collector, Counts, Inbound, batch, sent, ingest}
use perf_weave.Server.Ingest.Split.{activity}
use perf_weave.Server.Sink.Rows.{row_of_event}
use perf_weave.Server.Sink.Loop.{SinkMsg, Outcome, Turn, message, tick, no_rows}
use perf_weave.Server.Sink.Loop
use perf_weave.Flow.Received.{received, AllTaken}
use perf_weave.Flow.Sunk.{batches, untimed_row}
use perf_weave.Flow.EndToEnd.{run-Stored_end_to_end}

abbrev hash : String → ℕ
hash text = 1

abbrev event_of : ℕ → ℕ → Event
event_of category ts = record {
  ts_ns = ts;
  duration_ns = 5;
  node_id = 1;
  gpu_id = 0;
  pid = 7;
  tid = 0;
  ctx_id = 0;
  stream_id = 0;
  category = category;
  name_id = 9;
  correlation_id = ts;
  parent_id = 0;
  payload = none;
}

abbrev turns : List Session.Turn
turns =
    pushed (event_of 3 1)
    ∷ connect no_connection
    ∷ pushed (event_of 4 2)
    ∷ connect opened
    ∷ flush true
    ∷ pushed (event_of 3 3)
    ∷ flush true
    ∷ []

abbrev start : Agent hash list_channel list_channel 10 1
start = started hash list_channel list_channel 10 1 8 ClockSync.default

abbrev life : Agent hash list_channel list_channel 10 1 × List Output
life = Session.run hash list_channel list_channel 10 1 start turns

-- Every batch arrives and is taken.
abbrev arrivals : List Batch → List Inbound
arrivals [] = []
arrivals (b ∷ bs) = batch 50 b sent true ∷ arrivals bs

received-arrivals : (bs : List Batch) → received (arrivals bs) ≡ bs
received-arrivals [] = refl
received-arrivals (b ∷ bs) = ap (◌∷◌ b) (received-arrivals bs)

arrivals-AllTaken : (bs : List Batch) → AllTaken (arrivals bs)
arrivals-AllTaken [] = tt
arrivals-AllTaken (b ∷ bs) = arrivals-AllTaken bs

abbrev all_ok : Outcome
all_ok = record {
  strings_ok = true;
  events_ok = true;
  offsets_ok = true;
  sol_ok = true;
  spikes_ok = true;
}

-- The sink gets the batches, each followed by a tick whose insert of the events fails.
abbrev messages : List Batch → List (Turn × Outcome)
messages [] = []
messages (b ∷ bs) =
    (message 60 (SinkMsg.batch b), all_ok)
    ∷ (tick, record all_ok { events_ok = false })
    ∷ messages bs

batches-messages : (bs : List Batch) → batches (messages bs) ≡ bs
batches-messages [] = refl
batches-messages (b ∷ bs) = ap (◌∷◌ b) (batches-messages bs)

abbrev collector : Collector
collector = record { fast = FastRing.new; skew = []; kernels = []; sunk = [] }

abbrev counts : Counts
counts = record { accepted = 0; dropped = 0 }

abbrev items : List Inbound
items = arrivals (offered_batches life.1)

abbrev sunk : List Batch
sunk = (ingest collector counts items).0.sunk

nothing_lost : warned_events life.1 + life.0.ring.dropped ≡ 0
unfolding Session.run flush_tick drain_frames drain_up_to push
nothing_lost = refl

nothing_left : list_channel.queue life.0.ring.events ≡ []
unfolding Session.run flush_tick drain_frames drain_up_to push
nothing_left = refl

run-Stored_end_to_end_example :
    Subseq (map (row_of_event getters) (map untimed (activity (pushed_events turns)))) (
      map untimed_row
        (Loop.run getters 100
          (messages sunk)
          all_ok
          (record { pending = no_rows; tables = no_rows })).tables.events)
run-Stored_end_to_end_example =
    run-Stored_end_to_end hash list_channel list_channel 10 1 getters 100 8 ClockSync.default turns
      life.0 life.1 collector counts items (messages sunk) all_ok no_rows refl (omega arith)
      (omega arith) nothing_lost nothing_left (received-arrivals (offered_batches life.1))
      (arrivals-AllTaken (offered_batches life.1)) refl (batches-messages sunk)
      (refl, refl, refl, refl, refl)
