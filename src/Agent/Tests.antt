-- ===== src/Agent/Tests.antt =====
-- Runs of the agent's parts at concrete inputs.
use Prim.Native.String.{String}
use text.Mathlib.Text.{◌==◌ as str_eq}
use perf_weave.Agent.ClockSync.{Reading, filter_pairs}
use perf_weave.Base.{
  ℕ, ◌≡◌, refl, ◌⊎◌, inr, true, false, ◌&&◌, none, some, List, [], ◌∷◌, ◌++◌, map, arith, is_empty,
  if◌then◌else◌, replicate, All, Option, take,
}
use perf_weave.Proto.{Event, MetricFrame, Batch}
use perf_weave.Agent.Channel.Bounded.{list_channel}
use perf_weave.Agent.Ring.{EventRing, new, push, drain_up_to, drain_frames}
use perf_weave.Agent.Ring.Fifo.{
  Op, put, drain, pushed, run, Conserves, new-Conserves, run-Conserves, drain_frames_lem,
}
use perf_weave.Agent.ClockSync
use perf_weave.Agent.ClockSync.{OffsetHandle, current}
use perf_weave.Inject.Ship.{Conn, frame}
use perf_weave.Inject.Ship.Frames.{frames}
use perf_weave.Agent.Cupti.{handle_conn, push_events}
use perf_weave.Agent.Cupti.Receive.{handle_conn-Carries, events_of}
use perf_weave.Common.Intern
use perf_weave.Common.Intern.{record_all}
use perf_weave.Agent.Uploader.{
  correct, units, flush_tick, Attempt, no_connection, session_error, session_done, first_backoff,
  run_loop,
}
use perf_weave.Agent.Uploader
use perf_weave.Agent.Uploader.Flush.{flush_tick_lem, batch_of}
use perf_weave.Agent.Uploader.Backoff.{run_lem, InBounds, doubling}

-- A hash for three texts.
abbrev toy_hash : String → ℕ
toy_hash text = if str_eq text "ms" then 1 else if str_eq text "us" then 2 else 3

abbrev event_at : ℕ → Event
event_at ts = record {
  ts_ns = ts;
  duration_ns = 0;
  node_id = 1;
  gpu_id = 0;
  pid = 7;
  tid = 0;
  ctx_id = 0;
  stream_id = 0;
  category = 3;
  name_id = 9;
  correlation_id = 0;
  parent_id = 0;
  payload = none;
}

abbrev frame_at : ℕ → MetricFrame
frame_at ts = record {
  node_id = 1;
  gpu_id = 0;
  ts_ns = ts;
  points = record { metric_id = 1; value = 0 } ∷ [];
}

abbrev Ring : Type 0
Ring = EventRing list_channel list_channel

-- A ring for two events, with three pushed.
abbrev ops : List Op
ops = put (event_at 1) ∷ put (event_at 2) ∷ put (event_at 3) ∷ drain 1 ∷ put (event_at 4) ∷ []

abbrev small : Ring
small = new list_channel list_channel 2

abbrev filled : Ring
filled = record small {
  events = (event_at 1 ∷ event_at 2 ∷ [], 2);
  frames = (frame_at 1 ∷ frame_at 2 ∷ [], 256);
}

third_dropped : (run list_channel list_channel small [] ops).0.dropped ≡ 1
unfolding run push drain_up_to
third_dropped = refl

run-Conserves_example :
    let (r', seen') = run list_channel list_channel small [] ops in
    Conserves list_channel list_channel r' seen' ([] ++ pushed ops)
run-Conserves_example =
    run-Conserves list_channel list_channel ops (new-Conserves list_channel list_channel 2)
      (omega arith)

drain_frames_lem_example :
    (c : List MetricFrame × ℕ) × (drain_frames list_channel list_channel 3 filled
      ≡ some (record filled { frames = c }, frame_at 1 ∷ frame_at 2 ∷ []))
    × (c.0 ≡ [])
drain_frames_lem_example = drain_frames_lem list_channel list_channel 3 filled (omega arith)

flush_tick_lem_example :
    let taken = event_at 1 ∷ [] in
    let frames = frame_at 1 ∷ frame_at 2 ∷ [] in
    (r' : Ring) × (taken ++ r'.events.0 ≡ event_at 1 ∷ event_at 2 ∷ [])
    × (r'.frames.0 ≡ [])
    × (r'.dropped ≡ filled.dropped)
    × (r'.dropped_frames ≡ filled.dropped_frames)
    × ((((is_empty taken && is_empty frames) ≡ true)
          × (flush_tick toy_hash list_channel list_channel 3 1 1 ClockSync.default filled Intern.new
              ≡ some (r', Intern.new, none)))
        ⊎ (((is_empty taken && is_empty frames) ≡ false)
            × (flush_tick toy_hash list_channel list_channel 3 1 1 ClockSync.default filled
                  Intern.new
                ≡ some (
                  r',
                  (record_all toy_hash Intern.new
                      (units (map (correct (current ClockSync.default)) taken))).0,
                  some (
                      batch_of toy_hash list_channel list_channel 1 ClockSync.default Intern.new
                        taken frames),
                ))))
flush_tick_lem_example =
    flush_tick_lem toy_hash list_channel list_channel 3 1 1 ClockSync.default filled Intern.new
      (omega arith)

run_lem_example :
    All InBounds (Uploader.run (no_connection ∷ session_error ∷ session_done ∷ []))
    × (Uploader.run (replicate 7 no_connection ++ session_done ∷ [])
        ≡ doubling 0 7 ++ run_loop 10_000 (session_done ∷ []))
    × (Uploader.run
          (no_connection ∷ session_error ∷ (replicate 7 no_connection ++ session_done ∷ []))
        ≡ Uploader.run (no_connection ∷ session_error ∷ [])
          ++ (doubling 0 7 ++ run_loop 10_000 (session_done ∷ [])))
run_lem_example =
    run_lem (no_connection ∷ session_error ∷ session_done ∷ []) (no_connection ∷ [])
      (session_done ∷ []) 7 tt

-- A connection with one batch and a part of a second one.
abbrev one_batch : Batch
one_batch = record {
  events = event_at 5 ∷ event_at 6 ∷ [];
  strings = [];
  offsets = [];
  metric_frames = [];
}

abbrev encode_toy : Batch → List ℕ
encode_toy b = 1 ∷ 2 ∷ []

abbrev decode_toy : List ℕ → Option Batch
decode_toy bytes = some one_batch

abbrev cut_conn : Conn
cut_conn = record {
  bytes = frames encode_toy (one_batch ∷ []) ++ take 5 (frame encode_toy one_batch);
  broken = true;
}

handle_conn-Carries_example :
    handle_conn decode_toy list_channel list_channel 2 cut_conn.bytes small
    ≡ some (push_events decode_toy list_channel list_channel small (events_of (one_batch ∷ [])))
handle_conn-Carries_example =
    handle_conn-Carries decode_toy list_channel list_channel encode_toy cut_conn (one_batch ∷ [])
      small
      (take 5 (frame encode_toy one_batch), refl, inr (refl, inr (one_batch, 5, omega arith, refl)))
      ((omega arith, refl), tt) (λ b. omega arith)

-- Three readings, of which one was interrupted.
abbrev readings : List Reading
readings =
    record { before = 100; src_ns = 7; after = 104 }
    ∷ record { before = 200; src_ns = 107; after = 900 }
    ∷ record { before = 1_000; src_ns = 907; after = 1_002 }
    ∷ []
