-- ===== src/Server/Tests.antt =====
-- Runs of the server's parts at concrete inputs.
use perf_weave.Server.Sink.Rows.ReadBack.{Belongs, read_payload, read_payload-row_of_event}
use perf_weave.Base.{
  length, ℕ, ◌<◌, ◌≡◌, refl, true, false, none, some, List, [], ◌∷◌, ◌++◌, arith, last_n,
}
use mathlib.Core.List.{foldl}
use perf_weave.Base.Int.{pos, negsuc}
use perf_weave.Base.Maps.{lookup}
use perf_weave.Proto
use perf_weave.Proto.Defaults.{getters}
use perf_weave.Proto.{
  Event, Payload, Batch, MetricFrame, Ack, Category, MemcpyKind, Bound, Confidence, Source, Getters,
  AgentHello,
}
use perf_weave.Common.Clock
use perf_weave.Common.Clock.{ClockOffset}
use perf_weave.Agent.ClockSync.{latest_proto, proto_of}
use perf_weave.Server.FastRing.{
  SeriesKey, Sample, SeriesRing, series_key_eq, new_series, push_series, snapshot_series, snapshot,
  publish, slow_capacity, fast_capacity,
}
use perf_weave.Server.FastRing
use perf_weave.Server.FastRing.Refine.{decimate, history_snapshot, snapshot_series-foldl}
use perf_weave.Server.FastRing.Table.{push_all, publish_refines}
use perf_weave.Server.Skew
use perf_weave.Server.Skew.{upsert, map_ts}
use perf_weave.Server.Skew.Wire.{Maps, map_ts-latest_proto}
use perf_weave.Server.Sink.Rows.{row_of_event}
use perf_weave.Server.Sink.Loop.{SinkMsg, no_rows, Outcome, Store, Turn, message, tick, run}
use perf_weave.Server.Sink.Durable.{
  Stored, Durable, empty-Durable, accepted, run-Durable, run-Stored,
}
use perf_weave.Server.Ingest.{
  Collector, sent, full, Inbound, batch, error, ingest, split_batch, absorb_offsets, kernel_frame,
  correct,
}
use perf_weave.Server.Ingest.Account.{Balanced, ingest-Balanced}
use perf_weave.Server.Ingest.Split.{frame_samples, event_samples, split_batch_lem}

-- Samples of two series, interleaved.
abbrev key : ℕ → SeriesKey
key m = record { node_id = 1; gpu_id = 0; metric_id = m }

abbrev at : ℕ → Sample
at ts = record { ts_ns = ts; value = ts }

abbrev samples : List Sample
samples = at 1_000_000_000 ∷ at 1_500_000_000 ∷ at 2_000_000_000 ∷ []

abbrev pushes : List (SeriesKey × Sample)
pushes =
    (key 1, at 1_000_000_000)
    ∷ (key 2, at 5)
    ∷ (key 1, at 1_500_000_000)
    ∷ (key 1, at 2_000_000_000)
    ∷ []

publish_refines_example :
    let shown = snapshot (publish 77 (push_all FastRing.new pushes)) in
    (lookup (key 1) shown.series ≡ some (history_snapshot samples)) × (shown.published_at_ns ≡ 77)
publish_refines_example = publish_refines pushes 77 (key 1)

snapshot_series-foldl_example :
    let all = at 0 ∷ samples in
    let shot = snapshot_series (foldl push_series new_series all) in
    (shot.fast ≡ last_n fast_capacity all)
    × (shot.slow ≡ last_n slow_capacity (decimate 0 all))
    × (shot.slow ≡ last_n slow_capacity (decimate 0 samples))
snapshot_series-foldl_example = snapshot_series-foldl (at 0 ∷ []) samples (omega arith, tt)

-- The pushes of the source's test `basic_push_and_snapshot`: four samples are in the slow tail, not five.
abbrev five : List Sample
five = at 0 ∷ at 1_000_000_000 ∷ at 2_000_000_000 ∷ at 3_000_000_000 ∷ at 4_000_000_000 ∷ []

five_test : length (decimate 0 five) ≡ 4
unfolding decimate
five_test = refl

-- A source clock that runs ahead by 2^10 ns, and one that runs behind by 100 ns.
abbrev ahead : ClockOffset
ahead = record {
  offset_ns = negsuc 1_023;
  slope_num = pos 3;
  slope_den = pos 2;
  residual_max_ns = 4;
  fitted_at_host_ns = 1;
}

abbrev behind : ClockOffset
behind = record ahead { offset_ns = pos 100; slope_num = pos 1_000; slope_den = pos 1_000 }

ahead-Maps : Maps ahead 3 2 5_000
ahead-Maps = record {
  slope_num = refl;
  slope_den = refl;
  num_fits = omega arith;
  den_pos = omega arith;
  den_fits = omega arith;
  product_fits = omega arith;
  offset_low = omega arith;
  offset_high = omega arith;
  host_low = omega arith;
  host_high = omega arith;
}

behind-Maps : (src : ℕ) → src < 1_000_000 → Maps behind 1_000 1_000 src
behind-Maps src h = record {
  slope_num = refl;
  slope_den = refl;
  num_fits = omega arith;
  den_pos = omega arith;
  den_fits = omega arith;
  product_fits = omega arith;
  offset_low = omega arith;
  offset_high = omega arith;
  host_low = omega arith;
  host_high = omega arith;
}

ahead-sent : latest_proto (record { inner = ahead }) 5 ≡ some (proto_of 5 ahead)
unfolding latest_proto
ahead-sent = refl

behind-sent : latest_proto (record { inner = behind }) 5 ≡ some (proto_of 5 behind)
unfolding latest_proto
behind-sent = refl

map_ts-latest_proto_example :
    map_ts (upsert 9 Skew.new (proto_of 5 ahead)) 5 0 5_000 ≡ Clock.map ahead 5_000
map_ts-latest_proto_example = map_ts-latest_proto ahead-Maps Skew.new 9 5 ahead-sent

-- A batch with a kernel, a metric and a fit.
abbrev kernel_event : Event
kernel_event = record {
  ts_ns = 5_000;
  duration_ns = 10;
  node_id = 5;
  gpu_id = 0;
  pid = 7;
  tid = 7;
  ctx_id = 0;
  stream_id = 2;
  category = 3;
  name_id = 9;
  correlation_id = 4;
  parent_id = 0;
  payload = none;
}

abbrev metric_event : Event
metric_event = record kernel_event {
  category = 1;
  payload = some (Payload.metric (record { metric_id = 1; value = 0; unit = "" }));
}

abbrev two_events : Batch
two_events = record {
  events = metric_event ∷ kernel_event ∷ [];
  strings = record { id = 9; text = "gemm" } ∷ [];
  offsets = proto_of 5 behind ∷ [];
  metric_frames =
      record {
        node_id = 5;
        gpu_id = 0;
        ts_ns = 4_000;
        points = record { metric_id = 2; value = 1 } ∷ [];
      }
      ∷ [];
}

abbrev collector : Collector
collector = record { fast = FastRing.new; skew = Skew.new; kernels = []; sunk = [] }

split_batch_lem_example :
    let skew = absorb_offsets 9 Skew.new two_events.offsets in
    let (c', out) = split_batch 9 collector two_events in
    (c'.skew ≡ skew)
    × (c'.fast
        ≡ push_all FastRing.new
            (frame_samples skew two_events.metric_frames ++ event_samples two_events.events))
    × (c'.kernels ≡ kernel_frame 9 (correct skew kernel_event) ∷ [])
    × (c'.sunk ≡ [])
    × (out.events ≡ correct skew kernel_event ∷ [])
    × (out.strings ≡ two_events.strings)
    × (out.offsets ≡ two_events.offsets)
    × (out.metric_frames ≡ [])
split_batch_lem_example = split_batch_lem 9 collector two_events

abbrev stream : List Inbound
stream = batch 9 two_events sent true ∷ batch 10 two_events full true ∷ error ∷ []

ingest-Balanced_example :
    Balanced 0 0 (ingest collector (record { accepted = 0; dropped = 0 }) stream).1 stream
ingest-Balanced_example =
    ingest-Balanced stream collector (record { accepted = 0; dropped = 0 }) 0 0 (refl, refl)

-- A run in which the insert of the events fails once.
abbrev all_ok : Outcome
all_ok = record {
  strings_ok = true;
  events_ok = true;
  offsets_ok = true;
  sol_ok = true;
  spikes_ok = true;
}

abbrev turns : List (Turn × Outcome)
turns =
    (message 9 (SinkMsg.batch two_events), all_ok)
    ∷ (tick, record all_ok { events_ok = false })
    ∷ []

abbrev start : Store
start = record { pending = no_rows; tables = no_rows }

run-Stored_example :
    Stored (accepted getters no_rows turns) (run getters 10 turns all_ok start).tables
run-Stored_example = run-Stored getters 10 turns all_ok no_rows (refl, refl, refl, refl, refl)

run-Durable_example :
    Durable
      (accepted getters no_rows turns)
      (run getters 10 turns (record all_ok { strings_ok = false }) start)
run-Durable_example =
    run-Durable getters 10 turns (record all_ok { strings_ok = false }) (empty-Durable no_rows)

abbrev buffered : Store
buffered = record start {
  pending = record no_rows {
    strings = record { id = 9; text = "gemm" } ∷ [];
    events = row_of_event getters kernel_event ∷ [];
  };
}

-- An agent without an id of its own.
abbrev hello : AgentHello
hello = record {
  node_id = 0;
  hostname = "orin";
  agent_version = "0";
  num_gpus = 1;
  device_peaks = [];
  agent_rpc_addr = "http://orin:7701";
}

-- The ring as two ticks of the detector and of the live frame see it.
abbrev shown_ring : FastRing.FastRing
shown_ring = publish 77 (push_all FastRing.new pushes)

-- A copy that an agent has sent.
abbrev copy_detail : Proto.MemcpyDetail
copy_detail = record { kind = 1; bytes = 4_096; src_device = 0; dst_device = 0 }

abbrev copy_event : Event
copy_event = record kernel_event { category = 4; payload = some (Payload.memcpy copy_detail) }

read_payload-row_of_event_example :
    read_payload (row_of_event getters copy_event) ≡ some (Payload.memcpy copy_detail)
read_payload-row_of_event_example =
    read_payload-row_of_event getters copy_event (Belongs.memcpy MemcpyKind.h2d 4_096 0 0) refl refl
