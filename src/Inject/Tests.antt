-- ===== src/Inject/Tests.antt =====
-- Runs of the injection library's parts at concrete inputs.
use Prim.Native.String.{String}
use perf_weave.Base.{length, ℕ, ◌≡◌, ◌≤◌, none, some, [], ◌∷◌, arith, All, List, true, false}
use perf_weave.Base.Floats.{whole_numbers}
use perf_weave.Inject.Activity.{View, parse_record}
use perf_weave.Inject.Activity.Bounds.{Parsed, shape_of, parse_record_lem}
use perf_weave.Proto.{Batch}
use perf_weave.Inject.Ship.{
  Answers, whole, part, unconnected, ship_all, connected, failed, reconnect, max_backoff, err,
}
use perf_weave.Inject.Ship.Retry.{reconnect_lem}
use perf_weave.Inject.Ship.Deliver.{Accounts, shipped, ship_all-Accounts}
use perf_weave.Inject.Pm.{PmSample, Attribution, card, drain_cards, new}
use perf_weave.Inject.Pm.Cards.{
  History, IsCardOf, Member, sample_all, samples_of, total, drain_cards_lem, drain_cards_complete,
}

abbrev zero_hash : String → ℕ
zero_hash text = 0

-- A copy from host to device.
abbrev copy_view : View
copy_view = record {
  header = record { kind = 22 };
  kernel7 = record {
    registers_per_thread = 0;
    start = 0;
    end_ns = 0;
    device_id = 0;
    context_id = 0;
    stream_id = 0;
    grid_x = 0;
    grid_y = 0;
    grid_z = 0;
    block_x = 0;
    block_y = 0;
    block_z = 0;
    static_shared_memory = 0;
    dynamic_shared_memory = 0;
    local_memory_per_thread = 0;
    correlation_id = 0;
    name_ptr = none;
  };
  memcpy6 = record {
    copy_kind = 1;
    bytes = 4_096;
    start = 100;
    end_ns = 160;
    device_id = 0;
    context_id = 1;
    stream_id = 7;
    correlation_id = 42;
  };
  memset4 = record {
    bytes = 0;
    start = 0;
    end_ns = 0;
    device_id = 0;
    context_id = 0;
    stream_id = 0;
    correlation_id = 0;
  };
  api = record {
    cbid = 0;
    start = 0;
    end_ns = 0;
    process_id = 0;
    thread_id = 0;
    correlation_id = 0;
    return_value = 0;
  };
}

parse_record_lem_example : Parsed 88 (parse_record zero_hash copy_view 88) (shape_of copy_view 22)
parse_record_lem_example = parse_record_lem zero_hash copy_view 88

abbrev reading : PmSample
reading = record { sm_active_pct = 80; occupancy_pct = 75; dram_bw_pct = 10; inst_tp_pct = 60 }

-- Five samples of one kernel, and one of another.
abbrev window : History
window =
    ((0, 200), reading)
    ∷ ((0, 200), reading)
    ∷ ((0, 100), reading)
    ∷ ((0, 200), reading)
    ∷ ((0, 200), reading)
    ∷ ((0, 200), reading)
    ∷ []

drain_cards_lem_example :
    let (hs, out) = drain_cards whole_numbers (sample_all whole_numbers new window) in
    (hs ≡ []) × All (IsCardOf whole_numbers window) out
drain_cards_lem_example = drain_cards_lem whole_numbers window (omega arith)

drain_cards_complete_example :
    (a : Attribution) × (total whole_numbers none (samples_of (0, 200) window) ≡ some a)
    × Member
        (card whole_numbers a 200)
        (drain_cards whole_numbers (sample_all whole_numbers new window)).1
drain_cards_complete_example =
    drain_cards_complete whole_numbers window (0, 200) (omega arith) (omega arith)

-- Three calls: the second write breaks, and its repetition on a new connection succeeds.
abbrev empty_batch : Batch
empty_batch = record { events = []; strings = []; offsets = []; metric_frames = [] }

abbrev encode_toy : Batch → List ℕ
encode_toy b = 1 ∷ 2 ∷ []

abbrev good : Answers
good = record { connects = true; write = whole; reconnects = true; rewrite = whole }

abbrev calls : List (Answers × Batch)
calls =
    (good, empty_batch)
    ∷ (record good { write = part 3 }, empty_batch)
    ∷ (record good { write = part 0; reconnects = false }, empty_batch)
    ∷ []

ship_all-Accounts_example :
    Accounts encode_toy (ship_all encode_toy unconnected calls) (shipped calls)
ship_all-Accounts_example = ship_all-Accounts encode_toy calls (omega arith)

reconnect_lem_example :
    All
      (λ ms. (ms ≤ max_backoff) × (ms ≤ 200))
      (reconnect 200 1_000 (failed 1_001 ∷ failed 1_060 ∷ connected ∷ [])).0
    × (length (reconnect 200 1_000 (failed 1_001 ∷ failed 1_060 ∷ failed 1_300 ∷ connected ∷ [])).0
        ≡ 2)
    × ((reconnect 200 1_000 (failed 1_001 ∷ failed 1_060 ∷ failed 1_300 ∷ connected ∷ [])).1 ≡ err)
reconnect_lem_example =
    reconnect_lem 200 1_000 1_300 (failed 1_001 ∷ failed 1_060 ∷ connected ∷ [])
      (failed 1_001 ∷ failed 1_060 ∷ []) (connected ∷ []) (omega arith, (omega arith, tt))
      (omega arith, (omega arith, tt)) (omega arith)
