-- ===== src/Agent/Uploader/Session/Tests.antt =====
-- A life of the uploader with a refused batch, an overflow and a second connection.
use Prim.Native.String.{String}
use text.Mathlib.Text.{◌==◌ as str_eq}
use perf_weave.Base.{ℕ, ◌+◌, ◌≡◌, refl, true, false, some, List, [], ◌∷◌, arith, if◌then◌else◌}
use perf_weave.Proto.{Event, Payload}
use perf_weave.Agent.Channel.Bounded.{list_channel}
use perf_weave.Agent.ClockSync
use perf_weave.Agent.Ring.{drain_frames, drain_up_to, push}
use perf_weave.Agent.Uploader.{flush_tick}
use perf_weave.Agent.Uploader.Session.{
  Turn, pushed, connect, flush, dropped_tick, message, no_connection, opened, Agent, started, run,
  Output, delivered, refused, warned, reset_interner, sleep, failed,
}
use perf_weave.Agent.Uploader.Session.Trace.{pushed_events, pushed_frames}
use perf_weave.Agent.Uploader.Session.Carried.{Carries}
use perf_weave.Agent.Uploader.Session.Accounts.{run-Accounts}
use perf_weave.Agent.Uploader.Session.Announced.{Known, run-Known}

abbrev hash : String → ℕ
hash text = if str_eq text "ms" then 1 else 2

abbrev measured_at : ℕ → Event
measured_at ts = record {
  ts_ns = ts;
  duration_ns = 0;
  node_id = 1;
  gpu_id = 0;
  pid = 7;
  tid = 0;
  ctx_id = 0;
  stream_id = 0;
  category = 1;
  name_id = 9;
  correlation_id = 0;
  parent_id = 0;
  payload = some (Payload.metric (record { metric_id = 9; value = 0; unit = "ms" }));
}

abbrev turns : List Turn
turns =
    pushed (measured_at 1)
    ∷ connect no_connection
    ∷ connect opened
    ∷ flush false
    ∷ pushed (measured_at 2)
    ∷ pushed (measured_at 3)
    ∷ pushed (measured_at 4)
    ∷ connect opened
    ∷ dropped_tick
    ∷ flush true
    ∷ message failed
    ∷ []

abbrev agent : Agent hash list_channel list_channel 10 1
agent = started hash list_channel list_channel 10 1 2 ClockSync.default

abbrev life : Agent hash list_channel list_channel 10 1 × List Output
life = run hash list_channel list_channel 10 1 agent turns

-- Four events: one in the batch that is refused, two in the one that is taken, one dropped and warned of.
run-Accounts_example :
    Carries hash list_channel list_channel 10 1 life.0 life.1
      (pushed_events turns)
      (pushed_frames turns)
    × (2 + 1 + 0 + 1 + 0 ≡ 4)
    × (0 + 0 + 0 + 0 + 0 ≡ 0)
unfolding run flush_tick drain_frames drain_up_to push
run-Accounts_example =
    run-Accounts hash list_channel list_channel 10 1 2 ClockSync.default turns (omega arith)
      (omega arith)

run-Known_example : Known hash [] (run hash list_channel list_channel 10 1 agent turns).1
run-Known_example = run-Known hash list_channel list_channel 10 1 turns [] agent (λ id h. h)

abbrev kind : Output → ℕ
kind (delivered b) = 0
kind (refused b) = 1
kind (warned d df) = 2
kind reset_interner = 3
kind (sleep ms) = 4

abbrev kinds : List Output → List ℕ
kinds [] = []
kinds (o ∷ os) = kind o ∷ kinds os

kinds_test :
    kinds (run hash list_channel list_channel 10 1 agent turns).1
    ≡ 4 ∷ 1 ∷ 3 ∷ 4 ∷ 2 ∷ 0 ∷ 3 ∷ 4 ∷ []
unfolding run flush_tick drain_frames drain_up_to push
kinds_test = refl
