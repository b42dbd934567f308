-- ===== src/Agent/Cupti.antt =====
-- crates/perfweave-agent/src/sampler/cupti.rs: the receiver of the injection library's batches. What
-- the socket delivers until it is closed is a list of bytes; decoding is a parameter.
pub mod Receive
pub mod Listen
use perf_weave.Base.{
  ℕ, zero, suc, ◌+◌, ◌*◌, Bool, true, false, Option, none, some, List, [], ◌∷◌, ltb, if◌then◌else◌,
  length, take, drop,
}
use perf_weave.Proto.{Event, MetricFrame, Batch}
use perf_weave.Agent.Channel.{Channel}
use perf_weave.Agent.Ring.{EventRing, push}

abbrev pub max_batch_bytes : ℕ
max_batch_bytes = 64 * 1_024 * 1_024

-- `read_exact`: so many bytes and those after them, or a failure if the socket is closed before.
unfoldable pub read_exact : ℕ → List ℕ → Option (List ℕ × List ℕ)
read_exact n bytes = if ltb (length bytes) n then none else some (take n bytes, drop n bytes)

-- `u32::from_le_bytes`.
unfoldable pub from_le_bytes : List ℕ → ℕ
from_le_bytes (a ∷ b ∷ c ∷ d ∷ []) = a + 256 * b + 65_536 * c + 16_777_216 * d
from_le_bytes _ = 0

module _ (decode : List ℕ → Option Batch) (ce : Channel Event) (cf : Channel MetricFrame) where
  -- The loop over a batch's events.
  abbrev pub push_events : EventRing ce cf → List Event → EventRing ce cf
  push_events r [] = r
  push_events r (e ∷ es) = push_events (push ce cf r e) es

  -- A batch that does not decode is skipped.
  abbrev pub take_payload : EventRing ce cf → Option Batch → EventRing ce cf
  take_payload r none = r
  take_payload r (some b) = push_events r b.events

  -- The loop of `handle_conn`, until the connection ends; `none` is want of fuel.
  unfoldable pub handle_conn : ℕ → List ℕ → EventRing ce cf → Option (EventRing ce cf)
  unfolding read_exact from_le_bytes
  handle_conn zero bytes r = none
  handle_conn (suc fuel) bytes r = elim (read_exact 4 bytes) [
    | none ↦ some r
    | some (len_buf, rest) ↦
        let payload =
          if ltb max_batch_bytes (from_le_bytes len_buf)
          then none
          else read_exact (from_le_bytes len_buf) rest in
        elim payload [
          | none ↦ some r
          | some (bytes', rest') ↦ handle_conn fuel rest' (take_payload r (decode bytes'))
        ]
  ]
