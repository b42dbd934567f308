-- ===== src/Inject/Ship.antt =====
-- crates/perfweave-cupti-inject/src/lib.rs and transport.rs: how the batches of the injected process
-- reach the agent's socket. The socket and the clock are the environment: it says how each try to
-- connect ends, and how much of each write gets through. The protobuf encoding is a parameter; an
-- encoding into a growing vector does not fail.
pub mod Retry
pub mod Frames
pub mod Deliver
use perf_weave.Base.{
  ℕ, ◌+◌, ◌-◌, ◌*◌, ◌/◌, ◌%◌, Bool, true, false, Option, none, some, List, [], ◌∷◌, ◌++◌, length,
  leb, if◌then◌else◌, min, take,
}
use perf_weave.Base.Words.{add_u64, saturating_sub, u32_mod}
use perf_weave.Proto.{Batch}

-- In milliseconds.
abbrev pub init_budget : ℕ
init_budget = 10_000

abbrev pub min_backoff : ℕ
min_backoff = 50

abbrev pub max_backoff : ℕ
max_backoff = 500

-- One try to connect: it succeeds, or fails with the clock, just after, at the given time.
pub data Try : Type 0 where
  connected : Try
  failed : ℕ → Try

-- How a loop ends; `waiting` if the environment has not let it finish.
pub data RetryEnd : Type 0 where
  ok err waiting : RetryEnd

-- The loop of `connect` and of `reconnect`: the sleeps that it makes, and its end.
unfoldable pub retry_loop : ℕ → ℕ → List Try → List ℕ × RetryEnd
retry_loop deadline backoff [] = ([], waiting)
retry_loop deadline backoff (connected ∷ tries) = ([], ok)
retry_loop deadline backoff (failed now ∷ tries) =
    let more = retry_loop deadline (min (backoff * 2) max_backoff) tries in
    if leb deadline now
    then ([], err)
    else (min backoff (saturating_sub deadline now) ∷ more.0, more.1)

-- `start` is the clock's reading at the call.
unfoldable pub reconnect : ℕ → ℕ → List Try → List ℕ × RetryEnd
unfolding retry_loop
reconnect budget start tries = retry_loop (start + budget) min_backoff tries

unfoldable pub connect : ℕ → List Try → List ℕ × RetryEnd
unfolding retry_loop
connect start tries = retry_loop (start + init_budget) min_backoff tries

-- `u32::to_le_bytes`.
abbrev pub le_bytes : ℕ → List ℕ
le_bytes n = n % 256 ∷ n / 256 % 256 ∷ n / 65_536 % 256 ∷ n / 16_777_216 % 256 ∷ []

-- A connection: what got through to its other end, and whether a write on it has failed. From then on
-- every write fails, as on a socket whose other end is gone.
pub record Conn : Type 0 where
  pub bytes : List ℕ
  pub broken : Bool

abbrev pub fresh : Conn
fresh = record { bytes = []; broken = false }

-- How a write on a connection ends: all of it gets through, or at most the given number of bytes.
pub data Write : Type 0 where
  whole : Write
  part : ℕ → Write

abbrev pub write_all : Write → Conn → List ℕ → Conn × Bool
write_all w c buf = if c.broken then (c, false) else elim w [
  | whole ↦ (record c { bytes = c.bytes ++ buf }, true)
  | part n ↦ (record { bytes = c.bytes ++ take (min n (length buf - 1)) buf; broken = true }, false)
]

-- The injector and its counter; `closed` are the connections that it has replaced, in order.
pub record Injector : Type 0 where
  pub transport : Option Conn
  pub closed : List Conn
  pub dropped_batches : ℕ

abbrev pub unconnected : Injector
unconnected = record { transport = none; closed = []; dropped_batches = 0 }

-- What happens to one call of `ship`: whether the connection is made, if none is held; the write;
-- whether the reconnection after a failed write succeeds; and the write after that.
pub record Answers : Type 0 where
  pub connects : Bool
  pub write : Write
  pub reconnects : Bool
  pub rewrite : Write

abbrev pub count_drop : Injector → Injector
count_drop s = record s { dropped_batches = add_u64 s.dropped_batches 1 }

-- `ship` once a connection is held.
abbrev pub ship_on : Answers → Injector → Conn → List ℕ → Injector
ship_on a s c buf =
    let (c', done) = write_all a.write c buf in
    if done
    then record s { transport = some c' }
    else if a.reconnects
    then record (count_drop s) {
      transport = some (write_all a.rewrite fresh buf).0;
      closed = s.closed ++ c' ∷ [];
    }
    else record (count_drop s) { transport = some c' }

module _ (encode : Batch → List ℕ) where
  abbrev pub frame : Batch → List ℕ
  frame b = le_bytes (length (encode b) % u32_mod) ++ encode b

  unfoldable pub ship : Answers → Injector → Batch → Injector
  ship a s b = elim s.transport [
    | some c ↦ ship_on a s c (frame b)
    | none ↦ if a.connects then ship_on a s fresh (frame b) else count_drop s
  ]

  -- A sequence of calls, each with the environment's answers.
  unfoldable pub ship_all : Injector → List (Answers × Batch) → Injector
  unfolding ship
  ship_all s [] = s
  ship_all s ((a, b) ∷ calls) = ship_all (ship a s b) calls
