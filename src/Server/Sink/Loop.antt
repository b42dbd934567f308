-- ===== src/Server/Sink/Loop.antt =====
-- crates/perfweave-server/src/store/sink.rs: the writer task. It collects rows and flushes them on a
-- full batch, on a tick, and at the end. ClickHouse is the environment: for each table it says
-- whether the insert of a flush succeeds. A failed insert is taken to store nothing.
use perf_weave.Base.{
  ℕ, Bool, not, ◌&&◌, ◌||◌, List, [], ◌∷◌, ◌++◌, map, leb, ◌==◌, if◌then◌else◌, length, is_empty,
  filter,
}
use perf_weave.Proto.{Batch, Event, KernelSol, Getters, Category, category_num}
use perf_weave.Server.Sink.Rows.{
  EventRow, StringRow, OffsetRow, KernelSolRow, SpikeRow, row_of_event, row_of_string,
  row_of_offset, row_of_sol,
}

pub data SinkMsg : Type 0 where
  batch : Batch → SinkMsg
  kernel_sol : ℕ → KernelSol → SinkMsg
  spike : SpikeRow → SinkMsg

-- The five row buffers of `run`, and, for the environment, what the five tables hold.
pub record Rows : Type 0 where
  pub events : List EventRow
  pub strings : List StringRow
  pub offsets : List OffsetRow
  pub sol : List KernelSolRow
  pub spikes : List SpikeRow

abbrev pub no_rows : Rows
no_rows = record { events = []; strings = []; offsets = []; sol = []; spikes = [] }

-- Which inserts of a flush succeed.
pub record Outcome : Type 0 where
  pub strings_ok : Bool
  pub events_ok : Bool
  pub offsets_ok : Bool
  pub sol_ok : Bool
  pub spikes_ok : Bool

-- The writer's buffers beside the tables.
pub record Store : Type 0 where
  pub pending : Rows
  pub tables : Rows

abbrev pub is_metric : Event → Bool
is_metric e = e.category == category_num Category.metric

module _ (g : Getters) where
  unfoldable pub absorb : ℕ → Batch → Rows → Rows
  absorb now b p = record p {
    events = p.events ++ map (row_of_event g) (filter (λ e. not (is_metric e)) b.events);
    strings = p.strings ++ map row_of_string b.strings;
    offsets = p.offsets ++ map (row_of_offset now) b.offsets;
  }

  -- The `match` on a message.
  unfoldable pub accept : ℕ → SinkMsg → Rows → Rows
  unfolding absorb
  accept now (SinkMsg.batch b) p = absorb now b p
  accept now (SinkMsg.kernel_sol node_id s) p = record p {
    sol = p.sol ++ row_of_sol g now node_id s ∷ [];
  }
  accept now (SinkMsg.spike row) p = record p { spikes = p.spikes ++ row ∷ [] }

-- The steps of `flush`: each inserts its table's rows, if there are any, and the first failure
-- returns with every buffer as it is.
abbrev pub flush_spikes : Outcome → Rows → Rows → Store
flush_spikes ok p t =
    if not (is_empty p.spikes) && not ok.spikes_ok
    then record { pending = p; tables = t }
    else record { pending = no_rows; tables = record t { spikes = t.spikes ++ p.spikes } }

abbrev pub flush_sol : Outcome → Rows → Rows → Store
flush_sol ok p t =
    if not (is_empty p.sol) && not ok.sol_ok
    then record { pending = p; tables = t }
    else flush_spikes ok p (record t { sol = t.sol ++ p.sol })

abbrev pub flush_offsets : Outcome → Rows → Rows → Store
flush_offsets ok p t =
    if not (is_empty p.offsets) && not ok.offsets_ok
    then record { pending = p; tables = t }
    else flush_sol ok p (record t { offsets = t.offsets ++ p.offsets })

abbrev pub flush_events : Outcome → Rows → Rows → Store
flush_events ok p t =
    if not (is_empty p.events) && not ok.events_ok
    then record { pending = p; tables = t }
    else flush_offsets ok p (record t { events = t.events ++ p.events })

unfoldable pub flush : Outcome → Store → Store
flush ok s =
    if not (is_empty s.pending.strings) && not ok.strings_ok
    then s
    else flush_events ok s.pending
        (record s.tables { strings = s.tables.strings ++ s.pending.strings })

-- One turn of the `select!`: a message at a time `now`, or a tick.
pub data Turn : Type 0 where
  message : ℕ → SinkMsg → Turn
  tick : Turn

abbrev pub has_rows : Rows → Bool
has_rows p =
    not (is_empty p.events)
    || not (is_empty p.strings)
    || not (is_empty p.offsets)
    || not (is_empty p.sol)
    || not (is_empty p.spikes)

module _ (g : Getters) (max_batch_rows : ℕ) where
  unfoldable pub turn : Turn → Outcome → Store → Store
  unfolding accept flush
  turn (message now m) ok s =
      let s' : Store = record s { pending = accept g now m s.pending } in
      if leb max_batch_rows (length s'.pending.events) then flush ok s' else s'
  turn tick ok s = if has_rows s.pending then flush ok s else s

  -- The loop, until the channel is closed, and the last flush.
  unfoldable pub run : List (Turn × Outcome) → Outcome → Store → Store
  unfolding turn
  run [] last s = flush last s
  run ((t, ok) ∷ ts) last s = run ts last (turn t ok s)
