-- ===== src/Flow/Sunk.antt =====
-- What the events table holds of the batches that the sink is handed (store/sink.rs).
use perf_weave.Base.{ℕ, ◌≡◌, refl, sym, ap, ◌∙◌, not, Option, none, some, List, [], ◌∷◌, ◌++◌, map}
use mathlib.Core.List.{append-nil, append_assoc, map-append}
use perf_weave.Proto.{Event, Payload, KernelSol, Batch, Category, Getters}
use perf_weave.Agent.Uploader.Session.Trace.{untimed, events_of}
use perf_weave.Server.Ingest.Split.{activity}
use perf_weave.Server.Ingest.{has_category}
use perf_weave.Server.Sink.Rows.{EventRow, SpikeRow, blank_row, fill_row, row_of_event}
use perf_weave.Server.Sink.Loop.{SinkMsg, Rows, Outcome, Turn, message, tick, accept}
use perf_weave.Server.Sink.Durable.{accepted}
use perf_weave.Flow.Lists.{filter-append}

-- The batches among the messages of a run of the sink.
abbrev pub batches : List (Turn × Outcome) → List Batch
batches [] = []
batches ((message now (SinkMsg.batch b), ok) ∷ ts) = b ∷ batches ts
batches ((_, ok) ∷ ts) = batches ts

-- A row without its time stamp.
abbrev pub untimed_row : EventRow → EventRow
untimed_row r = record r { ts_ns = 0 }

module _ (g : Getters) where
  fill_row-untimed :
      (r : EventRow) (p : Option Payload)
      → untimed_row (fill_row g r p) ≡ fill_row g (untimed_row r) p
  fill_row-untimed r none = refl
  fill_row-untimed r (some (Payload.metric m)) = refl
  fill_row-untimed r (some (Payload.kernel k)) = refl
  fill_row-untimed r (some (Payload.memcpy m)) = refl
  fill_row-untimed r (some (Payload.api a)) = refl
  fill_row-untimed r (some (Payload.marker mk)) = refl
  fill_row-untimed r (some (Payload.sol k)) = refl

  row_of_event-untimed : (e : Event) → untimed_row (row_of_event g e) ≡ row_of_event g (untimed e)
  unfolding row_of_event
  row_of_event-untimed e = fill_row-untimed (blank_row g e) e.payload

  pub map-untimed_row :
      (es : List Event)
      → map untimed_row (map (row_of_event g) es) ≡ map (row_of_event g) (map untimed es)
  map-untimed_row [] = refl
  map-untimed_row (e ∷ es) =
      rw (row_of_event-untimed e) (ap (◌∷◌ (row_of_event g (untimed e))) (map-untimed_row es))

  accept-batch :
      (now : ℕ) (b : Batch) (p : Rows)
      → (accept g now (SinkMsg.batch b) p).events
        ≡ p.events ++ map (row_of_event g) (activity b.events)
  unfolding accept
  accept-batch now b p = refl

  accept-kernel_sol :
      (now node_id : ℕ) (s : KernelSol) (p : Rows)
      → (accept g now (SinkMsg.kernel_sol node_id s) p).events ≡ p.events
  unfolding accept
  accept-kernel_sol now node_id s p = refl

  accept-spike :
      (now : ℕ) (r : SpikeRow) (p : Rows) → (accept g now (SinkMsg.spike r) p).events ≡ p.events
  unfolding accept
  accept-spike now r p = refl

  -- The event rows that a run accepts: those of its batches, but for metrics.
  pub accepted-events :
      (ts : List (Turn × Outcome)) (a : Rows)
      → (accepted g a ts).events
        ≡ a.events ++ map (row_of_event g) (activity (events_of (batches ts)))
  unfolding accepted
  accepted-events [] a = sym (append-nil a.events)
  accepted-events ((tick, ok) ∷ ts) a = accepted-events ts a
  accepted-events ((message now (SinkMsg.kernel_sol node_id s), ok) ∷ ts) a =
      accepted-events ts (accept g now (SinkMsg.kernel_sol node_id s) a)
      ∙ rw (accept-kernel_sol now node_id s a) refl
  accepted-events ((message now (SinkMsg.spike r), ok) ∷ ts) a =
      accepted-events ts (accept g now (SinkMsg.spike r) a) ∙ rw (accept-spike now r a) refl
  accepted-events ((message now (SinkMsg.batch b), ok) ∷ ts) a =
      let later = events_of (batches ts) in
      accepted-events ts (accept g now (SinkMsg.batch b) a)
      ∙ rw
          (
            accept-batch now b a,
            filter-append (λ e. not (has_category Category.metric e)) b.events later,
            map-append (row_of_event g) (activity b.events) (activity later),
            append_assoc,
          )
          refl
