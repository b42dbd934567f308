-- ===== src/Flow/Received.antt =====
-- What the sink is handed of the batches that a stream brings (ingest/grpc.rs).
use perf_weave.Base.{
  ℕ, ◌≡◌, refl, sym, ap, ◌∙◌, true, false, not, List, [], ◌∷◌, ◌++◌, map, arith, length,
}
use mathlib.Core.List.{append-nil, append_assoc, map-append}
use perf_weave.Proto.{Event, Batch, Category}
use perf_weave.Agent.Uploader.Session.Trace.{untimed, events_of, events_of-append}
use perf_weave.Server.Skew.{SkewTable}
use perf_weave.Server.Ingest.{
  Collector, Counts, sent, full, closed, Inbound, batch, error, count_rows, has_category, correct,
  split_batch, absorb_offsets, ingest,
}
use perf_weave.Server.Ingest.Split.{activity, split_batch_lem}
use perf_weave.Flow.Lists.{filter-append}

abbrev pub received : List Inbound → List Batch
received [] = []
received (batch now b answer listening ∷ items) = b ∷ received items
received (error ∷ items) = received items

-- Every batch is taken by the sink, and its acknowledgement is still awaited.
abbrev pub AllTaken : List Inbound → Type 0
AllTaken [] = Unit
AllTaken (batch now b sent true ∷ items) = AllTaken items
AllTaken (_ ∷ items) = ⊥

untimed-correct : (t : SkewTable) (e : Event) → untimed (correct t e) ≡ untimed e
unfolding correct
untimed-correct t e = ground arith

map-untimed-correct :
    (t : SkewTable) (es : List Event) → map untimed (map (correct t) es) ≡ map untimed es
map-untimed-correct t [] = refl
map-untimed-correct t (e ∷ es) =
    rw (untimed-correct t e) (ap (◌∷◌ (untimed e)) (map-untimed-correct t es))

-- The collector after a batch that the sink takes.
abbrev pub taken : ℕ → Collector → Batch → Collector
taken now c b = let (c', out) = split_batch now c b in record c' { sunk = c'.sunk ++ out ∷ [] }

taken-sunk :
    (now : ℕ) (c : Collector) (b : Batch)
    → map untimed (events_of (taken now c b).sunk)
      ≡ map untimed (events_of c.sunk) ++ map untimed (activity b.events)
taken-sunk now c b =
    let (c', out) = split_batch now c b in
    let skew = absorb_offsets now c.skew b.offsets in
    let (t, f, k, same, events, strings, offsets, frames) = split_batch_lem now c b in
    rw
      (
        events_of-append c'.sunk (out ∷ []),
        map-append untimed (events_of c'.sunk) (out.events ++ []),
        append-nil out.events,
        same,
        events,
        map-untimed-correct skew (activity b.events),
      )
      refl

ingest-nil : (c : Collector) (n : Counts) → (ingest c n []).0 ≡ c
unfolding ingest
ingest-nil c n = refl

ingest-taken :
    (now : ℕ) (c : Collector) (n : Counts) (b : Batch) (items : List Inbound)
    → (ingest c n (batch now b sent true ∷ items)).0
      ≡ (ingest (taken now c b) (count_rows sent (length b.events) n) items).0
unfolding ingest
ingest-taken now c n b items = refl

-- If the sink takes every batch, it is handed all that is no metric, unchanged but for the time stamps.
pub ingest-sunk :
    (items : List Inbound) (c : Collector) (n : Counts)
    → AllTaken items
    → map untimed (events_of (ingest c n items).0.sunk)
      ≡ map untimed (events_of c.sunk) ++ map untimed (activity (events_of (received items)))
ingest-sunk [] c n h = rw (ingest-nil c n) (sym (append-nil (map untimed (events_of c.sunk))))
ingest-sunk (error ∷ items) c n h = absurd h
ingest-sunk (batch now b full listening ∷ items) c n h = absurd h
ingest-sunk (batch now b closed listening ∷ items) c n h = absurd h
ingest-sunk (batch now b sent false ∷ items) c n h = absurd h
ingest-sunk (batch now b sent true ∷ items) c n h =
    let later = events_of (received items) in
    ap (λ (x : Collector). map untimed (events_of x.sunk)) (ingest-taken now c n b items)
    ∙ ingest-sunk items (taken now c b) (count_rows sent (length b.events) n) h
    ∙ rw
        (
          taken-sunk now c b,
          filter-append (λ e. not (has_category Category.metric e)) b.events later,
          map-append untimed (activity b.events) (activity later),
          append_assoc,
        )
        refl
