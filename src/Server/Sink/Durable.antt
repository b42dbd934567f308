-- ===== src/Server/Sink/Durable.antt =====
-- What the writer task (sink.rs) guarantees for the rows that it accepts, however the inserts fail.
use perf_weave.Base.{
  ℕ, true, ◌≡◌, refl, ap, ◌⊎◌, inl, inr, List, [], ◌∷◌, ◌++◌, arith, Subseq, Subseq-append,
  Subseq-append_right, Subseq-refl, Subseq-nil, leb, Bool-cases, length,
}
use mathlib.Core.List.{append-nil, append_assoc}
use perf_weave.Proto.{Getters}
use perf_weave.Server.Sink.Loop.{
  SinkMsg, Rows, no_rows, Outcome, Store, Turn, message, tick, accept, has_rows, flush, turn, run,
}

-- What one flush does to a table and its buffer: nothing, an insert whose buffer is kept since a later
-- insert failed, or an insert whose buffer is cleared.
abbrev Moves {ℓ} : {A : Type ℓ} → List A → List A → List A → List A → Type ℓ
Moves pend tab pend' tab' =
    ((pend' ≡ pend) × (tab' ≡ tab))
    ⊎ ((pend' ≡ pend) × (tab' ≡ tab ++ pend))
    ⊎ ((pend' ≡ []) × (tab' ≡ tab ++ pend))

record FlushMoves (s t : Store) : Type 0 where
  events : Moves s.pending.events s.tables.events t.pending.events t.tables.events
  strings : Moves s.pending.strings s.tables.strings t.pending.strings t.tables.strings
  offsets : Moves s.pending.offsets s.tables.offsets t.pending.offsets t.tables.offsets
  sol : Moves s.pending.sol s.tables.sol t.pending.sol t.tables.sol
  spikes : Moves s.pending.spikes s.tables.spikes t.pending.spikes t.tables.spikes

flush-moves : (ok : Outcome) (s : Store) → FlushMoves s (flush ok s)
unfolding flush
flush-moves ok s = record {
  events = ground arith;
  strings = ground arith;
  offsets = ground arith;
  sol = ground arith;
  spikes = ground arith;
}

-- The accepted rows are those known to be stored, in order, and then those still in the buffer.
abbrev pub Covers {ℓ} : {A : Type ℓ} → List A → List A → List A → Type ℓ
Covers {A = A} accepted pend tab =
    (stored : List A) × (accepted ≡ stored ++ pend) × Subseq stored tab

Covers-Moves {ℓ} :
    {A : Type ℓ} {accepted pend tab pend' tab' : List A}
    → Covers accepted pend tab
    → Moves pend tab pend' tab'
    → Covers accepted pend' tab'
Covers-Moves {pend = pend} (stored, e, sub) (inl (kept, same)) = (stored, rw kept e, rw same sub)
Covers-Moves {pend = pend} (stored, e, sub) (inr (inl (kept, more))) =
    (stored, rw kept e, rw more (Subseq-append_right pend sub))
Covers-Moves {pend = pend} (stored, e, sub) (inr (inr (cleared, more))) =
    (stored ++ pend, rw (cleared, append-nil) e, rw more (Subseq-append sub (Subseq-refl pend)))

Covers-more {ℓ} :
    {A : Type ℓ} {accepted pend tab : List A} (new : List A)
    → Covers accepted pend tab
    → Covers (accepted ++ new) (pend ++ new) tab
Covers-more {pend = pend} new (stored, e, sub) = (stored, rw (e, append_assoc), sub)

pub record Durable (accepted : Rows) (s : Store) : Type 0 where
  pub events : Covers accepted.events s.pending.events s.tables.events
  pub strings : Covers accepted.strings s.pending.strings s.tables.strings
  pub offsets : Covers accepted.offsets s.pending.offsets s.tables.offsets
  pub sol : Covers accepted.sol s.pending.sol s.tables.sol
  pub spikes : Covers accepted.spikes s.pending.spikes s.tables.spikes

pub flush-Durable : {a : Rows} {s : Store} (ok : Outcome) → Durable a s → Durable a (flush ok s)
flush-Durable {a} {s} ok d =
    let m = flush-moves ok s in
    record {
      events = Covers-Moves d.events m.events;
      strings = Covers-Moves d.strings m.strings;
      offsets = Covers-Moves d.offsets m.offsets;
      sol = Covers-Moves d.sol m.sol;
      spikes = Covers-Moves d.spikes m.spikes;
    }

module _ (g : Getters) where
  accept-Durable :
      {a : Rows} {s : Store} (now : ℕ) (m : SinkMsg)
      → Durable a s
      → Durable (accept g now m a) (record s { pending = accept g now m s.pending })
  unfolding accept
  accept-Durable now (SinkMsg.batch b) d = record {
    events = Covers-more _ d.events;
    strings = Covers-more _ d.strings;
    offsets = Covers-more _ d.offsets;
    sol = d.sol;
    spikes = d.spikes;
  }
  accept-Durable now (SinkMsg.kernel_sol node_id k) d = record {
    events = d.events;
    strings = d.strings;
    offsets = d.offsets;
    sol = Covers-more _ d.sol;
    spikes = d.spikes;
  }
  accept-Durable now (SinkMsg.spike row) d = record {
    events = d.events;
    strings = d.strings;
    offsets = d.offsets;
    sol = d.sol;
    spikes = Covers-more _ d.spikes;
  }

  -- The rows of all the messages of a run.
  unfoldable pub accepted : Rows → List (Turn × Outcome) → Rows
  accepted a [] = a
  accepted a ((message now m, ok) ∷ ts) = accepted (accept g now m a) ts
  accepted a ((tick, ok) ∷ ts) = accepted a ts

module _ (g : Getters) (max_batch_rows : ℕ) where
  tick-Durable :
      {a : Rows} {s : Store} (ok : Outcome)
      → Durable a s
      → Durable a (turn g max_batch_rows tick ok s)
  unfolding turn
  tick-Durable {a} {s} ok d = elim (Bool-cases (has_rows s.pending)) [
    | inl some_rows ↦ rw some_rows (flush-Durable ok d)
    | inr idle ↦ rw idle d
  ]

  message-Durable :
      {a : Rows} {s : Store} (now : ℕ) (m : SinkMsg) (ok : Outcome)
      → Durable a s
      → Durable (accept g now m a) (turn g max_batch_rows (message now m) ok s)
  unfolding turn
  message-Durable {a} {s} now m ok d =
      elim (Bool-cases (leb max_batch_rows (length (accept g now m s.pending).events))) [
        | inl full ↦ rw full (flush-Durable ok (accept-Durable g now m d))
        | inr room ↦ rw room (accept-Durable g now m d)
      ]

  -- Whatever inserts fail on the way, no accepted row is lost, if none was lost before: of each table, the accepted rows are
  -- some that the table holds, in order, and after them those still in the buffer.
  pub run-Durable :
      (ts : List (Turn × Outcome)) (last : Outcome) {a : Rows} {s : Store}
      → Durable a s
      → Durable (accepted g a ts) (run g max_batch_rows ts last s)
  unfolding run accepted
  run-Durable [] last d = flush-Durable last d
  run-Durable ((message now m, ok) ∷ ts) last d = run-Durable ts last (message-Durable now m ok d)
  run-Durable ((tick, ok) ∷ ts) last d = run-Durable ts last (tick-Durable ok d)

pub empty-Durable : (t : Rows) → Durable no_rows (record { pending = no_rows; tables = t })
empty-Durable t = record {
  events = ([], refl, Subseq-nil _);
  strings = ([], refl, Subseq-nil _);
  offsets = ([], refl, Subseq-nil _);
  sol = ([], refl, Subseq-nil _);
  spikes = ([], refl, Subseq-nil _);
}

-- A flush whose inserts all succeed leaves the buffers empty.
abbrev pub AllOk : Outcome → Type 0
AllOk ok =
    (ok.strings_ok ≡ true)
    × (ok.events_ok ≡ true)
    × (ok.offsets_ok ≡ true)
    × (ok.sol_ok ≡ true)
    × (ok.spikes_ok ≡ true)

flush-clears : (ok : Outcome) (s : Store) → AllOk ok → (flush ok s).pending ≡ no_rows
unfolding flush
flush-clears ok s h = ground arith

run-clears :
    (g : Getters) (n : ℕ) (ts : List (Turn × Outcome)) (last : Outcome) (s : Store)
    → AllOk last
    → (run g n ts last s).pending ≡ no_rows
unfolding run
run-clears g n [] last s h = flush-clears last s h
run-clears g n ((t, ok) ∷ ts) last s h = run-clears g n ts last (turn g n t ok s) h

Covers-stored {ℓ} :
    {A : Type ℓ} {accepted pend tab : List A}
    → Covers accepted pend tab
    → pend ≡ []
    → Subseq accepted tab
Covers-stored (stored, e, sub) h = rw (e, h, append-nil) sub

-- Every accepted row, in order, as a part of its table.
pub record Stored (a t : Rows) : Type 0 where
  pub events : Subseq a.events t.events
  pub strings : Subseq a.strings t.strings
  pub offsets : Subseq a.offsets t.offsets
  pub sol : Subseq a.sol t.sol
  pub spikes : Subseq a.spikes t.spikes

-- However the inserts of a run fail, if those of its last flush succeed, then every row of every
-- message of the run is in its table, in the order of the messages.
pub run-Stored :
    (g : Getters) (n : ℕ) (ts : List (Turn × Outcome)) (last : Outcome) (t : Rows)
    → AllOk last
    → Stored
        (accepted g no_rows ts)
        (run g n ts last (record { pending = no_rows; tables = t })).tables
run-Stored g n ts last t h =
    let d = run-Durable g n ts last (empty-Durable t) in
    let e = run-clears g n ts last (record { pending = no_rows; tables = t }) h in
    record {
      events = Covers-stored d.events (ap (λ p. p.events) e);
      strings = Covers-stored d.strings (ap (λ p. p.strings) e);
      offsets = Covers-stored d.offsets (ap (λ p. p.offsets) e);
      sol = Covers-stored d.sol (ap (λ p. p.sol) e);
      spikes = Covers-stored d.spikes (ap (λ p. p.spikes) e);
    }

-- In any flush, a new event row enters its table only after all the buffered strings have entered
-- theirs.
pub flush_order :
    (ok : Outcome) (s : Store)
    → ((flush ok s).tables.events ≡ s.tables.events)
      ⊎ ((flush ok s).tables.strings ≡ s.tables.strings ++ s.pending.strings)
unfolding flush
flush_order ok s = ground arith
