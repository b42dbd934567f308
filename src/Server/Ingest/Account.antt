-- ===== src/Server/Ingest/Account.antt =====
-- The acknowledgements of an ingest stream (ingest/grpc.rs).
use perf_weave.Base.{ℕ, ◌+◌, ◌%◌, ◌^◌, ◌≡◌, refl, true, false, List, [], ◌∷◌, arith, length}
use perf_weave.Server.Ingest.{
  Collector, Counts, sent, full, closed, count_rows, Reply, ack, unavailable, stream_error, Inbound,
  batch, error, ingest,
}

-- The replies to a stream, of which batches with `a` events have been taken and batches with `d` events
-- refused so far: one acknowledgement for each batch in turn, with the exact numbers of both, up to
-- the batch at which the sink is closed, the agent stops to listen, or the transport fails.
abbrev pub Balanced : ℕ → ℕ → List Reply → List Inbound → Type 0
Balanced a d rs [] = rs ≡ []
Balanced a d rs (error ∷ items) = rs ≡ stream_error ∷ []
Balanced a d rs (batch now b closed listening ∷ items) = rs ≡ unavailable ∷ []
Balanced a d rs (batch now b sent false ∷ items) = rs ≡ []
Balanced a d rs (batch now b full false ∷ items) = rs ≡ []
Balanced a d rs (batch now b sent true ∷ items) =
    (more : List Reply) × (rs
      ≡ ack (record { accepted = (a + length b.events) % 2 ^ 64; dropped = d % 2 ^ 64 }) ∷ more)
    × Balanced (a + length b.events) d more items
Balanced a d rs (batch now b full true ∷ items) =
    (more : List Reply) × (rs
      ≡ ack (record { accepted = a % 2 ^ 64; dropped = (d + length b.events) % 2 ^ 64 }) ∷ more)
    × Balanced a (d + length b.events) more items

-- Counters that agree with the numbers so far, modulo 2^64.
abbrev pub Agrees : ℕ → ℕ → Counts → Type 0
Agrees a d n = (n.accepted ≡ a % 2 ^ 64) × (n.dropped ≡ d % 2 ^ 64)

count_rows-sent :
    (a d rows : ℕ) (n : Counts) → Agrees a d n → Agrees (a + rows) d (count_rows sent rows n)
count_rows-sent a d rows n (ea, ed) = (omega arith, ed)

count_rows-full :
    (a d rows : ℕ) (n : Counts) → Agrees a d n → Agrees a (d + rows) (count_rows full rows n)
count_rows-full a d rows n (ea, ed) = (ea, omega arith)

ack-Agrees :
    (a d : ℕ) (n : Counts) (more : List Reply)
    → Agrees a d n
    → ack (record { accepted = n.accepted; dropped = n.dropped }) ∷ more
      ≡ ack (record { accepted = a % 2 ^ 64; dropped = d % 2 ^ 64 }) ∷ more
ack-Agrees a d n more (ea, ed) = rw (ea, ed) refl

-- On every stream whose counters start in agreement with the events seen so far: each batch that the sink
-- takes or refuses gets one acknowledgement, as long as the agent listens, whose two counters are the numbers of the events
-- of all batches taken and of all batches refused so far, modulo 2^64. A closed sink gets the one reply
-- that it is unavailable, a transport error is passed on, and after either nothing more is sent.
pub ingest-Balanced :
    (items : List Inbound) (c : Collector) (n : Counts) (a d : ℕ)
    → Agrees a d n
    → Balanced a d (ingest c n items).1 items
unfolding ingest
ingest-Balanced [] c n a d e = refl
ingest-Balanced (error ∷ rest) c n a d e = refl
ingest-Balanced (batch now b closed listening ∷ rest) c n a d e = refl
ingest-Balanced (batch now b sent false ∷ rest) c n a d e = refl
ingest-Balanced (batch now b full false ∷ rest) c n a d e = refl
ingest-Balanced (batch now b sent true ∷ rest) c n a d e =
    let n' = count_rows sent (length b.events) n in
    let e' = count_rows-sent a d (length b.events) n e in
    (
      _,
      ack-Agrees (a + length b.events) d n' _ e',
      ingest-Balanced rest _ n' (a + length b.events) d e',
    )
ingest-Balanced (batch now b full true ∷ rest) c n a d e =
    let n' = count_rows full (length b.events) n in
    let e' = count_rows-full a d (length b.events) n e in
    (
      _,
      ack-Agrees a (d + length b.events) n' _ e',
      ingest-Balanced rest _ n' a (d + length b.events) e',
    )
