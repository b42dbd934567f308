-- ===== src/Agent/Cupti/Receive.antt =====
-- What the receiver (cupti.rs) makes of a connection, in particular of one that the injection library
-- (crates/perfweave-cupti-inject/src/lib.rs) has written.
use mathlib.Core.List.{append_assoc}
use perf_weave.Base.{
  ℕ, zero, suc, ◌+◌, ◌-◌, ◌%◌, ◌<◌, ◌≤◌, ◌≡◌, refl, sym, ◌∙◌, ap, ◌⊎◌, inl, inr, true, false,
  Option, none, some, List, [], ◌∷◌, ◌++◌, arith, ltb, length, take, drop, length-append,
  length-drop, Bool-cases, Option-cases, ge→ltb_false, lt→ltb, All,
}
use native.Mathlib.Decide.{dec_le, dec_lt}
use perf_weave.Base.Words.{u32_mod}
use perf_weave.Proto.{Event, MetricFrame, Batch}
use perf_weave.Agent.Channel.{Channel}
use perf_weave.Agent.Ring.{EventRing, push}
use perf_weave.Agent.Cupti.{
  max_batch_bytes, read_exact, from_le_bytes, push_events, take_payload, handle_conn,
}
use perf_weave.Inject.Ship.{Conn, le_bytes, frame}
use perf_weave.Inject.Ship.Frames.{frames, IsCut, Carries}

abbrev pub events_of : List Batch → List Event
events_of [] = []
events_of (b ∷ bs) = b.events ++ events_of bs

read_exact-fits :
    (n : ℕ) (bytes : List ℕ)
    → n ≤ length bytes
    → read_exact n bytes ≡ some (take n bytes, drop n bytes)
unfolding read_exact
read_exact-fits n bytes h = rw (ge→ltb_false (length bytes) n h)

read_exact-short : (n : ℕ) (bytes : List ℕ) → length bytes < n → read_exact n bytes ≡ none
unfolding read_exact
read_exact-short n bytes h = rw (lt→ltb (length bytes) n h)

read_exact-length :
    (n : ℕ) (bytes : List ℕ) (x : List ℕ × List ℕ)
    → read_exact n bytes ≡ some x
    → length x.1 ≤ length bytes
unfolding read_exact
read_exact-length n bytes x e = elim (Bool-cases (ltb (length bytes) n)) [
  | inl short ↦ let e' = rw short at e in absurd (cc)
  | inr fits ↦
      let e' : drop n bytes ≡ x.1 =
        ap (λ o. elim o as (λ _. List ℕ) [ none ↦ [] | some y ↦ y.1 ]) (rw fits at e) in
      omega (arith, length-drop n bytes, ap length e')
]

take-length_append : (xs ys : List ℕ) → take (length xs) (xs ++ ys) ≡ xs
take-length_append [] ys = refl
take-length_append (x ∷ xs) ys = ap (◌∷◌ x) (take-length_append xs ys)

drop-length_append : (xs ys : List ℕ) → drop (length xs) (xs ++ ys) ≡ ys
drop-length_append [] ys = refl
drop-length_append (x ∷ xs) ys = drop-length_append xs ys

length-take : (n : ℕ) (xs : List ℕ) → n ≤ length xs → length (take n xs) ≡ n
length-take zero xs h = refl
length-take (suc n) [] h = absurd (omega arith)
length-take (suc n) (x ∷ xs) h = let rest = length-take n xs (omega arith) in omega (arith, rest)

le-round_trip : (n : ℕ) → n < u32_mod → from_le_bytes (le_bytes n) ≡ n
unfolding from_le_bytes
le-round_trip n h = omega arith

module _ (decode : List ℕ → Option Batch) (ce : Channel Event) (cf : Channel MetricFrame) where
  push_events-append :
      (r : EventRing ce cf) (xs ys : List Event)
      → push_events decode ce cf r (xs ++ ys)
        ≡ push_events decode ce cf (push_events decode ce cf r xs) ys
  push_events-append r [] ys = refl
  push_events-append r (x ∷ xs) ys = push_events-append (push ce cf r x) xs ys

  -- One turn of the loop, after the four bytes of a length.
  handle_conn-le :
      (fuel n : ℕ) (bytes : List ℕ) (r : EventRing ce cf)
      → n ≤ max_batch_bytes
      → handle_conn decode ce cf (suc fuel) (le_bytes n ++ bytes) r
        ≡ elim (read_exact n bytes) as (λ _. Option (EventRing ce cf)) [
          | none ↦ some r
          | some (payload, rest) ↦
              handle_conn decode ce cf fuel rest (take_payload decode ce cf r (decode payload))
        ]
  unfolding handle_conn
  handle_conn-le fuel n bytes r h = rw (
    handle_conn,
    read_exact-fits 4 (le_bytes n ++ bytes) (omega arith),
    le-round_trip n (omega arith),
    ge→ltb_false max_batch_bytes n h,
  )

  -- A connection that ends inside a length, or inside a payload, ends the loop.
  handle_conn-cut_length :
      (fuel : ℕ) (bytes : List ℕ) (r : EventRing ce cf)
      → length bytes < 4
      → handle_conn decode ce cf (suc fuel) bytes r ≡ some r
  unfolding handle_conn
  handle_conn-cut_length fuel bytes r h = rw (handle_conn, read_exact-short 4 bytes h)

  handle_conn-cut_payload :
      (fuel n : ℕ) (bytes : List ℕ) (r : EventRing ce cf)
      → n ≤ max_batch_bytes
      → length bytes < n
      → handle_conn decode ce cf (suc fuel) (le_bytes n ++ bytes) r ≡ some r
  handle_conn-cut_payload fuel n bytes r h short =
      handle_conn-le fuel n bytes r h ∙ rw (read_exact-short n bytes short) refl

  -- A length above the limit ends the loop too.
  handle_conn-oversized :
      (fuel n : ℕ) (bytes : List ℕ) (r : EventRing ce cf)
      → max_batch_bytes < n
      → n < u32_mod
      → handle_conn decode ce cf (suc fuel) (le_bytes n ++ bytes) r ≡ some r
  unfolding handle_conn
  handle_conn-oversized fuel n bytes r h fits = rw (
    handle_conn,
    read_exact-fits 4 (le_bytes n ++ bytes) (omega arith),
    le-round_trip n fits,
    lt→ltb max_batch_bytes n h,
  )

  -- A whole frame is decoded.
  handle_conn-payload :
      (fuel : ℕ) (payload rest : List ℕ) (r : EventRing ce cf)
      → length payload ≤ max_batch_bytes
      → handle_conn decode ce cf (suc fuel) (le_bytes (length payload) ++ payload ++ rest) r
        ≡ handle_conn decode ce cf fuel rest (take_payload decode ce cf r (decode payload))
  handle_conn-payload fuel payload rest r h =
      handle_conn-le fuel (length payload) (payload ++ rest) r h
      ∙ rw
          (
            read_exact-fits (length payload) (payload ++ rest)
                (omega (arith, length-append payload rest)),
            take-length_append payload rest,
            drop-length_append payload rest,
          )
          refl

  -- With more fuel than bytes the loop ends, whatever the bytes are.
  pub handle_conn-ends :
      (fuel : ℕ) (bytes : List ℕ) (r : EventRing ce cf)
      → length bytes < fuel
      → (r' : EventRing ce cf) × (handle_conn decode ce cf fuel bytes r ≡ some r')
  unfolding handle_conn
  handle_conn-ends zero bytes r h = absurd (omega arith)
  handle_conn-ends (suc fuel) bytes r h = elim (dec_lt (length bytes) 4) [
    | yes short ↦ (r, rw (handle_conn, read_exact-short 4 bytes short))
    | no long ↦
        let n = from_le_bytes (take 4 bytes) in
        rw (handle_conn, read_exact-fits 4 bytes (omega arith))
          (elim (Bool-cases (ltb max_batch_bytes n)) [
            | inl oversized ↦ (r, rw oversized refl)
            | inr fine ↦ elim (Option-cases (read_exact n (drop 4 bytes))) [
              | inl cut ↦ (r, rw (fine, cut) refl)
              | inr (x, got) ↦
                  let (r', done) =
                    handle_conn-ends fuel x.1 (take_payload decode ce cf r (decode x.0)) (
                      omega
                        (arith, length-drop 4 bytes, read_exact-length n (drop 4 bytes) x got)) in
                  (r', rw (fine, got) done)
            ]
          ])
  ]

  module _ (encode : Batch → List ℕ) where
    -- A batch that the receiver gets back from its encoding, which is within the limit.
    abbrev pub Fits : Batch → Type 0
    Fits b = (length (encode b) ≤ max_batch_bytes) × (decode (encode b) ≡ some b)

    frame-le :
        (b : Batch) (more rest : List ℕ)
        → length (encode b) ≤ max_batch_bytes
        → (frame encode b ++ more) ++ rest
          ≡ le_bytes (length (encode b)) ++ (encode b ++ (more ++ rest))
    frame-le b more rest h =
        let e : length (encode b) % u32_mod ≡ length (encode b) = omega arith in
        ap (λ n. ((le_bytes n ++ encode b) ++ more) ++ rest) e
        ∙ ap (λ l. le_bytes (length (encode b)) ++ l) (append_assoc (encode b) more rest)

    handle_conn-frames :
        (bs : List Batch) (fuel : ℕ) (rest : List ℕ) (r : EventRing ce cf)
        → All Fits bs
        → handle_conn decode ce cf (length bs + fuel) (frames encode bs ++ rest) r
          ≡ handle_conn decode ce cf fuel rest (push_events decode ce cf r (events_of bs))
    handle_conn-frames [] fuel rest r h = ap (λ n. handle_conn decode ce cf n rest r) (omega arith)
    handle_conn-frames (b ∷ bs) fuel rest r h =
        let count : length (b ∷ bs) + fuel ≡ suc (length bs + fuel) = omega arith in
        let more = frames encode bs ++ rest in
        ap (λ n. handle_conn decode ce cf n ((frame encode b ++ frames encode bs) ++ rest) r) count
        ∙ ap (λ bytes. handle_conn decode ce cf (suc (length bs + fuel)) bytes r)
            (frame-le b (frames encode bs) rest h.0.0)
        ∙ handle_conn-payload (length bs + fuel) (encode b) more r h.0.0
        ∙ ap (λ o. handle_conn decode ce cf (length bs + fuel) more (take_payload decode ce cf r o))
            h.0.1
        ∙ handle_conn-frames bs fuel rest (push_events decode ce cf r b.events) h.1
        ∙ ap (λ r'. handle_conn decode ce cf fuel rest r')
            (sym (push_events-append r b.events (events_of bs)))

    -- A cut frame gives no event.
    handle_conn-cut :
        (fuel n : ℕ) (b : Batch) (r : EventRing ce cf)
        → length (encode b) < u32_mod
        → n < length (frame encode b)
        → handle_conn decode ce cf (suc fuel) (take n (frame encode b)) r ≡ some r
    handle_conn-cut fuel n b r h short = elim (dec_lt n 4) [
      | yes tiny ↦
          handle_conn-cut_length fuel (take n (frame encode b)) r
            (omega (arith, length-take n (frame encode b) (omega arith)))
      | no long ↦
          let len = length (encode b) in
          let e : len % u32_mod ≡ len = omega arith in
          let n' : n ≡ suc (suc (suc (suc (n - 4)))) = omega arith in
          ap (λ m. handle_conn decode ce cf (suc fuel) (take m (frame encode b)) r) n'
          ∙ ap (λ m. handle_conn decode ce cf (suc fuel) (le_bytes m ++ take (n - 4) (encode b)) r)
              e
          ∙ elim (dec_le len max_batch_bytes) [
            | yes fine ↦
                handle_conn-cut_payload fuel len (take (n - 4) (encode b)) r fine
                  (omega (arith, length-take (n - 4) (encode b) (omega arith)))
            | no oversized ↦
                handle_conn-oversized fuel len (take (n - 4) (encode b)) r (omega arith) h
          ]
    ]

    -- Every connection that `ship` has written, broken or not, gives the agent's ring exactly the events
    -- of the batches that it carries whole, in their order, if these stay within the receiver's limit and
    -- decode to what they were, and no encoding reaches 2^32 bytes. One turn more than there are
    -- batches is enough.
    pub handle_conn-Carries :
        (c : Conn) (bs : List Batch) (r : EventRing ce cf)
        → Carries encode c bs
        → All Fits bs
        → ((b : Batch) → length (encode b) < u32_mod)
        → handle_conn decode ce cf (length bs + 1) c.bytes r
          ≡ some (push_events decode ce cf r (events_of bs))
    handle_conn-Carries c bs r (p, e, how) fits limit =
        ap (λ bytes. handle_conn decode ce cf (length bs + 1) bytes r) e
        ∙ handle_conn-frames bs 1 p r fits
        ∙ tail how
      where
        tail :
            ((c.broken ≡ false) × (p ≡ [])) ⊎ ((c.broken ≡ true) × ((p ≡ []) ⊎ IsCut encode p))
            → handle_conn decode ce cf 1 p (push_events decode ce cf r (events_of bs))
              ≡ some (push_events decode ce cf r (events_of bs))
        tail (inl (sound, none_left)) =
            handle_conn-cut_length 0 p (push_events decode ce cf r (events_of bs))
              (omega (arith, ap length none_left))
        tail (inr (broken, inl none_left)) =
            handle_conn-cut_length 0 p (push_events decode ce cf r (events_of bs))
              (omega (arith, ap length none_left))
        tail (inr (broken, inr (b, n, short, cut))) =
            ap
              (λ bytes.
                handle_conn decode ce cf 1 bytes (push_events decode ce cf r (events_of bs)))
              cut
            ∙ handle_conn-cut 0 n b (push_events decode ce cf r (events_of bs)) (limit b) short
