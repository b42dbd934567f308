-- ===== src/Inject/Ship/Deliver.antt =====
-- Whether batches get through (lib.rs).
use mathlib.Core.List.{append-nil, append_assoc}
use perf_weave.Base.{
  ℕ, ◌+◌, ◌^◌, ◌<◌, ◌≤◌, ◌≡◌, refl, sym, ap, inl, inr, Option, none, some, List, [], ◌∷◌, ◌++◌,
  arith, length, length-append, Bool-cases, Subseq, Subseq-append, Subseq-append_right, Subseq-refl,
  none_left,
}
use perf_weave.Proto.{Batch}
use perf_weave.Inject.Ship.{
  Conn, write_all, fresh, frame, Injector, unconnected, Answers, ship_on, ship, ship_all,
}
use perf_weave.Inject.Ship.Frames.{Carries, fresh-Carries, write_all-Carries}

abbrev pub shipped : List (Answers × Batch) → List Batch
shipped [] = []
shipped ((a, b) ∷ calls) = b ∷ shipped calls

module _ (encode : Batch → List ℕ) where
  -- Connections that carry the given batches, in order.
  abbrev pub CarryAll : List Conn → List Batch → Type 0
  CarryAll [] bs = bs ≡ []
  CarryAll (c ∷ cs) bs =
      (xs : List Batch) × (ys : List Batch) × (bs ≡ xs ++ ys) × Carries encode c xs × CarryAll cs ys

  CarryAll-snoc :
      (cs : List Conn) (c : Conn) (bs xs : List Batch)
      → CarryAll cs bs
      → Carries encode c xs
      → CarryAll (cs ++ c ∷ []) (bs ++ xs)
  CarryAll-snoc [] c bs xs e h = (xs, [], rw e (sym (append-nil xs)), h, refl)
  CarryAll-snoc (d ∷ cs) c bs xs (us, vs, e, first, rest) h =
      (us, vs ++ xs, rw (e, append_assoc) refl, first, CarryAll-snoc cs c vs xs rest h)

  abbrev pub OpenCarries : Option Conn → List Batch → Type 0
  OpenCarries none bs = bs ≡ []
  OpenCarries (some c) bs = Carries encode c bs

  -- What has become of all the batches: some got through, in order, over the connections in turn, and
  -- there are no more others than drops counted.
  pub record Accounts (s : Injector) (all : List Batch) : Type 0 where
    pub before : List Batch
    pub now : List Batch
    pub over_closed : CarryAll s.closed before
    pub over_open : OpenCarries s.transport now
    pub order : Subseq (before ++ now) all
    pub count : length all ≤ length before + length now + s.dropped_batches
    pub drops : s.dropped_batches ≤ length all

  ship_on-Accounts :
      (a : Answers) (s : Injector) (c : Conn) (b : Batch) (all before now : List Batch)
      → CarryAll s.closed before
      → Carries encode c now
      → Subseq (before ++ now) all
      → length all ≤ length before + length now + s.dropped_batches
      → s.dropped_batches ≤ length all
      → length all + 1 < 2 ^ 64
      → Accounts (ship_on a s c (frame encode b)) (all ++ b ∷ [])
  ship_on-Accounts a s c b all before now closed carried order count drops small =
      let c' = (write_all a.write c (frame encode b)).0 in
      let longer = length-append all (b ∷ []) in
      elim (write_all-Carries encode a.write c b now carried) [
        | inl (done, more) ↦ rw done (record {
          before = before;
          now = now ++ b ∷ [];
          over_closed = closed;
          over_open = more;
          order =
              rw (← append_assoc before now (b ∷ [])) (Subseq-append order (Subseq-refl (b ∷ [])));
          count = omega (arith, longer, length-append now (b ∷ []));
          drops = omega (arith, longer);
        })
        | inr (undone, same) ↦ elim (Bool-cases a.reconnects) [
          | inr off ↦
              rw (undone, off)
                (record {
                  before = before;
                  now = now;
                  over_closed = closed;
                  over_open = same;
                  order = Subseq-append_right (b ∷ []) order;
                  count = omega (arith, longer);
                  drops = omega (arith, longer);
                })
          | inl on ↦
              let replaced = CarryAll-snoc s.closed c' before now closed same in
              elim (write_all-Carries encode a.rewrite fresh b [] (fresh-Carries encode)) [
                | inl (done, more) ↦
                    rw (undone, on)
                      (record {
                        before = before ++ now;
                        now = b ∷ [];
                        over_closed = replaced;
                        over_open = more;
                        order = Subseq-append order (Subseq-refl (b ∷ []));
                        count = omega (arith, longer, length-append before now);
                        drops = omega (arith, longer);
                      })
                | inr (lost, none_yet) ↦
                    rw (undone, on)
                      (record {
                        before = before ++ now;
                        now = [];
                        over_closed = replaced;
                        over_open = none_yet;
                        order = rw append-nil (Subseq-append_right (b ∷ []) order);
                        count = omega (arith, longer, length-append before now);
                        drops = omega (arith, longer);
                      })
              ]
        ]
      ]

  ship-Accounts :
      (a : Answers) (s : Injector) (b : Batch) (all : List Batch)
      → Accounts s all
      → length all + 1 < 2 ^ 64
      → Accounts (ship encode a s b) (all ++ b ∷ [])
  unfolding ship
  ship-Accounts a s b all h small = by_transport s.transport refl
    where
      by_transport :
          (t : Option Conn) → s.transport ≡ t → Accounts (ship encode a s b) (all ++ b ∷ [])
      by_transport (some c) e =
          rw (e, ship)
            (ship_on-Accounts a s c b all h.before h.now h.over_closed (rw e at h.over_open) h.order
              h.count h.drops small)
      by_transport none e =
          let none_now : h.now ≡ [] = rw e at h.over_open in
          elim (Bool-cases a.connects) [
            | inl up ↦
                rw (e, ship, up)
                  (ship_on-Accounts a s fresh b all h.before [] h.over_closed (fresh-Carries encode)
                    (rw none_now at h.order) (omega (arith, h.count, ap length none_now)) h.drops
                    small)
            | inr down ↦
                rw (e, ship, down)
                  (record {
                    before = h.before;
                    now = [];
                    over_closed = h.over_closed;
                    over_open = rw e refl;
                    order = Subseq-append_right (b ∷ []) (rw none_now at h.order);
                    count =
                        omega
                          (arith, h.count, ap length none_now, h.drops, length-append all (b ∷ []));
                    drops = omega (arith, h.drops, length-append all (b ∷ []));
                  })
          ]

  unconnected-Accounts : Accounts unconnected []
  unconnected-Accounts = record {
    before = [];
    now = [];
    over_closed = refl;
    over_open = refl;
    order = none_left;
    count = omega arith;
    drops = omega arith;
  }

  ship_all-from :
      (calls : List (Answers × Batch)) (s : Injector) (all : List Batch)
      → Accounts s all
      → length all + length (shipped calls) < 2 ^ 64
      → Accounts (ship_all encode s calls) (all ++ shipped calls)
  unfolding ship_all
  ship_all-from [] s all h small = rw append-nil h
  ship_all-from ((a, b) ∷ calls) s all h small =
      let step = ship-Accounts a s b all h (omega arith) in
      let rest =
        ship_all-from calls (ship encode a s b) (all ++ b ∷ []) step
          (omega (arith, length-append all (b ∷ []))) in
      rw append_assoc at rest

  -- For fewer than 2^64 calls, and whatever becomes of the connections: the bytes on them are whole frames, and at the end of a broken
  -- one at most a part of a frame; the batches in these frames are some of those shipped, in their
  -- order and each at most once; and there are no more others than the counter of drops says, which
  -- itself never passes the number of batches shipped.
  pub ship_all-Accounts :
      (calls : List (Answers × Batch))
      → length (shipped calls) < 2 ^ 64
      → Accounts (ship_all encode unconnected calls) (shipped calls)
  ship_all-Accounts calls small =
      ship_all-from calls unconnected [] unconnected-Accounts (omega (arith, small))
