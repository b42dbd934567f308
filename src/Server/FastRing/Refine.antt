-- ===== src/Server/FastRing/Refine.antt =====
-- The two rings of a series against the plain history of its samples (fast_ring.rs): what a
-- snapshot shows is the end of the history, and the end of the decimated history.
use perf_weave.Base.{
  ℕ, ◌<◌, ◌≡◌, refl, ap, ◌∙◌, All, List, [], ◌∷◌, ◌++◌, true, false, inl, inr, arith, leb,
  if◌then◌else◌, Bool-cases, last_n, last_n-snoc,
}
use mathlib.Core.List.{append-nil, append_assoc, foldl}
use perf_weave.Base.Words.{add_u64}
use perf_weave.Server.FastRing.{
  Sample, SeriesRing, SeriesSnapshot, new_series, push_series, push_fast, push_slow, read_ring,
  snapshot_series, slow_capacity, fast_capacity,
}
use perf_weave.Server.FastRing.Inv.{IsValid, new_series-IsValid, push_series-IsValid}
use perf_weave.Server.FastRing.Window.{write_lem}

-- The samples of a history that are at least 950 ms after the one kept before them; `last` is the
-- time stamp of that one. The sum wraps as in the code.
unfoldable pub decimate : ℕ → List Sample → List Sample
decimate last [] = []
decimate last (s ∷ xs) =
    let skipped = decimate last xs in
    let kept = s ∷ decimate s.ts_ns xs in
    if leb (add_u64 last 950_000_000) s.ts_ns then kept else skipped

-- The time stamp of the last sample that `decimate` keeps.
pub last_kept : ℕ → List Sample → ℕ
last_kept last [] = last
last_kept last (s ∷ xs) =
    let skipped = last_kept last xs in
    let kept = last_kept s.ts_ns xs in
    if leb (add_u64 last 950_000_000) s.ts_ns then kept else skipped

decimate-snoc :
    (last : ℕ) (xs : List Sample) (s : Sample)
    → decimate last (xs ++ s ∷ []) ≡ (
        if leb (add_u64 (last_kept last xs) 950_000_000) s.ts_ns
        then decimate last xs ++ s ∷ []
        else decimate last xs)
unfolding decimate last_kept
decimate-snoc last [] s = refl
decimate-snoc last (x ∷ xs) s = ground (arith, decimate-snoc last xs s, decimate-snoc x.ts_ns xs s)

last_kept-snoc :
    (last : ℕ) (xs : List Sample) (s : Sample)
    → last_kept last (xs ++ s ∷ []) ≡ (
        if leb (add_u64 (last_kept last xs) 950_000_000) s.ts_ns
        then s.ts_ns
        else last_kept last xs)
unfolding last_kept
last_kept-snoc last [] s = refl
last_kept-snoc last (x ∷ xs) s =
    ground (arith, last_kept-snoc last xs s, last_kept-snoc x.ts_ns xs s)

-- A ring tracks a history when it is valid and reads as the ends of the history.
pub record Tracks (r : SeriesRing) (xs : List Sample) : Type 0 where
  pub valid : IsValid r
  pub slow_reads : read_ring r.slow r.slow_head r.slow_len ≡ last_n slow_capacity (decimate 0 xs)
  pub fast_reads : read_ring r.fast r.fast_head r.fast_len ≡ last_n fast_capacity xs
  pub last_slow : r.last_slow_ns ≡ last_kept 0 xs

pub new_series-Tracks : Tracks new_series []
unfolding decimate last_kept read_ring
new_series-Tracks = record {
  valid = new_series-IsValid;
  slow_reads = refl;
  fast_reads = refl;
  last_slow = refl;
}

push_kept :
    (r : SeriesRing) (s : Sample)
    → leb (add_u64 r.last_slow_ns 950_000_000) s.ts_ns ≡ true
    → push_series r s ≡ push_slow (push_fast r s) s
unfolding push_series
push_kept r s kept = rw kept

push_skipped :
    (r : SeriesRing) (s : Sample)
    → leb (add_u64 r.last_slow_ns 950_000_000) s.ts_ns ≡ false
    → push_series r s ≡ push_fast r s
unfolding push_series
push_skipped r s skipped = rw skipped

module _ {r : SeriesRing} {xs : List Sample} (s : Sample) (t : Tracks r xs) where
  fast_pushed :
      let r' = push_fast r s in
      read_ring r'.fast r'.fast_head r'.fast_len ≡ last_n fast_capacity (xs ++ s ∷ [])
  fast_pushed = rw (write_lem fast_capacity s t.valid.fast, t.fast_reads, last_n-snoc)

  slow_pushed :
      let r' = push_slow r s in
      read_ring r'.slow r'.slow_head r'.slow_len ≡ last_n slow_capacity (decimate 0 xs ++ s ∷ [])
  slow_pushed = rw (write_lem slow_capacity s t.valid.slow, t.slow_reads, last_n-snoc)

  pub push_series-Tracks : Tracks (push_series r s) (xs ++ s ∷ [])
  push_series-Tracks =
      let valid = push_series-IsValid s t.valid in
      elim (Bool-cases (leb (add_u64 r.last_slow_ns 950_000_000) s.ts_ns)) [
        | inl kept ↦
            let kept' : leb (add_u64 (last_kept 0 xs) 950_000_000) s.ts_ns ≡ true =
              rw (← t.last_slow) kept in
            rw (push_kept r s kept) (record {
              valid = rw (push_kept r s kept) at valid;
              slow_reads = rw (decimate-snoc 0 xs s, kept') slow_pushed;
              fast_reads = fast_pushed;
              last_slow = rw (last_kept-snoc 0 xs s, kept');
            })
        | inr skipped ↦
            let skipped' : leb (add_u64 (last_kept 0 xs) 950_000_000) s.ts_ns ≡ false =
              rw (← t.last_slow) skipped in
            rw (push_skipped r s skipped) (record {
              valid = rw (push_skipped r s skipped) at valid;
              slow_reads = rw (decimate-snoc 0 xs s, skipped') t.slow_reads;
              fast_reads = fast_pushed;
              last_slow = rw (last_kept-snoc 0 xs s, skipped') t.last_slow;
            })
      ]

-- What a snapshot shows of a ring that tracks a history.
unfoldable pub history_snapshot : List Sample → SeriesSnapshot
history_snapshot xs = record {
  slow = last_n slow_capacity (decimate 0 xs);
  fast = last_n fast_capacity xs;
}

pub snapshot_series-of_Tracks :
    {r : SeriesRing} {xs : List Sample} → Tracks r xs → snapshot_series r ≡ history_snapshot xs
unfolding snapshot_series history_snapshot
snapshot_series-of_Tracks t = rw (t.slow_reads, t.fast_reads)

push_all-Tracks :
    (ys : List Sample) {r : SeriesRing} {xs : List Sample}
    → Tracks r xs
    → Tracks (foldl push_series r ys) (xs ++ ys)
push_all-Tracks [] {r} {xs} t = rw append-nil t
push_all-Tracks (y ∷ ys) {r} {xs} t =
    let step = push_all-Tracks ys (push_series-Tracks y t) in rw append_assoc at step

-- What comes before 950 ms is not kept.
decimate-early :
    (early xs : List Sample)
    → All (λ s. s.ts_ns < 950_000_000) early
    → decimate 0 (early ++ xs) ≡ decimate 0 xs
unfolding decimate
decimate-early [] xs h = refl
decimate-early (s ∷ early) xs h =
    let skipped : leb (add_u64 0 950_000_000) s.ts_ns ≡ false = ground (arith, h.0) in
    rw skipped (decimate-early early xs h.1)

-- After any sequence of pushes to a new series, its snapshot's fast tail is exactly the last 100
-- samples, and its slow tail exactly the last 120 of the samples that `decimate` keeps, each with
-- the oldest first. Samples from before 950 ms at the start of the sequence leave the slow tail as if they had not been
-- pushed: the code measures the first distance from time 0, and so drops a first sample at time 0.
pub snapshot_series-foldl :
    (early xs : List Sample)
    → All (λ s. s.ts_ns < 950_000_000) early
    → let shot = snapshot_series (foldl push_series new_series (early ++ xs)) in
      (shot.fast ≡ last_n fast_capacity (early ++ xs))
      × (shot.slow ≡ last_n slow_capacity (decimate 0 (early ++ xs)))
      × (shot.slow ≡ last_n slow_capacity (decimate 0 xs))
unfolding history_snapshot
snapshot_series-foldl early xs h =
    let e = snapshot_series-of_Tracks (push_all-Tracks (early ++ xs) new_series-Tracks) in
    let slow = ap (λ v. v.slow) e in
    (ap (λ v. v.fast) e, slow, slow ∙ ap (last_n slow_capacity) (decimate-early early xs h))
