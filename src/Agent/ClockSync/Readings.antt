-- ===== src/Agent/ClockSync/Readings.antt =====
-- Which readings the clock fit is made from (clock_sync.rs `measure`).
use perf_weave.Base.{
  ℕ, zero, suc, ◌+◌, ◌*◌, ◌/◌, ◌≤◌, ◌<◌, ◌≡◌, refl, ◌∙◌, ap, List, [], ◌∷◌, map, filter, length,
  arith, leb, if◌then◌else◌, get_or, length-map,
}
use perf_weave.Agent.ClockSync.{Reading, latency, pair_of, insert_sorted, sort, filter_pairs}

-- How many numbers are at most `c`.
count_le : ℕ → List ℕ → ℕ
count_le c [] = 0
count_le c (x ∷ xs) = (if leb x c then 1 else 0) + count_le c xs

count_le-insert_sorted :
    (c x : ℕ) (ys : List ℕ) → count_le c (insert_sorted x ys) ≡ count_le c (x ∷ ys)
unfolding count_le
count_le-insert_sorted c x [] = refl
count_le-insert_sorted c x (y ∷ ys) = ground (arith, count_le-insert_sorted c x ys)

count_le-sort : (c : ℕ) (xs : List ℕ) → count_le c (sort xs) ≡ count_le c xs
unfolding count_le
count_le-sort c [] = refl
count_le-sort c (x ∷ xs) =
    count_le-insert_sorted c x (sort xs)
    ∙ ap (λ n. (if leb x c then 1 else 0) + n) (count_le-sort c xs)

length-insert_sorted : (x : ℕ) (ys : List ℕ) → length (insert_sorted x ys) ≡ suc (length ys)
length-insert_sorted x [] = refl
length-insert_sorted x (y ∷ ys) = ground (arith, length-insert_sorted x ys)

length-sort : (xs : List ℕ) → length (sort xs) ≡ length xs
length-sort [] = refl
length-sort (x ∷ xs) = length-insert_sorted x (sort xs) ∙ ap suc (length-sort xs)

-- Neighbours in order.
abbrev IsAscending : List ℕ → Type 0
IsAscending [] = Unit
IsAscending (x ∷ []) = Unit
IsAscending (x ∷ y ∷ ys) = (x ≤ y) × IsAscending (y ∷ ys)

insert_sorted-IsAscending :
    (x : ℕ) (ys : List ℕ) → IsAscending ys → IsAscending (insert_sorted x ys)
insert_sorted-IsAscending x [] h = tt
insert_sorted-IsAscending x (y ∷ []) h = ground arith
insert_sorted-IsAscending x (y ∷ z ∷ zs) h =
    let rest = insert_sorted-IsAscending x (z ∷ zs) h.1 in ground arith

sort-IsAscending : (xs : List ℕ) → IsAscending (sort xs)
sort-IsAscending [] = tt
sort-IsAscending (x ∷ xs) = insert_sorted-IsAscending x (sort xs) (sort-IsAscending xs)

-- In an ascending list the head is below every entry, and `k + 1` entries are at most entry `k`.
head-below :
    (x : ℕ) (xs : List ℕ) (k : ℕ) → IsAscending (x ∷ xs) → k ≤ length xs → x ≤ get_or (x ∷ xs) k 0
head-below x xs zero h small = omega arith
head-below x [] (suc k) h small = absurd (omega arith)
head-below x (y ∷ ys) (suc k) h small =
    let rest = head-below y ys k h.1 (omega arith) in omega (arith, rest, h.0)

count_le-entry :
    (xs : List ℕ) (k : ℕ) → IsAscending xs → k < length xs → suc k ≤ count_le (get_or xs k 0) xs
unfolding count_le
count_le-entry [] k h small = absurd (omega arith)
count_le-entry (x ∷ xs) zero h small = ground arith
count_le-entry (x ∷ []) (suc k) h small = absurd (omega arith)
count_le-entry (x ∷ y ∷ ys) (suc k) h small =
    let rest = count_le-entry (y ∷ ys) k h.1 (omega arith) in
    let below = head-below x (y ∷ ys) (suc k) h (omega arith) in ground (arith, rest, below)

length-filter-latency :
    (c : ℕ) (rs : List Reading)
    → length (filter (λ r. leb (latency r) c) rs) ≡ count_le c (map latency rs)
unfolding count_le
length-filter-latency c [] = refl
length-filter-latency c (r ∷ rs) = ground (arith, length-filter-latency c rs)

count_le-bound : (c : ℕ) (xs : List ℕ) → count_le c xs ≤ length xs
unfolding count_le
count_le-bound c [] = omega arith
count_le-bound c (x ∷ xs) = ground (arith, count_le-bound c xs)

-- At least nine tenths of the readings go into the fit, those of the least latency: the threshold
-- drops no more than the slowest tenth, and always keeps one.
pub length-filter_pairs :
    (rs : List Reading)
    → 0 < length rs
    → (length rs * 9 < length (filter_pairs rs) * 10) × (length (filter_pairs rs) ≤ length rs)
unfolding filter_pairs
length-filter_pairs rs some_reading =
    let xs = map latency rs in
    let sizes : length (sort xs) ≡ length rs = length-sort xs ∙ length-map latency rs in
    let k = length (sort xs) * 9 / 10 in
    let c = get_or (sort xs) k 0 in
    let kept = filter (λ r. leb (latency r) c) rs in
    let enough = count_le-entry (sort xs) k (sort-IsAscending xs) (omega (arith, sizes)) in
    let all_of = count_le-sort c xs in
    let counted = length-filter-latency c rs in
    let bound = count_le-bound c xs in
    let mapped = length-map pair_of kept in
    let size' = length-map latency rs in
    (
      omega (arith, sizes, enough, all_of, counted, mapped),
      omega (arith, all_of, counted, mapped, bound, size'),
    )
