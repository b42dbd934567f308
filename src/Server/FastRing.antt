-- ===== src/Server/FastRing.antt =====
-- crates/perfweave-server/src/fast_ring.rs: the live plane's ring of samples for each series, and
-- the snapshot that its readers see. A series keeps a fast tail of every sample and a slow tail of
-- about one a second.
pub mod Inv
pub mod Window
pub mod Refine
pub mod Table
use perf_weave.Base.{
  ℕ, zero, suc, ◌+◌, ◌-◌, ◌*◌, ◌%◌, ◌≡◌, ◌↔◌, Bool, true, ◌&&◌, Option, none, some, List, [], ◌∷◌,
  map, arith, ltb, leb, ◌==◌, if◌then◌else◌, length, get_or, set, replicate,
}
use perf_weave.Base.Words.{add_u64, F64}
use perf_weave.Base.Maps.{Eq, lookup, insert}

abbrev pub slow_hz : ℕ
slow_hz = 1

abbrev pub fast_hz : ℕ
fast_hz = 10

abbrev pub slow_window_s : ℕ
slow_window_s = 120

abbrev pub fast_window_s : ℕ
fast_window_s = 10

abbrev pub slow_capacity : ℕ
slow_capacity = slow_window_s * slow_hz

abbrev pub fast_capacity : ℕ
fast_capacity = fast_window_s * fast_hz

pub record SeriesKey : Type 0 where
  pub node_id : ℕ
  pub gpu_id : ℕ
  pub metric_id : ℕ

abbrev pub series_key_beq : SeriesKey → SeriesKey → Bool
series_key_beq a b =
    (a.node_id == b.node_id) && (a.gpu_id == b.gpu_id) && (a.metric_id == b.metric_id)

pub series_key_beq_iff : (a b : SeriesKey) → (series_key_beq a b ≡ true) ↔ (a ≡ b)
series_key_beq_iff a b = ground arith

instance abbrev pub series_key_eq : Eq SeriesKey
series_key_eq = record { beq = series_key_beq; beq_iff = series_key_beq_iff }

pub record Sample : Type 0 where
  pub ts_ns : ℕ
  pub value : F64

abbrev pub zero_sample : Sample
zero_sample = record { ts_ns = 0; value = 0 }

pub record SeriesRing : Type 0 where
  pub slow : List Sample
  pub slow_head : ℕ
  pub slow_len : ℕ
  pub fast : List Sample
  pub fast_head : ℕ
  pub fast_len : ℕ
  pub last_slow_ns : ℕ

abbrev pub new_series : SeriesRing
new_series = record {
  slow = replicate slow_capacity zero_sample;
  slow_head = 0;
  slow_len = 0;
  fast = replicate fast_capacity zero_sample;
  fast_head = 0;
  fast_len = 0;
  last_slow_ns = 0;
}

-- The write into the fast ring, which `push` always makes. A `set` out of range changes nothing
-- where the code would panic; the heads and lengths stay below the capacities, so that no index
-- sum wraps.
abbrev pub push_fast : SeriesRing → Sample → SeriesRing
push_fast r s = record r {
  fast = set r.fast r.fast_head s;
  fast_head = (r.fast_head + 1) % fast_capacity;
  fast_len = if ltb r.fast_len fast_capacity then r.fast_len + 1 else r.fast_len;
}

-- The write into the slow ring, for a sample that the decimation lets through.
abbrev pub push_slow : SeriesRing → Sample → SeriesRing
push_slow r s = record r {
  slow = set r.slow r.slow_head s;
  slow_head = (r.slow_head + 1) % slow_capacity;
  slow_len = if ltb r.slow_len slow_capacity then r.slow_len + 1 else r.slow_len;
  last_slow_ns = s.ts_ns;
}

-- `SeriesRing::push`. The sum of the time stamps is a `u64` and wraps.
unfoldable pub push_series : SeriesRing → Sample → SeriesRing
push_series r s =
    let r' = push_fast r s in
    if leb (add_u64 r'.last_slow_ns 950_000_000) s.ts_ns then push_slow r' s else r'

-- The loop of `read_ring`: `i` counts up, `n` iterations are left.
pub read_loop : List Sample → ℕ → ℕ → ℕ → List Sample
read_loop buf start i zero = []
read_loop buf start i (suc n) =
    get_or buf ((start + i) % length buf) zero_sample ∷ read_loop buf start (i + 1) n

unfoldable pub read_ring : List Sample → ℕ → ℕ → List Sample
unfolding read_loop
read_ring buf head len =
    if len == 0 then [] else read_loop buf ((head + length buf - len) % length buf) 0 len

pub record SeriesSnapshot : Type 0 where
  pub slow : List Sample
  pub fast : List Sample

unfoldable pub snapshot_series : SeriesRing → SeriesSnapshot
unfolding read_ring
snapshot_series r = record {
  slow = read_ring r.slow r.slow_head r.slow_len;
  fast = read_ring r.fast r.fast_head r.fast_len;
}

pub record FastRingSnapshot : Type 0 where
  pub series : List (SeriesKey × SeriesSnapshot)
  pub published_at_ns : ℕ

pub record FastRing : Type 0 where
  pub writer : List (SeriesKey × SeriesRing)
  pub published : FastRingSnapshot

abbrev pub new : FastRing
new = record { writer = []; published = record { series = []; published_at_ns = 0 } }

-- `entry(key).or_insert_with(SeriesRing::new)`.
unfoldable pub entry_or_new : SeriesKey → List (SeriesKey × SeriesRing) → SeriesRing
unfolding lookup
entry_or_new k w = elim (lookup k w) [ none ↦ new_series | some r ↦ r ]

unfoldable pub push : FastRing → SeriesKey → Sample → FastRing
unfolding entry_or_new push_series insert
push f k s = record f { writer = insert k (push_series (entry_or_new k f.writer) s) f.writer }

-- The loop over the writer's series, which inserts each snapshot into a fresh map.
unfoldable pub snapshot_all :
    List (SeriesKey × SeriesRing)
    → List (SeriesKey × SeriesSnapshot)
    → List (SeriesKey × SeriesSnapshot)
unfolding snapshot_series insert
snapshot_all [] out = out
snapshot_all ((k, r) ∷ w) out = snapshot_all w (insert k (snapshot_series r) out)

-- `now` is the host clock's reading.
unfoldable pub publish : ℕ → FastRing → FastRing
unfolding snapshot_all
publish now f = record f {
  published = record { series = snapshot_all f.writer []; published_at_ns = now };
}

abbrev pub snapshot : FastRing → FastRingSnapshot
snapshot f = f.published

-- `for_each_series` as a fold of the closure over the published series.
unfoldable pub for_each_series {ℓ} :
    {S : Type ℓ} → (S → SeriesKey → SeriesSnapshot → S) → S → List (SeriesKey × SeriesSnapshot) → S
for_each_series f s [] = s
for_each_series f s ((k, v) ∷ rest) = for_each_series f (f s k v) rest
