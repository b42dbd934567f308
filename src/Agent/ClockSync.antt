-- ===== src/Agent/ClockSync.antt =====
-- crates/perfweave-agent/src/clock_sync.rs: the measurement of a clock fit, and the handle that
-- holds the current one. The Theil-Sen fit itself works on floats and is a parameter.
pub mod Readings
use perf_weave.Base.{
  ℕ, false, ◌*◌, ◌/◌, Bool, ◌&&◌, Option, none, some, List, [], ◌∷◌, map, leb, ltb, ◌==◌,
  if◌then◌else◌, length, get_or, filter,
}
use perf_weave.Base.Words.{add_u64, saturating_sub}
use perf_weave.Base.Int.{pos, as_u64, eqb_ℤ}
use perf_weave.Common.Clock.{ClockOffset, Pair, identity}
use perf_weave.Proto as Proto

-- What the loop of `measure` reads in one round: the host clock, the source clock, the host clock.
pub record Reading : Type 0 where
  pub before : ℕ
  pub src_ns : ℕ
  pub after : ℕ

abbrev pub latency : Reading → ℕ
latency r = saturating_sub r.after r.before

abbrev pub pair_of : Reading → Pair
pair_of r = record { src_ns = r.src_ns; host_ns = add_u64 r.before (latency r / 2) }

-- `sort_unstable` on numbers.
abbrev pub insert_sorted : ℕ → List ℕ → List ℕ
insert_sorted x [] = x ∷ []
insert_sorted x (y ∷ ys) = if leb x y then x ∷ y ∷ ys else y ∷ insert_sorted x ys

abbrev pub sort : List ℕ → List ℕ
sort [] = []
sort (x ∷ xs) = insert_sorted x (sort xs)

-- The pairs whose latency is at most the one at nine tenths of the sorted latencies.
unfoldable pub filter_pairs : List Reading → List Pair
filter_pairs rs =
    let sorted_lat = sort (map latency rs) in
    let cutoff = get_or sorted_lat (length sorted_lat * 9 / 10) 0 in
    map pair_of (filter (λ r. leb (latency r) cutoff) rs)

-- `measure` on the readings of its loop, and whether it warned. Indexing an empty list would panic;
-- `none` outside stands for that.
unfoldable pub measure :
    (List Pair → Option ClockOffset) → List Reading → ℕ → Option (Option ClockOffset × Bool)
unfolding filter_pairs
measure fit_theil_sen [] max_residual_ns = none
measure fit_theil_sen (r ∷ rs) max_residual_ns = elim (fit_theil_sen (filter_pairs (r ∷ rs))) [
  | none ↦ some (none, false)
  | some fit ↦ some (some fit, ltb max_residual_ns fit.residual_max_ns)
]

-- `OffsetHandle`: the cell that the fit task writes and every event reads.
pub record OffsetHandle : Type 0 where
  pub inner : ClockOffset

abbrev pub new : ClockOffset → OffsetHandle
new initial = record { inner = initial }

abbrev pub current : OffsetHandle → ClockOffset
current h = h.inner

abbrev pub set : OffsetHandle → ClockOffset → OffsetHandle
set h c = record h { inner = c }

abbrev pub default : OffsetHandle
default = new identity

-- The message of a fit: every signed field is cast to `u64`.
abbrev pub proto_of : ℕ → ClockOffset → Proto.ClockOffset
proto_of node_id c = record {
  node_id = node_id;
  gpu_id = 0;
  offset_ns = as_u64 c.offset_ns;
  slope_num = as_u64 c.slope_num;
  slope_den = as_u64 c.slope_den;
  residual_max_ns = c.residual_max_ns;
}

-- `latest_proto`: nothing for an identity fit, else the message.
unfoldable pub latest_proto : OffsetHandle → ℕ → Option Proto.ClockOffset
latest_proto h node_id =
    let c = current h in
    if eqb_ℤ c.offset_ns (pos 0) && eqb_ℤ c.slope_num c.slope_den && c.residual_max_ns == 0
    then none
    else some (proto_of node_id c)
