-- ===== src/Server/Skew.antt =====
-- crates/perfweave-server/src/ingest/skew.rs: the latest clock fit of each (node, gpu), applied to
-- raw time stamps.
pub mod Table
pub mod Wire
use perf_weave.Base.{ℕ, Option, none, some, List, [], ◌∷◌, max, map, if◌then◌else◌, leb}
use perf_weave.Base.Int.{ℤ, pos, ◌+ℤ◌, ◌*ℤ◌, ◌/ℤ◌, wrap_i128, saturate_i128, max_zero, as_u64}
use perf_weave.Base.Maps.{lookup, insert, values, pair_eq}
use perf_weave.Proto.{ClockOffset}

pub record Entry : Type 0 where
  pub offset_ns : ℤ
  pub slope_num : ℤ
  pub slope_den : ℤ
  pub residual_max_ns : ℕ
  pub updated_at_host_ns : ℕ

abbrev pub SkewTable : Type 0
SkewTable = List ((ℕ × ℕ) × Entry)

abbrev pub new : SkewTable
new = []

-- The entry that `upsert` makes of a message, whose `u64` fields become `i128`; `now` is the host
-- clock's reading.
abbrev pub entry_of : ℕ → ClockOffset → Entry
entry_of now c = record {
  offset_ns = pos c.offset_ns;
  slope_num = pos c.slope_num;
  slope_den = pos (max c.slope_den 1);
  residual_max_ns = c.residual_max_ns;
  updated_at_host_ns = now;
}

unfoldable pub upsert : ℕ → SkewTable → ClockOffset → SkewTable
unfolding insert
upsert now t c = insert (c.node_id, c.gpu_id) (entry_of now c) t

-- `host` for an entry: the product saturates, the sum wraps.
unfoldable pub map_entry : Entry → ℕ → ℕ
map_entry e src_ns =
    let host =
      wrap_i128 (e.offset_ns +ℤ saturate_i128 (e.slope_num *ℤ pos src_ns) /ℤ e.slope_den) in
    as_u64 (max_zero host)

-- `SkewTable::map`: the identity without a fit.
unfoldable pub map_ts : SkewTable → ℕ → ℕ → ℕ → ℕ
unfolding map_entry
map_ts t node_id gpu_id src_ns = elim (lookup (node_id, gpu_id) t) [
  | none ↦ src_ns
  | some e ↦ map_entry e src_ns
]

-- `Iterator::max` of a list of numbers.
abbrev pub max_of : List ℕ → Option ℕ
max_of [] = none
max_of (x ∷ xs) = elim (max_of xs) [ none ↦ some x | some m ↦ some (max x m) ]

unfoldable pub latest_residual_ns : SkewTable → Option ℕ
latest_residual_ns t = max_of (map (λ e. e.residual_max_ns) (values t))

unfoldable pub newest_update_host_ns : SkewTable → Option ℕ
newest_update_host_ns t = max_of (map (λ e. e.updated_at_host_ns) (values t))
