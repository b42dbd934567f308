-- ===== src/Server/Skew/Table.antt =====
-- How `upsert` and `map` of the skew table fit together (skew.rs).
use perf_weave.Base.{ℕ, ◌≡◌, ◌≢◌}
use perf_weave.Base.Maps.{pair_eq, lookup-insert_self, lookup-insert_ne}
use perf_weave.Proto.{ClockOffset}
use perf_weave.Server.Skew.{SkewTable, entry_of, upsert, map_entry, map_ts}

-- The fit that was sent last for a pair is the one that its time stamps are mapped by.
pub map_ts-upsert_self :
    (now : ℕ) (t : SkewTable) (c : ClockOffset) (src : ℕ)
    → map_ts (upsert now t c) c.node_id c.gpu_id src ≡ map_entry (entry_of now c) src
unfolding map_ts upsert
map_ts-upsert_self now t c src =
    rw (map_ts, lookup-insert_self (c.node_id, c.gpu_id) (entry_of now c) t)

-- A fit changes nothing for the other pairs.
pub map_ts-upsert_ne :
    (now : ℕ) (t : SkewTable) (c : ClockOffset) (node gpu src : ℕ)
    → ◌≢◌ {A = ℕ × ℕ} (c.node_id, c.gpu_id) (node, gpu)
    → map_ts (upsert now t c) node gpu src ≡ map_ts t node gpu src
unfolding map_ts upsert
map_ts-upsert_ne now t c node gpu src h =
    rw (map_ts, lookup-insert_ne (c.node_id, c.gpu_id) (node, gpu) (entry_of now c) t h)
