-- ===== src/Server/Lod.antt =====
-- crates/perfweave-server/src/api/lod.rs: which tile width a query is served from.
pub mod Choice
use Prim.Native.String.{String}
use perf_weave.Base.{
  ℕ, ◌/◌, Bool, true, false, ◌&&◌, Option, none, some, List, [], ◌∷◌, leb, ltb, ◌==◌, if◌then◌else◌,
  get_last?,
}
use perf_weave.Common.Tiles.{tile_widths_ns}

-- The loop of `choose_tile`: the first width that reaches the target.
unfoldable pub first_at_least : ℕ → List ℕ → Option ℕ
first_at_least target [] = none
first_at_least target (w ∷ ws) = if leb target w then some w else first_at_least target ws

-- `Option::or_else` with a value.
abbrev pub or_else : Option ℕ → Option ℕ → Option ℕ
or_else none d = d
or_else (some w) d = some w

abbrev pub first : List ℕ → Option ℕ
first [] = none
first (w ∷ ws) = some w

unfoldable pub choose_tile : ℕ → ℕ → Option ℕ
unfolding first_at_least
choose_tile range_ns pixels =
    if pixels == 0
    then first tile_widths_ns
    else or_else (first_at_least (range_ns / pixels) tile_widths_ns) (get_last? tile_widths_ns)

unfoldable pub tile_table_name : ℕ → Bool → String
tile_table_name bucket_width_ns metric = if metric then "tiles_metric" else "tiles_activity"

unfoldable pub should_serve_raw : ℕ → ℕ → Bool
should_serve_raw range_ns pixels = ltb 0 pixels && ltb (range_ns / pixels) 1_000
