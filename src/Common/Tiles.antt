-- ===== src/Common/Tiles.antt =====
-- The tile pyramid's widths: crates/perfweave-common/src/lib.rs.
use perf_weave.Base.{ℕ, List, [], ◌∷◌}

abbrev pub tile_widths_ns : List ℕ
tile_widths_ns =
    1_000 ∷ 8_000 ∷ 64_000 ∷ 512_000 ∷ 4_096_000 ∷ 32_768_000 ∷ 262_144_000 ∷ 2_097_152_000 ∷ []
