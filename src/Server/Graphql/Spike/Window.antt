-- ===== src/Server/Graphql/Spike/Window.antt =====
-- The window around a spike.
use perf_weave.Base.{ℕ, ◌+◌, ◌-◌, ◌^◌, ◌≤◌, ◌<◌, min, arith}
use perf_weave.Server.Graphql.Spike.{pad, win_start, win_end}

-- The window holds the whole bucket, or as much of it as a `u64` can name; it is never empty, it reaches
-- at most half a second further on either side, and its ends are `u64`s.
pub window_lem :
    (b w : ℕ)
    → b < 2 ^ 64
    → w < 2 ^ 64
    → (win_start b ≤ b)
      × (b ≤ win_start b + pad)
      × (min (b + w) (2 ^ 64 - 1) ≤ win_end b w)
      × (win_end b w ≤ b + w + pad)
      × (win_start b < win_end b w)
      × (win_end b w < 2 ^ 64)
unfolding win_start win_end
window_lem b w hb hw =
    (omega arith, omega arith, omega arith, omega arith, omega arith, omega arith)
