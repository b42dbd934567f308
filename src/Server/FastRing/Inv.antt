-- ===== src/Server/FastRing/Inv.antt =====
-- The representation invariant of a series' two rings (fast_ring.rs): every index that `push` and
-- `read_ring` use lies inside its buffer.
use perf_weave.Base.{arith, length-set, length-replicate}
use perf_weave.Server.FastRing.{
  Sample, zero_sample, SeriesRing, new_series, push_series, slow_capacity, fast_capacity,
}
use perf_weave.Server.FastRing.Window.{Fits}

pub record IsValid (r : SeriesRing) : Type 0 where
  pub slow : Fits slow_capacity r.slow r.slow_head r.slow_len
  pub fast : Fits fast_capacity r.fast r.fast_head r.fast_len

pub new_series-IsValid : IsValid new_series
new_series-IsValid = record {
  slow = record {
    size = length-replicate slow_capacity zero_sample;
    head_in = omega arith;
    len_in = omega arith;
  };
  fast = record {
    size = length-replicate fast_capacity zero_sample;
    head_in = omega arith;
    len_in = omega arith;
  };
}

-- `push` keeps the shape of both rings: buffers of the full capacity, heads inside them, and never
-- more samples than the capacity.
pub push_series-IsValid : {r : SeriesRing} (s : Sample) → IsValid r → IsValid (push_series r s)
unfolding push_series
push_series-IsValid {r} s v =
    ground (arith, length-set r.slow r.slow_head s, length-set r.fast r.fast_head s)
