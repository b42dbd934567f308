-- ===== src/Server/Skew/Wire.antt =====
-- The clock fit from the agent (clock_sync.rs, clock.rs) over the wire to the server's skew table
-- (skew.rs): which time stamps the two sides map alike.
use perf_weave.Base.{ℕ, ◌+◌, ◌-◌, ◌*◌, ◌/◌, ◌^◌, ◌≤◌, ◌<◌, ◌≡◌, refl, some, arith, sym, ◌∙◌, ap}
use native.Mathlib.Nat.{mul-div_cancel_left}
use perf_weave.Base.Int.{
  ℤ, pos, negsuc, pos_part, neg_part, ◌+ℤ◌, ◌/ℤ◌, wrap_i128, max_zero, as_u64, wrap_i128-pos,
  saturate_i128-of_in, mul-pos,
}
use perf_weave.Base.Maps.{pair_eq}
use perf_weave.Common.Clock.{ClockOffset, identity}
use perf_weave.Common.Clock
use perf_weave.Proto
use perf_weave.Agent.ClockSync.{latest_proto, proto_of}
use perf_weave.Server.Skew.Table.{map_ts-upsert_self}
use perf_weave.Server.Skew.{SkewTable, Entry, entry_of, upsert, map_entry, map_ts}

-- The affine value of an integer offset and a quotient, where it is a `u64`.
host_of : ℤ → ℕ → ℕ
host_of z q = pos_part z + q - neg_part z

host-lem :
    (z : ℤ) (q : ℕ)
    → neg_part z ≤ pos_part z + q
    → pos_part z + q < neg_part z + 2 ^ 64
    → as_u64 (max_zero (wrap_i128 (z +ℤ pos q))) ≡ host_of z q
unfolding host_of ◌+ℤ◌ wrap_i128
host-lem (pos a) q low high = ground arith
host-lem (negsuc n) q low high = ground arith

-- The offset's sign is lost on the wire, and the final cast to `u64` makes up for it.
host-wire :
    (z : ℤ) (q : ℕ)
    → neg_part z ≤ 2 ^ 64
    → pos_part z < 2 ^ 64
    → neg_part z ≤ pos_part z + q
    → pos_part z + q < neg_part z + 2 ^ 64
    → as_u64 (max_zero (wrap_i128 (pos (as_u64 z) +ℤ pos q))) ≡ host_of z q
unfolding host_of ◌+ℤ◌ wrap_i128
host-wire (pos a) q small small' low high = ground arith
host-wire (negsuc n) q small small' low high = ground arith

quot-pos : (n d : ℕ) → pos n /ℤ pos d ≡ pos (n / d)
unfolding ◌/ℤ◌
quot-pos n d = refl

-- A fit whose slope is a fraction of `u64`s, the denominator positive, and which maps `src` into the range of `u64`.
pub record Maps (c : ClockOffset) (p d src : ℕ) : Type 0 where
  pub slope_num : c.slope_num ≡ pos p
  pub slope_den : c.slope_den ≡ pos d
  pub num_fits : p < 2 ^ 64
  pub den_pos : 0 < d
  pub den_fits : d < 2 ^ 64
  pub product_fits : p * src < 2 ^ 127
  pub offset_low : neg_part c.offset_ns ≤ 2 ^ 64
  pub offset_high : pos_part c.offset_ns < 2 ^ 64
  pub host_low : neg_part c.offset_ns ≤ pos_part c.offset_ns + p * src / d
  pub host_high : pos_part c.offset_ns + p * src / d < neg_part c.offset_ns + 2 ^ 64

latest_proto-eq :
    (c : ClockOffset) (node_id : ℕ) {w : Proto.ClockOffset}
    → latest_proto (record { inner = c }) node_id ≡ some w
    → proto_of node_id c ≡ w
unfolding latest_proto
latest_proto-eq c node_id sent = ground arith

module _ {c : ClockOffset} {p d src : ℕ} (m : Maps c p d src) where
  -- The agent's mapping is exact affine arithmetic, rounded down.
  pub map_lem : Clock.map c src ≡ pos_part c.offset_ns + p * src / d - neg_part c.offset_ns
  unfolding Clock.map host_of
  map_lem = rw (
    m.slope_num,
    m.slope_den,
    mul-pos,
    wrap_i128-pos (p * src) m.product_fits,
    quot-pos,
    host-lem c.offset_ns (p * src / d) m.host_low m.host_high,
  )

  -- What the server makes of the same fit, sent as `u64`s.
  pub map_entry_lem :
      (e : Entry)
      → e.offset_ns ≡ pos (as_u64 c.offset_ns)
      → e.slope_num ≡ pos p
      → e.slope_den ≡ pos d
      → map_entry e src ≡ pos_part c.offset_ns + p * src / d - neg_part c.offset_ns
  unfolding map_entry host_of
  map_entry_lem e eo en ed = rw (
    en,
    ed,
    eo,
    mul-pos,
    saturate_i128-of_in (pos (p * src)) (omega (arith, m.product_fits)),
    quot-pos,
    host-wire c.offset_ns (p * src / d) m.offset_low m.offset_high m.host_low m.host_high,
  )

  -- A fit that the agent sends with a batch is applied by the server just as by the agent, negative
  -- offsets included: for every fit whose slope is a fraction of `u64`s with a positive denominator, and every time stamp
  -- whose product with the slope stays below 2^127 and that the fit maps into the range of `u64`.
  pub map_ts-latest_proto :
      (t : SkewTable) (now node_id : ℕ) {w : Proto.ClockOffset}
      → latest_proto (record { inner = c }) node_id ≡ some w
      → map_ts (upsert now t w) node_id 0 src ≡ Clock.map c src
  map_ts-latest_proto t now node_id {w} sent = rw (← latest_proto-eq c node_id sent) (
      map_ts-upsert_self now t (proto_of node_id c) src
      ∙ map_entry_lem (entry_of now (proto_of node_id c)) refl
          (rw m.slope_num (ap pos (omega (arith, m.num_fits))))
          (rw m.slope_den (ap pos (omega (arith, m.den_pos, m.den_fits))))
      ∙ sym map_lem)

-- The comment of skew.rs calls the server's second correction idempotent. It is not: an event that
-- the agent has corrected by a fit of slope one and offset `k` ends `k` nanoseconds too late.
pub map_ts-corrected :
    {c : ClockOffset} {d src k : ℕ} (t : SkewTable) (now node_id : ℕ) {w : Proto.ClockOffset}
    → Maps c d d src
    → Maps c d d (src + k)
    → c.offset_ns ≡ pos k
    → latest_proto (record { inner = c }) node_id ≡ some w
    → (Clock.map c src ≡ src + k)
      × (map_ts (upsert now t w) node_id 0 (Clock.map c src) ≡ src + k + k)
map_ts-corrected {c} {d} {src} {k} t now node_id m m' e sent =
    let once : Clock.map c src ≡ src + k =
      rw (map_lem m, e, mul-div_cancel_left src m.den_pos) (omega arith) in
    (
      once,
      rw once (
          map_ts-latest_proto m' t now node_id sent
          ∙ rw (map_lem m', e, mul-div_cancel_left (src + k) m.den_pos) (omega arith)),
    )
