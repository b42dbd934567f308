-- ===== src/Server/FastRing/Window.antt =====
-- What `read_ring` of crates/perfweave-server/src/fast_ring.rs returns, and what a write at the
-- head does to it, for a ring of any capacity.
use perf_weave.Base.{
  ℕ, zero, suc, ◌+◌, ◌-◌, ◌%◌, ◌≤◌, ◌<◌, ◌≡◌, ◌≢◌, refl, ap, ◌∙◌, ◌⊎◌, inl, inr, List, [], ◌∷◌,
  ◌++◌, arith, if◌then◌else◌, subst, sym, ltb_self, ==_ne, lt→ltb, ltb, length, get_or, set, last_n,
  length-set, get_or-set_self, get_or-set_ne, length-append, last_n-all,
}
use native.Mathlib.Numerals.{add-one}
use native.Mathlib.Nat.{zero-add, mod-eq_of_lt, mod-eq-sub-mod}
use native.Mathlib.Decide.{dec_lt}
use perf_weave.Server.FastRing.{Sample, zero_sample, read_loop, read_ring}

-- An index less than two turns round the ring.
pub mod-turn :
    (x cap : ℕ) → x < cap + cap → ((x < cap) × (x % cap ≡ x)) ⊎ ((cap ≤ x) × (x % cap ≡ x - cap))
mod-turn x cap h = elim (dec_lt x cap) [
  | yes p ↦ inl (p, mod-eq_of_lt p)
  | no p ↦
      inr (omega arith, mod-eq-sub-mod {n = x} {m = cap} (omega arith) ∙ mod-eq_of_lt (omega arith))
]

-- The ring's shape: a buffer of `cap` samples, a head inside it, at most `cap` samples held.
pub record Fits (cap : ℕ) (buf : List Sample) (head len : ℕ) : Type 0 where
  pub size : length buf ≡ cap
  pub head_in : head < cap
  pub len_in : len ≤ cap

pub length-read_loop : (buf : List Sample) (start i n : ℕ) → length (read_loop buf start i n) ≡ n
unfolding read_loop
length-read_loop buf start i zero = refl
length-read_loop buf start i (suc n) = ap suc (length-read_loop buf start (i + 1) n)

read_loop-snoc :
    (buf : List Sample) (start i n : ℕ)
    → read_loop buf start i (suc n)
      ≡ read_loop buf start i n ++ get_or buf ((start + (i + n)) % length buf) zero_sample ∷ []
unfolding read_loop
read_loop-snoc buf start i zero = let e : i + 0 ≡ i = omega arith in rw e
read_loop-snoc buf start i (suc n) =
    let e : i + 1 + n ≡ i + suc n = omega arith in
    ap (◌∷◌ (get_or buf ((start + i) % length buf) zero_sample))
      (rw (← e) (read_loop-snoc buf start (i + 1) n))

-- Reading does not see a write at an index that it does not visit.
read_loop-set :
    (buf : List Sample) (s : Sample) (h start i n : ℕ)
    → ((k : ℕ) → i ≤ k → k < i + n → h ≢ (start + k) % length buf)
    → read_loop (set buf h s) start i n ≡ read_loop buf start i n
unfolding read_loop
read_loop-set buf s h start i zero off = refl
read_loop-set buf s h start i (suc n) off = rw (
  read_loop-set buf s h start (i + 1) n (λ k a b. off k (omega arith) (omega arith)),
  length-set,
  get_or-set_ne buf h ((start + i) % length buf) s zero_sample (off i (omega arith) (omega arith)),
)

-- Starting one place further on is counting from one.
read_loop-shift :
    (buf : List Sample) (start start' i n : ℕ)
    → ((k : ℕ) → k < i + n → (start' + k) % length buf ≡ (start + (k + 1)) % length buf)
    → read_loop buf start' i n ≡ read_loop buf start (i + 1) n
unfolding read_loop
read_loop-shift buf start start' i zero e = refl
read_loop-shift buf start start' i (suc n) e =
    rw (e i (omega arith), read_loop-shift buf start start' (i + 1) n (λ k h. e k (omega arith)))

pub read_ring-eq-read_loop :
    (buf : List Sample) (head len : ℕ)
    → read_ring buf head len ≡ read_loop buf ((head + length buf - len) % length buf) 0 len
unfolding read_ring
read_ring-eq-read_loop buf head zero = refl
read_ring-eq-read_loop buf head (suc n) = rw (==_ne (suc n) 0 (omega arith))

pub length-read_ring : (buf : List Sample) (head len : ℕ) → length (read_ring buf head len) ≡ len
length-read_ring buf head len = rw read_ring-eq-read_loop (length-read_loop buf _ 0 len)

module _ {cap : ℕ} {buf : List Sample} {head len : ℕ} (f : Fits cap buf head len) where
  -- The oldest sample's index, before and after a write that makes the ring longer.
  start_stays : len < cap → ((head + 1) % cap + cap - (len + 1)) % cap ≡ (head + cap - len) % cap
  start_stays h = omega (
    arith,
    mod-turn (head + 1) cap (omega arith),
    mod-turn (head + cap - len) cap (omega arith),
    mod-turn ((head + 1) % cap + cap - (len + 1)) cap
        (omega (arith, mod-turn (head + 1) cap (omega arith))),
  )

  -- The `k`th sample of a window of `len` stands `len - k` places before the head.
  visited :
      (k : ℕ)
      → k < cap
      → ((head + cap - len) % cap + k ≡ head + cap - len + k)
        ⊎ ((head + cap - len) % cap + k + cap ≡ head + cap - len + k)
  visited k h = omega (arith, mod-turn (head + cap - len) cap (omega arith))

  head_next : len < cap → ((head + cap - len) % cap + len) % cap ≡ head
  head_next h = omega (
    arith,
    visited len h,
    mod-turn ((head + cap - len) % cap + len) cap
        (omega (arith, mod-turn (head + cap - len) cap (omega arith))),
  )

  head_unvisited : (k : ℕ) → len < cap → k < len → head ≢ ((head + cap - len) % cap + k) % cap
  head_unvisited k h hk = omega (
    arith,
    visited k (omega arith),
    mod-turn ((head + cap - len) % cap + k) cap
        (omega (arith, mod-turn (head + cap - len) cap (omega arith))),
  )

-- A write at the head of a ring that is not full adds the sample to what is read.
write_grows :
    {cap : ℕ} {buf : List Sample} {head len : ℕ} (s : Sample)
    → Fits cap buf head len
    → len < cap
    → read_ring (set buf head s) ((head + 1) % cap) (len + 1) ≡ read_ring buf head len ++ s ∷ []
write_grows {cap} {buf} {head} {len} s f h = rw (
  read_ring-eq-read_loop,
  read_ring-eq-read_loop buf head len,
  length-set,
  f.size,
  start_stays f h,
  add-one len,
  read_loop-snoc,
  length-set,
  f.size,
  zero-add len,
  head_next f h,
  get_or-set_self buf head s zero_sample (omega arith),
  read_loop-set buf s head ((head + cap - len) % cap) 0 len
      (λ k a b. rw f.size (head_unvisited f k h (omega arith))),
)

module _ (cap : ℕ) {head : ℕ} (h : head < suc cap) where
  start_turns : ((head + 1) % suc cap + suc cap - suc cap) % suc cap ≡ (head + 1) % suc cap
  start_turns = omega (
    arith,
    mod-turn (head + 1) (suc cap) (omega arith),
    mod-turn ((head + 1) % suc cap + suc cap - suc cap) (suc cap)
        (omega (arith, mod-turn (head + 1) (suc cap) (omega arith))),
  )

  oldest_at_head : (head + suc cap - suc cap) % suc cap ≡ head
  oldest_at_head = omega (arith, mod-turn (head + suc cap - suc cap) (suc cap) (omega arith))

  -- A place `k` after the next head is the place `k + 1` after the head.
  next_place :
      (k : ℕ) → k < suc cap → ((head + 1) % suc cap + k) % suc cap ≡ (head + (k + 1)) % suc cap
  next_place k hk = omega (
    arith,
    mod-turn (head + 1) (suc cap) (omega arith),
    mod-turn (head + (k + 1)) (suc cap) (omega arith),
    mod-turn ((head + 1) % suc cap + k) (suc cap)
        (omega (arith, mod-turn (head + 1) (suc cap) (omega arith))),
  )

  place_ne_head : (k : ℕ) → k < cap → head ≢ ((head + 1) % suc cap + k) % suc cap
  place_ne_head k hk =
      omega (arith, next_place k (omega arith), mod-turn (head + (k + 1)) (suc cap) (omega arith))

  last_place : ((head + 1) % suc cap + cap) % suc cap ≡ head
  last_place =
      omega
        (arith, next_place cap (omega arith), mod-turn (head + (cap + 1)) (suc cap) (omega arith))

-- A write at the head of a full ring drops the oldest sample and adds the new one.
write_turns :
    {cap : ℕ} {buf : List Sample} {head : ℕ} (s : Sample)
    → Fits (suc cap) buf head (suc cap)
    → read_ring (set buf head s) ((head + 1) % suc cap) (suc cap)
      ≡ read_loop buf head 1 cap ++ s ∷ []
write_turns {cap} {buf} {head} s f = rw (
  read_ring-eq-read_loop,
  length-set,
  f.size,
  start_turns cap f.head_in,
  read_loop-snoc,
  length-set,
  f.size,
  zero-add cap,
  last_place cap f.head_in,
  get_or-set_self buf head s zero_sample (omega arith),
  read_loop-set buf s head ((head + 1) % suc cap) 0 cap
      (λ k a b. rw f.size (place_ne_head cap f.head_in k (omega arith))),
  read_loop-shift buf head ((head + 1) % suc cap) 0 cap
      (λ k b. rw f.size (next_place cap f.head_in k (omega arith))),
  zero-add 1,
)

read_whole :
    {cap : ℕ} {buf : List Sample} {head : ℕ}
    → Fits (suc cap) buf head (suc cap)
    → read_ring buf head (suc cap) ≡ read_loop buf head 0 (suc cap)
read_whole {cap} f = rw (read_ring-eq-read_loop, f.size, oldest_at_head cap f.head_in)

read_full :
    {cap : ℕ} {buf : List Sample} {head : ℕ} (s : Sample)
    → Fits (suc cap) buf head (suc cap)
    → last_n (suc cap) (read_ring buf head (suc cap) ++ s ∷ []) ≡ read_loop buf head 1 cap ++ s ∷ []
unfolding read_loop
read_full {cap} {buf} {head} s f =
    let rest = read_loop buf head 1 cap ++ s ∷ [] in
    let e : suc (length rest) - suc cap ≡ 1 =
      omega (
        arith,
        length-append (read_loop buf head 1 cap) (s ∷ []),
        length-read_loop buf head 1 cap,
      ) in
    rw (read_whole f) (rw e)

-- A push's write leaves the ring reading the last samples of what it read before and the new one.
pub write_lem :
    (cap : ℕ) {buf : List Sample} {head len : ℕ} (s : Sample)
    → Fits cap buf head len
    → read_ring (set buf head s) ((head + 1) % cap) (if ltb len cap then len + 1 else len)
      ≡ last_n cap (read_ring buf head len ++ s ∷ [])
write_lem zero s f = absurd (omega arith)
write_lem (suc n) {buf} {head} {len} s f = elim (dec_lt len (suc n)) [
  | yes h ↦ rw (
    lt→ltb len (suc n) h,
    write_grows s f h,
    last_n-all (suc n) (read_ring buf head len ++ s ∷ []) (
        omega
          (arith, length-append (read_ring buf head len) (s ∷ []), length-read_ring buf head len)),
  )
  | no h ↦
      let e : len ≡ suc n = omega arith in
      rw e (
        rw (ltb_self (suc n)) (
          write_turns s (subst (Fits (suc n) buf head) e f)
          ∙ sym (read_full s (subst (Fits (suc n) buf head) e f))))
]
