-- ===== src/Server/Lod/Choice.antt =====
-- Which width `choose_tile` picks, and when raw events are served (lod.rs).
use native.Mathlib.Nat.{div-lt_iff_lt-mul}
use perf_weave.Base.{
  ℕ, zero, suc, ◌*◌, ◌/◌, ◌^◌, ◌≤◌, ◌<◌, ◌≡◌, ◌↔◌, ◌⊎◌, inl, inr, ◌==◌, ==_ne, refl, true, false,
  none, some, List, [], ◌∷◌, arith, All, get_or, lt→leb_false, le→leb,
}
use native.Mathlib.Decide.{dec_le, dec_lt}
use perf_weave.Common.Tiles.{tile_widths_ns}
use perf_weave.Server.Lod.{first_at_least, choose_tile, should_serve_raw}

-- Each width is larger than the one before it.
abbrev pub IsAscending : List ℕ → Type 0
IsAscending [] = Unit
IsAscending (w ∷ ws) = All (λ v. w ≤ v) ws × IsAscending ws

All-weaken : (t w : ℕ) (ws : List ℕ) → All (λ v. w ≤ v) ws → All (λ v. (v < t) ⊎ (w ≤ v)) ws
All-weaken t w [] h = tt
All-weaken t w (v ∷ ws) h = (inr h.0, All-weaken t w ws h.1)

-- The first width that reaches the target is the least that does; if none does, all are below it.
first_at_least_lem :
    (target : ℕ) (ws : List ℕ)
    → IsAscending ws
    → ((w : ℕ) × (first_at_least target ws ≡ some w)
        × (target ≤ w)
        × All (λ v. (v < target) ⊎ (w ≤ v)) ws)
      ⊎ ((first_at_least target ws ≡ none) × All (λ v. v < target) ws)
unfolding first_at_least
first_at_least_lem target [] asc = inr (refl, tt)
first_at_least_lem target (w ∷ ws) asc = elim (dec_le target w) [
  | yes h ↦ inl (w, rw (le→leb target w h), h, (inr (omega arith), All-weaken target w ws asc.0))
  | no h ↦ rw (lt→leb_false target w (omega arith)) (elim (first_at_least_lem target ws asc.1) [
    | inl (v, found, reaches, least) ↦ inl (v, found, reaches, (inl (omega arith), least))
    | inr (missed, below) ↦ inr (missed, (omega arith, below))
  ])
]

-- For a positive number of pixels `choose_tile` always returns a width: the least one of the pyramid
-- that is at least the time of one pixel, and the widest one where no width is.
pub choose_tile_lem :
    (range_ns pixels : ℕ)
    → 0 < pixels
    → ((w : ℕ) × (choose_tile range_ns pixels ≡ some w)
        × (range_ns / pixels ≤ w)
        × All (λ v. (v < range_ns / pixels) ⊎ (w ≤ v)) tile_widths_ns)
      ⊎ ((choose_tile range_ns pixels ≡ some 2_097_152_000)
          × All (λ v. v < range_ns / pixels) tile_widths_ns)
unfolding choose_tile
choose_tile_lem range_ns pixels h =
    let e : (pixels == 0) ≡ false = ==_ne pixels 0 (omega arith) in
    elim (first_at_least_lem (range_ns / pixels) tile_widths_ns (omega arith)) [
      | inl (w, found, reaches, least) ↦ inl (w, rw (e, found), reaches, least)
      | inr (missed, below) ↦ inr (rw (e, missed), below)
    ]

-- Raw events are served exactly when the range is shorter than one finest tile for each pixel, and
-- there are pixels at all.
pub should_serve_raw_iff :
    (range_ns pixels : ℕ)
    → (should_serve_raw range_ns pixels ≡ true)
      ↔ ((0 < pixels) × (range_ns < get_or tile_widths_ns 0 0 * pixels))
unfolding should_serve_raw
should_serve_raw_iff range_ns pixels = elim (dec_lt 0 pixels) [
  | yes p ↦
      let quotient = div-lt_iff_lt-mul {k = pixels} {x = range_ns} {y = 1_000} p in
      ((λ h. ground (arith, quotient)), (λ h. ground (arith, quotient)))
  | no p ↦ ((λ h. ground arith), (λ h. ground arith))
]

-- The widths lie powers of eight apart, from one microsecond on.
tile_widths_powers : (k : ℕ) → k < 8 → get_or tile_widths_ns k 0 ≡ 1_000 * 8 ^ k
tile_widths_powers zero h = refl
tile_widths_powers (suc zero) h = refl
tile_widths_powers (suc (suc zero)) h = refl
tile_widths_powers (suc (suc (suc zero))) h = refl
tile_widths_powers (suc (suc (suc (suc zero)))) h = refl
tile_widths_powers (suc (suc (suc (suc (suc zero))))) h = refl
tile_widths_powers (suc (suc (suc (suc (suc (suc zero)))))) h = refl
tile_widths_powers (suc (suc (suc (suc (suc (suc (suc zero))))))) h = refl
tile_widths_powers (suc (suc (suc (suc (suc (suc (suc (suc k)))))))) h = absurd (omega arith)
