-- ===== src/Inject/Ship/Frames.antt =====
-- What stands on a connection (lib.rs): whole frames, and after them at most a part of one.
use mathlib.Core.List.{append-nil, append_assoc}
use perf_weave.Base.{
  ℕ, ◌-◌, ◌<◌, ◌≡◌, refl, ◌⊎◌, inl, inr, true, false, List, [], ◌∷◌, ◌++◌, arith, length, take, min,
}
use perf_weave.Proto.{Batch}
use perf_weave.Inject.Ship.{Conn, Write, whole, part, write_all, fresh, frame}

module _ (encode : Batch → List ℕ) where
  abbrev pub frames : List Batch → List ℕ
  frames [] = []
  frames (b ∷ bs) = frame encode b ++ frames bs

  frames-append : (xs ys : List Batch) → frames (xs ++ ys) ≡ frames xs ++ frames ys
  frames-append [] ys = refl
  frames-append (x ∷ xs) ys = rw (frames-append xs ys, append_assoc) refl

  -- A proper part of a frame.
  abbrev pub IsCut : List ℕ → Type 0
  IsCut p = (b : Batch) × (n : ℕ) × (n < length (frame encode b)) × (p ≡ take n (frame encode b))

  -- Whole frames of the batches, and if a write has failed, then at most a part of one more.
  abbrev pub Carries : Conn → List Batch → Type 0
  Carries c bs =
      (p : List ℕ) × (c.bytes ≡ frames bs ++ p)
      × (((c.broken ≡ false) × (p ≡ [])) ⊎ ((c.broken ≡ true) × ((p ≡ []) ⊎ IsCut p)))

  pub fresh-Carries : Carries fresh []
  fresh-Carries = ([], refl, inl (refl, refl))

  -- A write of a frame: it is carried, or the connection is broken and carries what it did.
  pub write_all-Carries :
      (w : Write) (c : Conn) (b : Batch) (bs : List Batch)
      → Carries c bs
      → let (c', done) = write_all w c (frame encode b) in
        ((done ≡ true) × Carries c' (bs ++ b ∷ [])) ⊎ ((done ≡ false) × Carries c' bs)
  write_all-Carries w c b bs (p, e, inr (broken, rest)) =
      rw broken (inr (refl, (p, e, inr (refl, rest))))
  write_all-Carries whole c b bs (p, e, inl (sound, clean)) = rw sound (
      inl (
        refl,
        (
          [],
          rw (e, clean, frames-append) (rw (append-nil, append-nil, append-nil) refl),
          inl (refl, refl),
        ),
      ))
  write_all-Carries (part n) c b bs (p, e, inl (sound, clean)) =
      let buf = frame encode b in
      let m = min n (length buf - 1) in
      rw sound (
        inr (
          refl,
          (take m buf, rw (e, clean, append-nil) refl, inr (refl, inr (b, m, omega arith, refl))),
        ))
