-- ===== src/Agent/Uploader/Session/Lanes.antt =====
-- One lane of the ring with what has left it: nothing is lost but what a counter holds.
use perf_weave.Base.{
  ℕ, ◌+◌, ◌≡◌, sym, ◌∙◌, ap, List, [], ◌∷◌, ◌++◌, map, arith, length, length-append, length-map,
  Subseq, Subseq-append, Subseq-append_right, Subseq-refl, if◌then◌else◌,
}
use native.Mathlib.Decide.{dec_lt}
use mathlib.Core.List.{append_assoc, map-append}
use perf_weave.Agent.Channel.{Channel}

-- Of the items put in, `all`, those that have left and those that wait are some, in order and by their
-- keys, and `lost` is the number of the others.
pub record Lane {A B : Type 0} (ch : Channel A) (key : A → B) (c : ch.Chan) (seen all : List A)
    (lost : ℕ) : Type 0 where
  pub order : Subseq (map key (seen ++ ch.queue c)) (map key all)
  pub count : length seen + length (ch.queue c) + lost ≡ length all

module _ {A B : Type 0} (ch : Channel A) (key : A → B) where
  pub send-Lane :
      {c : ch.Chan} {seen all : List A} {lost : ℕ} (a : A)
      → Lane ch key c seen all lost
      → Lane ch key
          (ch.try_send c a).0
          seen
          (all ++ a ∷ [])
          (if (ch.try_send c a).1 then lost else lost + 1)
  send-Lane {c} {seen} {all} {lost} a l = elim (dec_lt (length (ch.queue c)) (ch.capacity c)) [
    | yes room ↦
        let (ok, q, n) = ch.send_room c a room in
        rw ok (record {
          order =
              rw
                (
                  q,
                  ← append_assoc,
                  map-append key (seen ++ ch.queue c) (a ∷ []),
                  map-append key all (a ∷ []),
                )
                (Subseq-append l.order (Subseq-refl (map key (a ∷ []))));
          count = omega (
            arith,
            ap length q,
            length-append (ch.queue c) (a ∷ []),
            length-append all (a ∷ []),
            l.count,
          );
        })
    | no packed ↦
        let (refused, q, n) = ch.send_full c a (omega arith) in
        rw refused (record {
          order =
              rw (q, map-append key all (a ∷ [])) (Subseq-append_right (map key (a ∷ [])) l.order);
          count = omega (arith, ap length q, length-append all (a ∷ []), l.count);
        })
  ]

  -- What leaves may have changed, but for its key.
  pub take-Lane :
      {c : ch.Chan} {seen all : List A} {lost : ℕ} (c' : ch.Chan) (out out' : List A)
      → Lane ch key c seen all lost
      → out ++ ch.queue c' ≡ ch.queue c
      → map key out' ≡ map key out
      → Lane ch key c' (seen ++ out') all lost
  take-Lane {c} {seen} {all} {lost} c' out out' l same keys =
      let q' = ch.queue c' in
      let waiting : map key (out' ++ q') ≡ map key (ch.queue c) =
        map-append key out' q'
        ∙ ap (λ t. t ++ map key q') keys
        ∙ sym (map-append key out q')
        ∙ ap (map key) same in
      let e : map key ((seen ++ out') ++ q') ≡ map key (seen ++ ch.queue c) =
        ap (map key) (append_assoc seen out' q')
        ∙ map-append key seen (out' ++ q')
        ∙ ap (λ t. map key seen ++ t) waiting
        ∙ sym (map-append key seen (ch.queue c)) in
      record {
        order = rw e l.order;
        count = omega (
          arith,
          ap length same,
          length-append out q',
          length-append seen out',
          ap length keys,
          length-map key out,
          length-map key out',
          l.count,
        );
      }
