-- ===== src/Server/Timeline/Numbers.antt =====
-- The lists of ids that the endpoint puts into its SQL name the ids of the query and no others.
use perf_weave.Base.{
  ℕ, ◌+◌, ◌*◌, ◌-◌, ◌^◌, ◌≤◌, ◌<◌, ◌≡◌, refl, ap, ◌∙◌, inl, inr, none, some, List, [], ◌∷◌, map,
  All, Option-cases, arith,
}
use perf_weave.Base.Text.{Text, trim}
use perf_weave.Base.Text.Decimal.{IsDigit, scan, parse, to_string, All-to_string, parse-to_string}
use perf_weave.Base.Text.Parts.{split, join, Lacks, split-join}
use perf_weave.Base.Text.Trim.{trim-digits}
use perf_weave.Server.Timeline.Filters.{parse_pieces, sanitize}

scan-le : (g : ℕ) (s : Text) (n m : ℕ) → n ≤ g → scan g s n ≡ some m → m ≤ g
unfolding scan
scan-le g [] n m h e = ground arith
scan-le g (c ∷ s) n m h e = ground (arith, scan-le g s (n * 10 + (c - 48)) m)

parse-le : (g : ℕ) (s : Text) (m : ℕ) → parse g s ≡ some m → m ≤ g
unfolding parse
parse-le g [] m e = cc
parse-le g (c ∷ []) m e = scan-le g (c ∷ []) 0 m (omega arith) e
parse-le g (c ∷ d ∷ s) m e = ground (arith, scan-le g (d ∷ s) 0 m, scan-le g (c ∷ d ∷ s) 0 m)

parse_pieces-none :
    (g : ℕ) (p : Text) (ps : List Text)
    → parse g (trim p) ≡ none
    → parse_pieces g (p ∷ ps) ≡ parse_pieces g ps
unfolding parse_pieces
parse_pieces-none g p ps e = rw (e, parse_pieces) refl

parse_pieces-some :
    (g : ℕ) (p : Text) (ps : List Text) (n : ℕ)
    → parse g (trim p) ≡ some n
    → parse_pieces g (p ∷ ps) ≡ n ∷ parse_pieces g ps
unfolding parse_pieces
parse_pieces-some g p ps n e = rw (e, parse_pieces) refl

pub All-parse_pieces : (g : ℕ) (ps : List Text) → All (λ n. n ≤ g) (parse_pieces g ps)
unfolding parse_pieces
All-parse_pieces g [] = tt
All-parse_pieces g (p ∷ ps) =
    let rest = All-parse_pieces g ps in
    elim (Option-cases (parse g (trim p))) [
      | inl e ↦ rw (parse_pieces-none g p ps e) rest
      | inr (n, e) ↦ rw (parse_pieces-some g p ps n e) (parse-le g (trim p) n e, rest)
    ]

digits-Lacks : (s : Text) → All IsDigit s → Lacks b',' s
digits-Lacks [] h = tt
digits-Lacks (c ∷ s) h = let low = h.0.0 in ((λ e. absurd (omega arith)), digits-Lacks s h.1)

printed-Lacks : (ns : List ℕ) → All (Lacks b',') (map to_string ns)
printed-Lacks [] = tt
printed-Lacks (n ∷ ns) = (digits-Lacks (to_string n) (All-to_string n), printed-Lacks ns)

parse_pieces-printed :
    (g : ℕ) (ns : List ℕ)
    → g < 2 ^ 64
    → All (λ n. n ≤ g) ns
    → parse_pieces g (map to_string ns) ≡ ns
unfolding parse_pieces
parse_pieces-printed g [] h fits = refl
parse_pieces-printed g (n ∷ ns) h fits =
    let f = fits.0 in
    let back : parse g (trim (to_string n)) ≡ some n =
      ap (parse g) (trim-digits (to_string n) (All-to_string n))
      ∙ parse-to_string g n f (omega arith) in
    parse_pieces-some g (to_string n) (map to_string ns) n back
    ∙ ap (◌∷◌ n) (parse_pieces-printed g ns h fits.1)

parse_pieces-join :
    (g : ℕ) (ns : List ℕ)
    → g < 2 ^ 64
    → All (λ n. n ≤ g) ns
    → parse_pieces g (split b',' (join b',' (map to_string ns))) ≡ ns
unfolding parse_pieces split join trim parse
parse_pieces-join g [] h fits = refl
parse_pieces-join g (n ∷ ns) h fits =
    ap (parse_pieces g) (split-join b',' (to_string n) (map to_string ns) (printed-Lacks (n ∷ ns)))
    ∙ parse_pieces-printed g (n ∷ ns) h fits

-- The list that reaches the SQL reads as the same numbers, in the same order, as the list that the
-- client sent.
pub parse_pieces-sanitize :
    (g : ℕ) (s : Text)
    → g < 2 ^ 64
    → parse_pieces g (split b',' (sanitize g s)) ≡ parse_pieces g (split b',' s)
unfolding sanitize
parse_pieces-sanitize g s h =
    parse_pieces-join g (parse_pieces g (split b',' s)) h (All-parse_pieces g (split b',' s))
