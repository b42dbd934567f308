-- ===== src/Server/Timeline/Safe.antt =====
-- What the texts of a query can put into the SQL.
use perf_weave.Base.{
  ℕ, ◌≡◌, refl, ◌⊎◌, inl, inr, Bool, true, Bool-cases, Option, none, some, List, [], ◌∷◌, map,
  filter, All, All-append,
}
use perf_weave.Base.Text.{Text, codes, trim, to_ascii_uppercase}
use perf_weave.Base.Text.Decimal.{IsDigit, to_string, All-to_string}
use perf_weave.Base.Text.Parts.{split, join, concat}
use perf_weave.Server.Timeline.Filters.{
  max_u32, max_u64, parse_pieces, sanitize, sanitize_u32_list, sanitize_u64_list, gpu_filter_sql,
  metric_filter, category_names, is_one_of, allowed_names, quoted, in_clause, category_filter_sql,
}
use perf_weave.Server.Timeline.Sql.{TimelineQuery}

-- A digit or a comma.
abbrev pub IdChar : ℕ → Type 0
IdChar c = IsDigit c ⊎ (c ≡ b',')

abbrev pub Listed : Text → Type 0
Listed s = is_one_of s category_names ≡ true

-- The conditions that are safe to put behind `WHERE`: nothing, one of two fixed columns among a list of
-- plain numbers, or a fixed column among a list of quoted category names.
pub data Harmless : Text → Type 0 where
  absent : Harmless []
  gpus :
      (ids : Text)
      → All IdChar ids
      → Harmless (concat (codes " AND gpu_id IN (" ∷ ids ∷ codes ")" ∷ []))
  metrics :
      (ids : Text)
      → All IdChar ids
      → Harmless (concat (codes " AND metric_id IN (" ∷ ids ∷ codes ")" ∷ []))
  categories :
      (names : Text) (ns : List Text)
      → All Listed ns
      → names ≡ join b',' (map quoted ns)
      → Harmless (concat (codes " AND category IN (" ∷ names ∷ codes ")" ∷ []))

All-widen : (s : Text) → All IsDigit s → All IdChar s
All-widen [] h = tt
All-widen (c ∷ s) h = (inl h.0, All-widen s h.1)

All-join : (ps : List Text) → All (λ p. All IdChar p) ps → All IdChar (join b',' ps)
unfolding join
All-join [] h = tt
All-join (p ∷ []) h = h.0
All-join (p ∷ q ∷ ps) h =
    All-append IdChar p (b',' ∷ join b',' (q ∷ ps)) h.0 (inr refl, All-join (q ∷ ps) h.1)

All-printed : (ns : List ℕ) → All (λ p. All IdChar p) (map to_string ns)
All-printed [] = tt
All-printed (n ∷ ns) = (All-widen (to_string n) (All-to_string n), All-printed ns)

All-sanitize : (g : ℕ) (s : Text) → All IdChar (sanitize g s)
unfolding sanitize
All-sanitize g s =
    All-join (map to_string (parse_pieces g (split b',' s)))
      (All-printed (parse_pieces g (split b',' s)))

All-filter {ℓ} : {A : Type ℓ} (p : A → Bool) (xs : List A) → All (λ x. p x ≡ true) (filter p xs)
All-filter p [] = tt
All-filter p (x ∷ xs) =
    let rest = All-filter p xs in
    elim (Bool-cases (p x)) [ inl e ↦ rw e (e, rest) | inr e ↦ rw e rest ]

gpu_filter_sql-Harmless : (gpus : Option Text) → Harmless (gpu_filter_sql gpus)
unfolding gpu_filter_sql sanitize_u32_list
gpu_filter_sql-Harmless none = absent
gpu_filter_sql-Harmless (some []) = absent
gpu_filter_sql-Harmless (some (c ∷ v)) = gpus _ (All-sanitize max_u32 (c ∷ v))

metric_filter-Harmless : (ids : Option Text) → Harmless (metric_filter ids)
unfolding metric_filter sanitize_u64_list
metric_filter-Harmless none = absent
metric_filter-Harmless (some []) = absent
metric_filter-Harmless (some (c ∷ v)) = metrics _ (All-sanitize max_u64 (c ∷ v))

in_clause-Harmless :
    (names : Text) (ns : List Text)
    → All Listed ns
    → names ≡ join b',' (map quoted ns)
    → Harmless (in_clause (codes "category") names)
in_clause-Harmless [] ns h e = absent
in_clause-Harmless (c ∷ names) ns h e = categories (c ∷ names) ns h e

category_filter_sql-Harmless :
    (cats : Option Text) → Harmless (category_filter_sql cats (codes "category"))
unfolding category_filter_sql allowed_names
category_filter_sql-Harmless none = absent
category_filter_sql-Harmless (some []) = absent
category_filter_sql-Harmless (some (c ∷ v)) =
    let named =
      All-filter (λ s. is_one_of s category_names)
        (map (λ s. to_ascii_uppercase (trim s)) (split b',' (c ∷ v))) in
    in_clause-Harmless _ (allowed_names (c ∷ v)) named refl

-- Whatever the client sends, each of the three conditions made of its texts is absent, or fixed text but
-- for digits and commas between `(` and `)`, or fixed text but for quoted names of the fixed list of
-- categories there. The column is fixed in each.
pub filters-Harmless :
    (q : TimelineQuery)
    → Harmless (gpu_filter_sql q.gpus)
      × Harmless (metric_filter q.metric_ids)
      × Harmless (category_filter_sql q.categories (codes "category"))
filters-Harmless q = (
  gpu_filter_sql-Harmless q.gpus,
  metric_filter-Harmless q.metric_ids,
  category_filter_sql-Harmless q.categories,
)
