-- ===== src/Server/Timeline/Filters.antt =====
-- The conditions that the endpoint puts into its SQL from the lists of the query.
use perf_weave.Base.{ℕ, ◌-◌, ◌^◌, ◌||◌, Bool, false, Option, none, some, List, [], ◌∷◌, map, filter}
use perf_weave.Base.Text.{Text, codes, text_beq, trim, to_ascii_uppercase}
use perf_weave.Base.Text.Decimal.{parse, to_string}
use perf_weave.Base.Text.Parts.{split, join, concat}

abbrev pub max_u32 : ℕ
max_u32 = 2 ^ 32 - 1

abbrev pub max_u64 : ℕ
max_u64 = 2 ^ 64 - 1

-- `filter_map` with `ok()` of the parsed pieces, for the greatest value of the type.
unfoldable pub parse_pieces : ℕ → List Text → List ℕ
parse_pieces greatest [] = []
parse_pieces greatest (p ∷ ps) =
    let rest = parse_pieces greatest ps in
    elim (parse greatest (trim p)) [ none ↦ rest | some n ↦ n ∷ rest ]

unfoldable pub sanitize : ℕ → Text → Text
sanitize greatest s = join b',' (map to_string (parse_pieces greatest (split b',' s)))

unfoldable pub sanitize_u32_list : Text → Text
unfolding sanitize
sanitize_u32_list s = sanitize max_u32 s

unfoldable pub sanitize_u64_list : Text → Text
unfolding sanitize
sanitize_u64_list s = sanitize max_u64 s

unfoldable pub gpu_filter_sql : Option Text → Text
gpu_filter_sql none = []
gpu_filter_sql (some []) = []
gpu_filter_sql (some (c ∷ v)) =
    concat (codes " AND gpu_id IN (" ∷ sanitize_u32_list (c ∷ v) ∷ codes ")" ∷ [])

-- The filter by metric, inside `serve_metric`.
unfoldable pub metric_filter : Option Text → Text
metric_filter none = []
metric_filter (some []) = []
metric_filter (some (c ∷ v)) =
    concat (codes " AND metric_id IN (" ∷ sanitize_u64_list (c ∷ v) ∷ codes ")" ∷ [])

-- The names that `matches!` lists.
abbrev pub category_names : List Text
category_names =
    codes "METRIC"
    ∷ codes "API_CALL"
    ∷ codes "KERNEL"
    ∷ codes "MEMCPY"
    ∷ codes "MEMSET"
    ∷ codes "SYNC"
    ∷ codes "OVERHEAD"
    ∷ codes "MARKER"
    ∷ []

abbrev pub is_one_of : Text → List Text → Bool
is_one_of s [] = false
is_one_of s (t ∷ ts) = text_beq s t || is_one_of s ts

unfoldable pub allowed_names : Text → List Text
allowed_names v =
    filter (λ s. is_one_of s category_names) (map (λ s. to_ascii_uppercase (trim s)) (split b',' v))

abbrev pub quoted : Text → Text
quoted s = concat (codes "'" ∷ s ∷ codes "'" ∷ [])

abbrev pub in_clause : Text → Text → Text
in_clause col [] = []
in_clause col (c ∷ allowed) =
    concat (codes " AND " ∷ col ∷ codes " IN (" ∷ (c ∷ allowed) ∷ codes ")" ∷ [])

unfoldable pub category_filter_sql : Option Text → Text → Text
unfolding allowed_names
category_filter_sql none col = []
category_filter_sql (some []) col = []
category_filter_sql (some (c ∷ v)) col =
    in_clause col (join b',' (map quoted (allowed_names (c ∷ v))))
