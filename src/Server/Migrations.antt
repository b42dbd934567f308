-- ===== src/Server/Migrations.antt =====
-- crates/perfweave-server/src/store/migrations.rs: how the scripts of the migrations are cut into
-- statements, and run.
pub mod Statements
pub mod Applied
mod Tests
use Prim.Native.String.{String}
use perf_weave.Base.{
  ℕ, ◌+◌, Bool, true, false, ◌||◌, Option, none, some, List, [], ◌∷◌, ◌++◌, ◌==◌, take, length,
  is_empty, if◌then◌else◌,
}
use perf_weave.Base.Results.{Result, err, ok}
use perf_weave.Base.Text.{Text, codes, trim, trim_start, trim_end}
use perf_weave.Base.Text.Lines.{lines}
use perf_weave.Base.Text.Parts.{concat}

-- The names of `MIGRATIONS`.
abbrev pub migration_names : List String
migration_names =
    "0001_events" ∷ "0002_strings" ∷ "0003_tiles" ∷ "0004_spikes" ∷ "0005_nsys_imports"
    ∷ "0006_shed_metric_tiles" ∷ "0007_markers" ∷ "0008_kernel_sol" ∷ []

-- `starts_with("--")`.
abbrev pub starts_with_dashes : Text → Bool
starts_with_dashes [] = false
starts_with_dashes (c ∷ []) = false
starts_with_dashes (c ∷ d ∷ s) = if c == b'-' then d == b'-' else false

-- `ends_with(';')`.
abbrev pub ends_with_semicolon : Text → Bool
ends_with_semicolon [] = false
ends_with_semicolon (c ∷ []) = c == b';'
ends_with_semicolon (c ∷ d ∷ s) = ends_with_semicolon (d ∷ s)

unfoldable pub is_comment : Text → Bool
is_comment line = starts_with_dashes (trim_start line)

unfoldable pub is_last_line : Text → Bool
is_last_line line = ends_with_semicolon (trim_end line)

-- The loop over the lines: the statements so far, and the buffer.
unfoldable pub cut : List Text → List Text → Text → List Text × Text
unfolding is_comment is_last_line
cut [] out buf = (out, buf)
cut (line ∷ rest) out buf =
    let longer = buf ++ line ++ 10 ∷ [] in
    if is_comment line
    then cut rest out buf
    else if is_last_line line
    then cut rest (out ++ longer ∷ []) []
    else cut rest out longer

-- What is left in the buffer is a statement if it is not blank.
abbrev pub finish : List Text × Text → List Text
finish r = if is_empty (trim r.1) then r.0 else r.0 ++ r.1 ∷ []

unfoldable pub split_statements : Text → List Text
unfolding cut
split_statements sql = finish (cut (lines sql) [] [])

unfoldable pub preview : Text → Text
preview s = take 80 s

-- The statement is passed over.
unfoldable pub is_skipped : Text → Bool
is_skipped stmt = is_empty (trim stmt) || starts_with_dashes (trim stmt)

abbrev pub context : String → Text → Text → Text
context name trimmed e = concat (
    codes "migration "
    ∷ codes name
    ∷ codes " failed at statement starting: "
    ∷ preview trimmed
    ∷ codes ": "
    ∷ e
    ∷ [])

-- What has been sent to the database, and the error that ended it.
pub record Run : Type 0 where
  pub sent : List Text
  pub failure : Option Text

-- `execute k stmt` is the database's answer to the statement number `k`: `none`, or an error's text.
module _ (execute : ℕ → Text → Option Text) where
  -- The loop over the statements of one migration.
  unfoldable pub run_statements : String → ℕ → List Text → List Text → Run
  unfolding is_skipped preview
  run_statements name k sent [] = record { sent = sent; failure = none }
  run_statements name k sent (stmt ∷ stmts) =
      let trimmed = trim stmt in
      let rest = run_statements name (k + 1) (sent ++ trimmed ∷ []) stmts in
      if is_skipped stmt then run_statements name k sent stmts else elim (execute k trimmed) [
        | none ↦ rest
        | some e ↦ record { sent = sent ++ trimmed ∷ []; failure = some (context name trimmed e) }
      ]

  -- The loop over the migrations; `include_str` gives the text of a migration's file.
  unfoldable pub apply_from : (String → Text) → List String → List Text → Run
  unfolding run_statements
  apply_from include_str [] sent = record { sent = sent; failure = none }
  apply_from include_str (name ∷ names) sent =
      let r = run_statements name (length sent) sent (split_statements (include_str name)) in
      elim r.failure [ none ↦ apply_from include_str names r.sent | some e ↦ r ]

  unfoldable pub apply : (String → Text) → Run
  unfolding apply_from
  apply include_str = apply_from include_str migration_names []
