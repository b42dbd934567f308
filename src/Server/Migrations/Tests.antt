-- ===== src/Server/Migrations/Tests.antt =====
-- Runs of the migrations on small scripts.
use perf_weave.Base.{ℕ, ◌≡◌, refl, Option, none, some, [], ◌∷◌, ◌++◌, ◌==◌, if◌then◌else◌}
use perf_weave.Base.Text.{Text, codes, trim, trim_start, trim_end, is_whitespace}
use perf_weave.Base.Text.Parts.{split, concat}
use perf_weave.Base.Text.Lines.{lines}
use perf_weave.Server.Migrations.{
  migration_names, is_comment, is_last_line, cut, split_statements, apply,
}
use perf_weave.Server.Migrations.Applied.{plan, Ended, apply-Ended}
use perf_weave.Server.Migrations.Statements.{kept, split_statements-kept}

abbrev script : Text
script =
    codes
      "-- tables\nCREATE TABLE a (\n  x UInt8 -- one;\n);\nSELECT 1; SELECT 2;\r\n\nDROP TABLE b\n"

-- A statement ends at a semicolon at the end of a line, so that two on one line stay together, and a
-- comment behind code that ends with a semicolon cuts in the middle.
split_statements_test :
    split_statements script
    ≡ codes "CREATE TABLE a (\n  x UInt8 -- one;\n"
      ∷ codes ");\n"
      ∷ codes "SELECT 1; SELECT 2;\n"
      ∷ codes "\nDROP TABLE b\n"
      ∷ []
unfolding split_statements lines is_comment is_last_line cut split trim trim_start trim_end
    is_whitespace
split_statements_test = refl

split_statements-kept_example :
    (rest : Text) × (concat (split_statements script) ++ rest ≡ kept (lines script))
    × (trim rest ≡ [])
split_statements-kept_example = split_statements-kept script

-- A database that refuses the fourth statement.
abbrev fourth_fails : ℕ → Text → Option Text
fourth_fails k stmt = if k == 3 then some (codes "syntax error") else none

apply-Ended_example :
    Ended fourth_fails []
      (plan (λ name. script) migration_names)
      (apply fourth_fails (λ name. script))
apply-Ended_example = apply-Ended fourth_fails (λ name. script)
