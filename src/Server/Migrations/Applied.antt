-- ===== src/Server/Migrations/Applied.antt =====
-- Which statements a run of the migrations has sent.
use Prim.Native.String.{String}
use mathlib.Core.List.{append_assoc, append-nil}
use perf_weave.Base.{
  ℕ, ◌+◌, ◌≡◌, refl, sym, ap, subst, ◌∙◌, inl, inr, Bool-cases, Option, none, some, Option-cases,
  List, [], ◌∷◌, ◌++◌, length, length-append, arith, if◌then◌else◌,
}
use perf_weave.Base.Text.{Text, trim}
use perf_weave.Server.Migrations.{
  migration_names, split_statements, is_skipped, Run, run_statements, apply_from, apply,
}

-- The statements that are not passed over, trimmed.
abbrev pub wanted : List Text → List Text
wanted [] = []
wanted (stmt ∷ stmts) =
    let rest = wanted stmts in if is_skipped stmt then rest else trim stmt ∷ rest

-- The statements of a list of migrations.
abbrev pub plan : (String → Text) → List String → List Text
plan include_str [] = []
plan include_str (name ∷ names) =
    wanted (split_statements (include_str name)) ++ plan include_str names

module _ (execute : ℕ → Text → Option Text) where
  -- After the statements `sent`, a run over `todo` has either sent all of it without an error, or ended
  -- at the first statement that the database refuses, having sent it and all before it.
  pub data Ended (sent todo : List Text) (r : Run) : Type 0 where
    complete : r.failure ≡ none → r.sent ≡ sent ++ todo → Ended sent todo r
    stopped :
        (before after : List Text) (stmt e t : Text)
        → todo ≡ before ++ stmt ∷ after
        → r.sent ≡ sent ++ (before ++ stmt ∷ [])
        → execute (length sent + length before) stmt ≡ some e
        → r.failure ≡ some t
        → Ended sent todo r

  -- One statement more in front.
  Ended-cons :
      (sent : List Text) (s : Text) (todo : List Text) (r : Run)
      → Ended (sent ++ s ∷ []) todo r
      → Ended sent (s ∷ todo) r
  Ended-cons sent s todo r (complete f e) = complete f (e ∙ append_assoc sent (s ∷ []) todo)
  Ended-cons sent s todo r (stopped before after stmt e t split at refused f) =
      let moved : length (sent ++ s ∷ []) + length before ≡ length sent + length (s ∷ before) =
        omega (arith, length-append sent (s ∷ [])) in
      stopped (s ∷ before) after stmt e t (ap (◌∷◌ s) split)
        (at ∙ append_assoc sent (s ∷ []) (before ++ stmt ∷ []))
        (subst (λ n. execute n stmt ≡ some e) moved refused) f

  run_statements-Ended :
      (name : String) (sent stmts : List Text)
      → Ended sent (wanted stmts) (run_statements execute name (length sent) sent stmts)
  unfolding run_statements
  run_statements-Ended name sent [] = complete refl (sym (append-nil sent))
  run_statements-Ended name sent (stmt ∷ stmts) = elim (Bool-cases (is_skipped stmt)) [
    | inl s ↦ rw s (run_statements-Ended name sent stmts)
    | inr s ↦
        let longer : length (sent ++ trim stmt ∷ []) ≡ length sent + 1 =
          omega (arith, length-append sent (trim stmt ∷ [])) in
        let more : List Text = sent ++ trim stmt ∷ [] in
        let rest =
          subst (λ n. Ended more (wanted stmts) (run_statements execute name n more stmts)) longer
            (run_statements-Ended name more stmts) in
        elim (Option-cases (execute (length sent) (trim stmt))) [
          | inl e ↦ rw (s, e) (Ended-cons sent (trim stmt) (wanted stmts) _ rest)
          | inr (e, h) ↦
              let here : execute (length sent + 0) (trim stmt) ≡ some e =
                subst (λ n. execute n (trim stmt) ≡ some e) (omega arith) h in
              rw (s, h) (stopped [] (wanted stmts) (trim stmt) e _ refl refl here refl)
        ]
  ]

  -- Two lists, one after the other.
  Ended-append :
      (sent todo more : List Text) (r : Run) (t : Text)
      → Ended sent todo r
      → r.failure ≡ some t
      → Ended sent (todo ++ more) r
  Ended-append sent todo more r t (complete f e) failed = cc
  Ended-append sent todo more r t (stopped before after stmt e t' split at refused f) failed =
      stopped before (after ++ more) stmt e t'
        (ap (λ l. l ++ more) split ∙ append_assoc before (stmt ∷ after) more) at refused f

  Ended-shift :
      (sent todo more : List Text) (r : Run)
      → Ended (sent ++ todo) more r
      → Ended sent (todo ++ more) r
  Ended-shift sent [] more r h = subst (λ l. Ended l more r) (append-nil sent) h
  Ended-shift sent (s ∷ todo) more r h =
      let moved = subst (λ l. Ended l more r) (sym (append_assoc sent (s ∷ []) todo)) h in
      Ended-cons sent s (todo ++ more) r (Ended-shift (sent ++ s ∷ []) todo more r moved)

  Ended-next :
      (sent todo more : List Text) (r r' : Run)
      → Ended sent todo r
      → r.failure ≡ none
      → Ended r.sent more r'
      → Ended sent (todo ++ more) r'
  Ended-next sent todo more r r' (complete f e) ok rest =
      Ended-shift sent todo more r' (subst (λ l. Ended l more r') e rest)
  Ended-next sent todo more r r' (stopped before after stmt e t split at refused f) ok rest = cc

  apply_from-Ended :
      (include_str : String → Text) (names : List String) (sent : List Text)
      → Ended sent (plan include_str names) (apply_from execute include_str names sent)
  unfolding apply_from
  apply_from-Ended include_str [] sent = complete refl (sym (append-nil sent))
  apply_from-Ended include_str (name ∷ names) sent =
      let stmts = split_statements (include_str name) in
      let r : Run = run_statements execute name (length sent) sent stmts in
      let first = run_statements-Ended name sent stmts in
      elim (Option-cases r.failure) [
        | inl ok ↦
            rw (ok, apply_from)
              (Ended-next sent (wanted stmts) (plan include_str names) r _ first ok
                (apply_from-Ended include_str names r.sent))
        | inr (t, failed) ↦
            rw (failed, apply_from)
              (Ended-append sent (wanted stmts) (plan include_str names) r t first failed)
      ]

  -- The database is sent the trimmed statements of all the migrations, but for those that are blank or
  -- begin as a comment, in the order of the table and of the scripts: all of them, and then there is no
  -- error, or those up to and with the first one that it refuses, and then there is an error.
  pub apply-Ended :
      (include_str : String → Text)
      → Ended [] (plan include_str migration_names) (apply execute include_str)
  unfolding apply
  apply-Ended include_str = apply_from-Ended include_str migration_names []
