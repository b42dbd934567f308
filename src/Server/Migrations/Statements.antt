-- ===== src/Server/Migrations/Statements.antt =====
-- What `split_statements` keeps of a script.
use mathlib.Core.List.{append_assoc, append-nil}
use perf_weave.Base.{
  ◌≡◌, refl, sym, ap, ◌∙◌, inl, inr, true, not, Bool-cases, List, [], ◌∷◌, ◌++◌, map, filter,
  is_empty,
}
use perf_weave.Base.Text.{Text, trim, trim_start, trim_end}
use perf_weave.Base.Text.Parts.{concat}
use perf_weave.Base.Text.Lines.{lines}
use perf_weave.Server.Migrations.{is_comment, is_last_line, cut, split_statements}

-- The lines of a script that are no comments, each behind which a line feed stands.
abbrev pub kept : List Text → Text
kept ls = concat (map (λ l. l ++ 10 ∷ []) (filter (λ l. not (is_comment l)) ls))

concat-snoc : (ps : List Text) (p : Text) → concat (ps ++ p ∷ []) ≡ concat ps ++ p
concat-snoc [] p = append-nil p
concat-snoc (q ∷ ps) p = ap (◌++◌ q) (concat-snoc ps p) ∙ sym (append_assoc q (concat ps) p)

regroup : (buf l k : Text) → (buf ++ l ++ 10 ∷ []) ++ k ≡ buf ++ ((l ++ 10 ∷ []) ++ k)
regroup buf l k = simp append_assoc

-- The statements and the buffer spell the lines read.
cut-kept :
    (ls : List Text) (out : List Text) (buf : Text)
    → let r = cut ls out buf in concat r.0 ++ r.1 ≡ concat out ++ (buf ++ kept ls)
unfolding cut
cut-kept [] out buf = ap (◌++◌ (concat out)) (sym (append-nil buf))
cut-kept (l ∷ ls) out buf =
    let longer = buf ++ l ++ 10 ∷ [] in
    let deeper = regroup buf l (kept ls) in
    elim (Bool-cases (is_comment l)) [
      | inl c ↦ rw c (cut-kept ls out buf)
      | inr c ↦ elim (Bool-cases (is_last_line l)) [
        | inl e ↦
            rw (c, e)
              (cut-kept ls (out ++ longer ∷ []) []
                ∙ ap (λ t. t ++ kept ls) (concat-snoc out longer)
                ∙ append_assoc (concat out) longer (kept ls)
                ∙ ap (◌++◌ (concat out)) deeper)
        | inr e ↦ rw (c, e) (cut-kept ls out longer ∙ ap (◌++◌ (concat out)) deeper)
      ]
    ]

is_empty-eq : (s : Text) → is_empty s ≡ true → s ≡ []
is_empty-eq [] h = refl
is_empty-eq (c ∷ s) h = cc

-- The statements, one after another, are the script without its comment lines, but for a rest at its end
-- that is blank: nothing of it is lost, doubled or reordered.
pub split_statements-kept :
    (sql : Text)
    → (rest : Text) × (concat (split_statements sql) ++ rest ≡ kept (lines sql)) × (trim rest ≡ [])
unfolding split_statements trim trim_start trim_end
split_statements-kept sql =
    let r = cut (lines sql) [] [] in
    let spelled = cut-kept (lines sql) [] [] in
    elim (Bool-cases (is_empty (trim r.1))) [
      | inl e ↦ rw e (r.1, spelled, is_empty-eq (trim r.1) e)
      | inr e ↦ rw e ([], append-nil _ ∙ concat-snoc r.0 r.1 ∙ spelled, refl)
    ]
