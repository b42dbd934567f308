-- ===== src/Cli/Doctor/Verdict.antt =====
-- When the doctor fails, and what it advises.
use perf_weave.Base.{
  ℕ, ◌≡◌, refl, ◌⊎◌, inl, inr, Bool, true, false, ◌||◌, Bool-cases, Option, none, some,
  Option-cases, List, All, if◌then◌else◌,
}
use perf_weave.Base.Results.{Result, err, ok}
use perf_weave.Base.Text.{Text, codes, text_beq}
use perf_weave.Base.Text.Lines.{is_some}
use perf_weave.Cli.Doctor.{
  Check, Report, Environment, check_os, check_nvml, first_existing, cupti_candidates,
  dcgm_candidates, check_cupti, check_dcgm, check_nsys, url_or_default, check_clickhouse,
  all_checks, run,
}

-- NVML is built in, and does not start or does not count its devices.
abbrev pub nvml_broken : Option (Result Text (Result Text ℕ)) → Bool
nvml_broken none = false
nvml_broken (some (err e)) = true
nvml_broken (some (ok (err e))) = true
nvml_broken (some (ok (ok n))) = false

abbrev pub failed : Check → Bool
failed c = text_beq c.status (codes "fail")

-- A check is fine, or says what to do.
abbrev pub Advises : Check → Type 0
Advises c = (c.status ≡ codes "ok") ⊎ ((fix : Text) × (c.fix ≡ some fix))

-- What is left of the exit status when only NVML and the database can fail.
failures_lem :
    (a b : Bool) → false || (a || (false || (false || (false || (b || false))))) ≡ (a || b)
failures_lem true b = refl
failures_lem false true = refl
failures_lem false false = refl

module _ (env : Environment) where
  os_lem : (failed (check_os env) ≡ false) × Advises (check_os env)
  unfolding check_os
  os_lem = elim (Bool-cases (text_beq env.os (codes "linux"))) [
    | inl e ↦ rw e (refl, inl refl)
    | inr e ↦ rw e (refl, inr (_, refl))
  ]

  init_lem :
      (o : Option (Result Text (Result Text ℕ)))
      → env.nvml ≡ o
      → (failed (check_nvml env) ≡ nvml_broken o) × Advises (check_nvml env)
  unfolding check_nvml
  init_lem none h = rw (h, check_nvml) (refl, inr (_, refl))
  init_lem (some (err e)) h = rw (h, check_nvml) (refl, inr (_, refl))
  init_lem (some (ok (err e))) h = rw (h, check_nvml) (refl, inr (_, refl))
  init_lem (some (ok (ok n))) h = rw (h, check_nvml) (refl, inl refl)

  cupti_lem : (failed (check_cupti env) ≡ false) × Advises (check_cupti env)
  unfolding check_cupti
  cupti_lem = elim (Option-cases (first_existing env cupti_candidates)) [
    | inl e ↦ rw (e, check_cupti) (refl, inr (_, refl))
    | inr (p, e) ↦ rw (e, check_cupti) (refl, inl refl)
  ]

  dcgm_lem : (failed (check_dcgm env) ≡ false) × Advises (check_dcgm env)
  unfolding check_dcgm
  dcgm_lem = elim (Option-cases (first_existing env dcgm_candidates)) [
    | inl e ↦ rw (e, check_dcgm) (refl, inr (_, refl))
    | inr (p, e) ↦ rw (e, check_dcgm) (refl, inl refl)
  ]

  nsys_lem :
      (o : Option (Bool × Text))
      → env.nsys ≡ o
      → (failed (check_nsys env) ≡ false) × Advises (check_nsys env)
  unfolding check_nsys
  nsys_lem none h = rw (h, check_nsys) (refl, inr (_, refl))
  nsys_lem (some (true, out)) h = rw (h, check_nsys) (refl, inl refl)
  nsys_lem (some (false, out)) h = rw (h, check_nsys) (refl, inr (_, refl))

  clickhouse_lem :
      (o : Option Text)
      → env.query_error (url_or_default env.ch_url) ≡ o
      → (failed (check_clickhouse env) ≡ is_some o) × Advises (check_clickhouse env)
  unfolding check_clickhouse
  clickhouse_lem none h = rw (h, check_clickhouse) (refl, inl refl)
  clickhouse_lem (some e) h = rw (h, check_clickhouse) (refl, inr (_, refl))

  -- The exit status is 1 exactly if NVML is built in and broken, or the database does not answer, in
  -- whichever form the report is printed; and every check that is not fine says what to do.
  pub run-Advises :
      (to_json : Report → List Text) (json : Bool)
      → ((run to_json env json).1 ≡ (
          if nvml_broken env.nvml || is_some (env.query_error (url_or_default env.ch_url))
          then 1
          else 0))
        × All Advises (all_checks env)
  unfolding run
  run-Advises to_json json =
      let (os, a) = os_lem in
      let (nvml, b) = init_lem env.nvml refl in
      let (cupti, c) = cupti_lem in
      let (dcgm, d) = dcgm_lem in
      let (nsys, e) = nsys_lem env.nsys refl in
      let (ch, g) = clickhouse_lem (env.query_error (url_or_default env.ch_url)) refl in
      (
        rw (os, nvml, cupti, dcgm, nsys, ch)
            (rw
              (failures_lem (nvml_broken env.nvml)
                (is_some (env.query_error (url_or_default env.ch_url))))
              refl),
        (a, (b, (c, (d, (e, (g, tt)))))),
      )
