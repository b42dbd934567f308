-- ===== src/Cli/Doctor.antt =====
-- crates/perfweave-cli/src/doctor.rs: the checks of the environment, their print and the exit status.
pub mod Verdict
use perf_weave.Base.{
  ℕ, ◌-◌, Bool, true, false, ◌||◌, not, Option, none, some, List, [], ◌∷◌, ◌++◌, length, replicate,
  if◌then◌else◌,
}
use perf_weave.Base.Results.{Result, err, ok}
use perf_weave.Base.Text.{Text, codes, text_beq, trim}
use perf_weave.Base.Text.Decimal.{to_string}
use perf_weave.Base.Text.Parts.{concat}

pub record Check : Type 0 where
  pub name : Text
  pub status : Text
  pub detail : Text
  pub fix : Option Text

pub record Report : Type 0 where
  pub checks : List Check
  pub summary : Text

-- What the checks find: the platform, NVML if it is built in, the files, the answer of `nsys` (its
-- success and its output) if it starts, the variable PERFWEAVE_CH_URL, and the error of a query.
pub record Environment : Type 0 where
  pub os : Text
  pub arch : Text
  pub nvml : Option (Result Text (Result Text ℕ))
  pub exists : Text → Bool
  pub nsys : Option (Bool × Text)
  pub ch_url : Option Text
  pub query_error : Text → Option Text

abbrev pub check : Text → Text → Text → Option Text → Check
check name status detail fix = record { name = name; status = status; detail = detail; fix = fix }

abbrev pub nvml_count : Result Text ℕ → Check
nvml_count (ok c) =
    check (codes "nvml") (codes "ok") (concat (to_string c ∷ codes " device(s) detected" ∷ [])) none
nvml_count (err e) =
    check (codes "nvml") (codes "fail") (concat (codes "device_count: " ∷ e ∷ []))
      (some (codes "update the NVIDIA driver; `nvidia-smi` should work"))

abbrev pub nvml_init : Result Text (Result Text ℕ) → Check
nvml_init (ok count) = nvml_count count
nvml_init (err e) =
    check (codes "nvml") (codes "fail") (concat (codes "init failed: " ∷ e ∷ []))
      (some (codes "install the NVIDIA driver; libnvidia-ml.so.1 must be on the loader path"))

abbrev pub cupti_candidates : List Text
cupti_candidates =
    codes "/usr/local/cuda/extras/CUPTI/lib64/libcupti.so"
    ∷ codes "/usr/local/cuda/lib64/libcupti.so"
    ∷ codes "/opt/cuda/extras/CUPTI/lib64/libcupti.so"
    ∷ []

abbrev pub dcgm_candidates : List Text
dcgm_candidates =
    codes "/usr/lib/x86_64-linux-gnu/libdcgm.so.3"
    ∷ codes "/usr/lib64/libdcgm.so.3"
    ∷ codes "/usr/local/lib/libdcgm.so.3"
    ∷ []

abbrev pub no_nsys : Check
no_nsys =
    check (codes "nsys") (codes "warn") (codes "`nsys` not on PATH (offline import disabled)")
      (some (codes "install Nsight Systems 2024.x or newer; add nsys to PATH"))

abbrev pub url_or_default : Option Text → Text
url_or_default none = codes "http://127.0.0.1:8123"
url_or_default (some url) = url

module _ (env : Environment) where
  unfoldable pub check_os : Check
  check_os =
      if text_beq env.os (codes "linux")
      then check (codes "os") (codes "ok") (concat (codes "linux " ∷ env.arch ∷ [])) none
      else check (codes "os") (codes "warn")
          (concat (env.os ∷ codes ": CUPTI/DCGM unavailable; only synthetic mode will work" ∷ []))
          (some (codes "run on a Linux + CUDA 12+ host for real GPU telemetry"))

  unfoldable pub check_nvml : Check
  check_nvml = elim env.nvml [
    | some init ↦ nvml_init init
    | none ↦
        check (codes "nvml") (codes "warn") (codes "binary built without NVML feature")
          (some (codes "rebuild with `cargo build --release --features nvml,cupti`"))
  ]

  -- The loop over the places of a library.
  unfoldable pub first_existing : List Text → Option Text
  first_existing [] = none
  first_existing (p ∷ ps) = if env.exists p then some p else first_existing ps

  unfoldable pub check_cupti : Check
  unfolding first_existing
  check_cupti = elim (first_existing cupti_candidates) [
    | some p ↦ check (codes "cupti") (codes "ok") (concat (codes "found " ∷ p ∷ [])) none
    | none ↦
        check (codes "cupti") (codes "warn") (codes "libcupti.so not found in standard locations")
          (some (codes "install CUDA Toolkit 12.x; CUPTI ships under $CUDA/extras/CUPTI"))
  ]

  unfoldable pub check_dcgm : Check
  unfolding first_existing
  check_dcgm = elim (first_existing dcgm_candidates) [
    | some p ↦ check (codes "dcgm") (codes "ok") (concat (codes "found " ∷ p ∷ [])) none
    | none ↦
        check (codes "dcgm") (codes "warn")
          (codes "libdcgm.so.3 not found (optional; profiling metrics will be absent)")
          (some (codes "install datacenter-gpu-manager (`apt install datacenter-gpu-manager`)"))
  ]

  unfoldable pub check_nsys : Check
  check_nsys = elim env.nsys [
    | none ↦ no_nsys
    | some o ↦ if o.0 then check (codes "nsys") (codes "ok") (trim o.1) none else no_nsys
  ]

  unfoldable pub check_clickhouse : Check
  check_clickhouse =
      let url = url_or_default env.ch_url in
      elim (env.query_error url) [
        | none ↦ check (codes "clickhouse") (codes "ok") url none
        | some e ↦ check (codes "clickhouse") (codes "fail") (concat (url ∷ codes ": " ∷ e ∷ [])) (
            some (
              concat (
                codes "start ClickHouse: docker run -d -p 8123:8123 -p 9000:9000 "
                ∷ codes "clickhouse/clickhouse-server:24.8"
                ∷ [])))
      ]

  abbrev pub all_checks : List Check
  all_checks = check_os ∷ check_nvml ∷ check_cupti ∷ check_dcgm ∷ check_nsys ∷ check_clickhouse ∷ []

abbrev pub any_failed : List Check → Bool
any_failed [] = false
any_failed (c ∷ cs) = text_beq c.status (codes "fail") || any_failed cs

abbrev pub report_of : List Check → Report
report_of checks = record {
  checks = checks;
  summary =
      if any_failed checks then codes "some checks failed; see fixes above" else codes "ready";
}

abbrev pub tag_of : Text → Text
tag_of status =
    if text_beq status (codes "ok")
    then codes "OK "
    else if text_beq status (codes "warn")
    then codes "WARN"
    else codes "FAIL"

-- `{:<14}`.
abbrev pub padded : Text → Text
padded s = s ++ replicate (14 - length s) 32

abbrev pub fix_line : Check → Option Text → List Text
fix_line c none = []
fix_line c (some fix) =
    if not (text_beq c.status (codes "ok"))
    then concat (codes "       fix: " ∷ fix ∷ []) ∷ []
    else []

-- The lines for one check.
unfoldable pub print_check : Check → List Text
print_check c =
    concat (codes "[" ∷ tag_of c.status ∷ codes "] " ∷ padded c.name ∷ codes " " ∷ c.detail ∷ [])
    ∷ fix_line c c.fix

unfoldable pub print_checks : List Check → List Text
unfolding print_check
print_checks [] = []
print_checks (c ∷ cs) = print_check c ++ print_checks cs

-- `run`: the lines printed, and the exit status. `to_json` is the library's pretty print.
unfoldable pub run : (Report → List Text) → Environment → Bool → List Text × ℕ
unfolding check_os check_nvml check_cupti check_dcgm check_nsys check_clickhouse print_checks
run to_json env json =
    let report = report_of (all_checks env) in
    (
      if json
          then to_json report
          else print_checks report.checks
            ++ ([] ∷ concat (codes "summary: " ∷ report.summary ∷ []) ∷ []),
      if any_failed report.checks then 1 else 0,
    )
