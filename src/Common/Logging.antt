-- ===== src/Common/Logging.antt =====
-- crates/perfweave-common/src/logging.rs: which filter and which format a process logs by. Parsing a filter
-- belongs to the library, and `env` is the environment.
use Prim.Native.String.{String}
use perf_weave.Base.{ℕ, ◌+◌, Bool, not, ◌&&◌, Option, none, some, map, leb, if◌then◌else◌}
use perf_weave.Base.Text.{Text, codes, text_beq}

pub record Subscriber (Filter : Type 0) : Type 0 where
  pub filter : Filter
  pub json : Bool

abbrev pub ascii_lower : ℕ → ℕ
ascii_lower c = if leb 65 c && leb c 90 then c + 32 else c

unfoldable pub eq_ignore_ascii_case : Text → Text → Bool
eq_ignore_ascii_case s t = text_beq (map ascii_lower s) (map ascii_lower t)

module _ {Filter : Type 0} (new : Text → Filter) (parse : Text → Option Filter)
    (env : String → Option Text) where
  -- Fails on a variable that is not set or does not parse.
  abbrev pub try_from_env : String → Option Filter
  try_from_env name = elim (env name) [ none ↦ none | some v ↦ parse v ]

  unfoldable pub filter_of : Filter
  filter_of = elim (try_from_env "PERFWEAVE_LOG") [
    | some f ↦ f
    | none ↦ elim (try_from_env "RUST_LOG") [
      | some f ↦ f
      | none ↦ new (codes "info,perfweave=debug")
    ]
  ]

  -- `tty` tells whether the standard error is a terminal.
  unfoldable pub format_is_json : Bool → Bool
  unfolding eq_ignore_ascii_case
  format_is_json tty = elim (env "PERFWEAVE_LOG_FORMAT") [
    | some v ↦ eq_ignore_ascii_case v (codes "json")
    | none ↦ not tty
  ]

  abbrev pub init : Bool → Subscriber Filter
  init tty = record { filter = filter_of; json = format_is_json tty }
