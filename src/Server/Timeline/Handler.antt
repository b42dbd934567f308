-- ===== src/Server/Timeline/Handler.antt =====
-- `handler`: which query runs, and what the client gets. The database, the header parser of the HTTP
-- library and the display of errors are parameters.
use perf_weave.Base.{ℕ, ◌-◌, Option, none, some, List, ◌==◌, if◌then◌else◌}
use perf_weave.Base.Results.{Result, err, ok, ◌>>=◌}
use perf_weave.Base.Text.{Text, codes, text_beq}
use perf_weave.Base.Words.{saturating_sub}
use perf_weave.Server.Lod.{choose_tile, should_serve_raw}
use perf_weave.Server.Timeline.Arrow.{Arrow}
use perf_weave.Server.Timeline.Columns.{
  ActivityTileRow, MetricTileRow, RawEventDbRow, no_activity_rows, no_metric_rows, no_raw_rows,
  fill_activity, fill_metric, fill_raw, activity_to_arrow, metric_to_arrow, raw_to_arrow,
}
use perf_weave.Server.Timeline.Sql.{TimelineQuery, activity_sql, metric_sql, raw_sql}

-- `query(..).fetch_all()` for the three types of rows.
pub record Database (Error : Type 0) : Type 0 where
  pub fetch_activity : Text → Result Error (List ActivityTileRow)
  pub fetch_metric : Text → Result Error (List MetricTileRow)
  pub fetch_raw : Text → Result Error (List RawEventDbRow)

-- `HeaderValue::from_str` of the HTTP library, and `{:#}` of an error.
pub record Http (Error : Type 0) : Type 1 where
  pub HeaderValue : Type 0
  pub from_str : Text → Option HeaderValue
  pub show : Error → Text

-- The end of a request; `panic` is an `unwrap` of nothing.
pub data Outcome (Header Bytes : Type 0) : Type 0 where
  respond : Header → Header → Bytes → Outcome Header Bytes
  fail : ℕ → Text → Outcome Header Bytes
  panic : Outcome Header Bytes

abbrev pub width_or_default : Option ℕ → ℕ
width_or_default none = 4_096_000
width_or_default (some w) = w

module _ {Error Bytes : Type 0} (arrow : Arrow Error Bytes) (db : Database Error) where
  unfoldable pub serve_activity : TimelineQuery → Result Error Bytes
  serve_activity q =
      let width = width_or_default (choose_tile (q.end_ns - q.start_ns) q.pixels) in
      db.fetch_activity (activity_sql width q)
      >>= (λ rows. activity_to_arrow arrow (fill_activity no_activity_rows rows))

  unfoldable pub serve_metric : TimelineQuery → Result Error Bytes
  serve_metric q =
      let width = width_or_default (choose_tile (q.end_ns - q.start_ns) q.pixels) in
      db.fetch_metric (metric_sql width q)
      >>= (λ rows. metric_to_arrow arrow (fill_metric no_metric_rows rows))

  unfoldable pub serve_raw : TimelineQuery → Result Error Bytes
  serve_raw q =
      db.fetch_raw (raw_sql q) >>= (λ rows. raw_to_arrow arrow (fill_raw no_raw_rows rows))

  -- The `match` on the kind.
  unfoldable pub serve : Text → TimelineQuery → Result Error Bytes
  unfolding serve_activity serve_metric serve_raw
  serve kind q =
      if text_beq kind (codes "raw")
      then serve_raw q
      else if text_beq kind (codes "metric")
      then serve_metric q
      else serve_activity q

-- The kind of the query, or the choice by the range.
unfoldable pub kind_of : TimelineQuery → Text
kind_of q = elim q.kind [
  | none ↦
      if should_serve_raw (saturating_sub q.end_ns q.start_ns) q.pixels
      then codes "raw"
      else codes "activity"
  | some kind ↦ kind
]

module _ {Error Bytes : Type 0} (arrow : Arrow Error Bytes) (db : Database Error)
    (http : Http Error) where
  -- The headers and the body; both `parse` are unwrapped.
  unfoldable pub reply : Text → Bytes → Outcome http.HeaderValue Bytes
  reply kind bytes = elim (http.from_str (codes "application/vnd.apache.arrow.stream")) [
    | none ↦ panic
    | some content_type ↦ elim (http.from_str kind) [
      | none ↦ panic
      | some k ↦ respond content_type k bytes
    ]
  ]

  -- `ise`.
  unfoldable pub ise : Error → Outcome http.HeaderValue Bytes
  ise e = fail 500 (http.show e)

  unfoldable pub handler : TimelineQuery → Outcome http.HeaderValue Bytes
  unfolding serve reply ise kind_of
  handler q =
      if saturating_sub q.end_ns q.start_ns == 0
      then fail 400 (codes "end_ns must be > start_ns")
      else elim (serve arrow db (kind_of q) q) [
        | err e ↦ ise e
        | ok bytes ↦ reply (kind_of q) bytes
      ]
