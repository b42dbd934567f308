-- ===== src/Server/Timeline/Status.antt =====
-- Which answer a timeline request gets.
use perf_weave.Base.{◌≤◌, ◌<◌, ◌≡◌, inl, inr, none, some, ◌==◌, Bool-cases, Option-cases, arith}
use perf_weave.Base.Results.{err, ok, Result-cases}
use perf_weave.Base.Text.{codes}
use perf_weave.Base.Words.{saturating_sub}
use perf_weave.Server.Timeline.Arrow.{Arrow}
use perf_weave.Server.Timeline.Handler.{
  Database, Http, Outcome, respond, fail, panic, serve, kind_of, reply, ise, handler,
}
use perf_weave.Server.Timeline.Sql.{TimelineQuery}

module _ {Error Bytes : Type 0} (arrow : Arrow Error Bytes) (db : Database Error)
    (http : Http Error) where
  -- What each answer to a query tells of it.
  pub data Answered (q : TimelineQuery) : Outcome http.HeaderValue Bytes → Type 1 where
    bad_range : q.end_ns ≤ q.start_ns → Answered q (fail 400 (codes "end_ns must be > start_ns"))
    failed :
        (e : Error)
        → q.start_ns < q.end_ns
        → serve arrow db (kind_of q) q ≡ err e
        → Answered q (fail 500 (http.show e))
    served :
        (bytes : Bytes) (content_type kind : http.HeaderValue)
        → q.start_ns < q.end_ns
        → serve arrow db (kind_of q) q ≡ ok bytes
        → http.from_str (codes "application/vnd.apache.arrow.stream") ≡ some content_type
        → http.from_str (kind_of q) ≡ some kind
        → Answered q (respond content_type kind bytes)
    crashed :
        (bytes : Bytes)
        → q.start_ns < q.end_ns
        → serve arrow db (kind_of q) q ≡ ok bytes
        → http.from_str (kind_of q) ≡ none
        → Answered q panic

  reply-Answered :
      (q : TimelineQuery) (bytes : Bytes) (content_type : http.HeaderValue)
      → q.start_ns < q.end_ns
      → serve arrow db (kind_of q) q ≡ ok bytes
      → http.from_str (codes "application/vnd.apache.arrow.stream") ≡ some content_type
      → Answered q (reply arrow db http (kind_of q) bytes)
  unfolding reply
  reply-Answered q bytes ct lt e h = elim (Option-cases (http.from_str (kind_of q))) [
    | inl n ↦ rw (h, n, reply) (crashed bytes lt e n)
    | inr (k, s) ↦ rw (h, s, reply) (served bytes ct k lt e h s)
  ]

  -- If the HTTP library accepts the content type: a query whose range is empty gets status 400; else
  -- `serve` runs, and its failure gets status 500 with the error's text, its success the
  -- bytes under both headers; only a kind that the library refuses as a header makes the handler
  -- panic, after the query has run.
  pub handler-Answered :
      (q : TimelineQuery) (content_type : http.HeaderValue)
      → http.from_str (codes "application/vnd.apache.arrow.stream") ≡ some content_type
      → Answered q (handler arrow db http q)
  unfolding handler ise
  handler-Answered q ct h = elim (Bool-cases (saturating_sub q.end_ns q.start_ns == 0)) [
    | inl e ↦ rw (e, handler) (bad_range (ground arith))
    | inr e ↦
        let lt : q.start_ns < q.end_ns = ground arith in
        elim (Result-cases (serve arrow db (kind_of q) q)) [
          | inl (x, r) ↦ rw (e, r, handler) (failed x lt r)
          | inr (bytes, r) ↦ rw (e, r, handler) (reply-Answered q bytes ct lt r h)
        ]
  ]
