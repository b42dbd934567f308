-- ===== src/Server/Live/Plane.antt =====
-- crates/perfweave-server/src/live.rs, `spawn_metric_ticker` and `publish_frame`, with `spawn_publisher` of
-- fast_ring.rs: the tasks of the live plane beside the pushes of the ingest stream. A step is a turn of
-- one of them.
use perf_weave.Base.{ℕ, Bool, true, false, List, [], ◌∷◌, ◌++◌, if◌then◌else◌}
use perf_weave.Server.FastRing.{SeriesKey, Sample, FastRing}
use perf_weave.Server.FastRing
use perf_weave.Server.SpikeDetect.{SpikeEvent}
use perf_weave.Server.Live.{LiveFrame, build_metric_frame}

-- The ring, whether each task's loop goes on, and the frames sent to the channel `metrics`, in order.
pub record Plane : Type 0 where
  pub ring : FastRing
  pub publishing : Bool
  pub ticking : Bool
  pub sent : List LiveFrame

abbrev pub started : Plane
started = record { ring = FastRing.new; publishing = true; ticking = true; sent = [] }

-- A `told` is a change of the shutdown flag, and a tick comes with the reading of the host clock.
pub data Step : Type 0 where
  pushed : SeriesKey → Sample → Step
  spike : SpikeEvent → Step
  publisher_tick : ℕ → Step
  publisher_told : Bool → Step
  ticker_tick : ℕ → Step
  ticker_told : Bool → Step

-- `publish_frame`; nobody needs to listen.
abbrev pub publish_frame : LiveFrame → Plane → Plane
publish_frame f p = record p { sent = p.sent ++ f ∷ [] }

-- The body of the loop of `spawn_metric_ticker` at a tick.
unfoldable pub metric_tick : ℕ → Plane → Plane
metric_tick now p = publish_frame (LiveFrame.metric (build_metric_frame now p.ring)) p

-- One step: a task that has left its loop does nothing.
unfoldable pub turn : Plane → Step → Plane
unfolding metric_tick
turn p (pushed k s) = record p { ring = FastRing.push p.ring k s }
turn p (spike e) = publish_frame (LiveFrame.spike e) p
turn p (publisher_tick now) =
    if p.publishing then record p { ring = FastRing.publish now p.ring } else p
turn p (publisher_told flag) = if flag then record p { publishing = false } else p
turn p (ticker_tick now) = if p.ticking then metric_tick now p else p
turn p (ticker_told flag) = if flag then record p { ticking = false } else p

unfoldable pub run : Plane → List Step → Plane
unfolding turn
run p [] = p
run p (t ∷ ts) = run (turn p t) ts
