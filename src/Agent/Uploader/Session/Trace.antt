-- ===== src/Agent/Uploader/Session/Trace.antt =====
-- What a run of the uploader (grpc_client.rs) has put into the ring, and what has left it.
use perf_weave.Base.{ℕ, ◌+◌, ◌≡◌, refl, ap, List, [], ◌∷◌, ◌++◌, map, arith}
use mathlib.Core.List.{append_assoc}
use perf_weave.Proto.{Event, MetricFrame, Batch}
use perf_weave.Common.Clock
use perf_weave.Agent.Uploader.{correct}
use perf_weave.Agent.Uploader.Session.{
  Turn, pushed, pushed_frame, Output, delivered, refused, warned, reset_interner, sleep,
}

-- An event without its time stamp, which the uploader may correct.
abbrev pub untimed : Event → Event
untimed e = record e { ts_ns = 0 }

-- The batches handed to the stream, whether it takes them or not. One that it refuses is lost: the code
-- has moved it out of the ring, and neither keeps nor counts it.
abbrev pub offered_batches : List Output → List Batch
offered_batches [] = []
offered_batches (delivered b ∷ os) = b ∷ offered_batches os
offered_batches (refused b ∷ os) = b ∷ offered_batches os
offered_batches (_ ∷ os) = offered_batches os

-- Those that it takes, and those that it refuses.
abbrev pub delivered_batches : List Output → List Batch
delivered_batches [] = []
delivered_batches (delivered b ∷ os) = b ∷ delivered_batches os
delivered_batches (_ ∷ os) = delivered_batches os

abbrev pub refused_batches : List Output → List Batch
refused_batches [] = []
refused_batches (refused b ∷ os) = b ∷ refused_batches os
refused_batches (_ ∷ os) = refused_batches os

abbrev pub events_of : List Batch → List Event
events_of [] = []
events_of (b ∷ bs) = b.events ++ events_of bs

abbrev pub frames_of : List Batch → List MetricFrame
frames_of [] = []
frames_of (b ∷ bs) = b.metric_frames ++ frames_of bs

-- The drops that the warnings name.
abbrev pub warned_events : List Output → ℕ
warned_events [] = 0
warned_events (warned d df ∷ os) = d + warned_events os
warned_events (_ ∷ os) = warned_events os

abbrev pub warned_frames : List Output → ℕ
warned_frames [] = 0
warned_frames (warned d df ∷ os) = df + warned_frames os
warned_frames (_ ∷ os) = warned_frames os

abbrev pub put_events : Turn → List Event
put_events (pushed e) = e ∷ []
put_events _ = []

abbrev pub put_frames : Turn → List MetricFrame
put_frames (pushed_frame f) = f ∷ []
put_frames _ = []

abbrev pub pushed_events : List Turn → List Event
pushed_events [] = []
pushed_events (t ∷ ts) = put_events t ++ pushed_events ts

abbrev pub pushed_frames : List Turn → List MetricFrame
pushed_frames [] = []
pushed_frames (t ∷ ts) = put_frames t ++ pushed_frames ts

pub events_of-append : (bs cs : List Batch) → events_of (bs ++ cs) ≡ events_of bs ++ events_of cs
events_of-append [] cs = refl
events_of-append (b ∷ bs) cs = simp (events_of-append bs cs, append_assoc)

pub frames_of-append : (bs cs : List Batch) → frames_of (bs ++ cs) ≡ frames_of bs ++ frames_of cs
frames_of-append [] cs = refl
frames_of-append (b ∷ bs) cs = simp (frames_of-append bs cs, append_assoc)

pub offered_batches-append :
    (xs ys : List Output) → offered_batches (xs ++ ys) ≡ offered_batches xs ++ offered_batches ys
offered_batches-append [] ys = refl
offered_batches-append (delivered b ∷ xs) ys = ap (◌∷◌ b) (offered_batches-append xs ys)
offered_batches-append (refused b ∷ xs) ys = ap (◌∷◌ b) (offered_batches-append xs ys)
offered_batches-append (warned d df ∷ xs) ys = offered_batches-append xs ys
offered_batches-append (reset_interner ∷ xs) ys = offered_batches-append xs ys
offered_batches-append (sleep ms ∷ xs) ys = offered_batches-append xs ys

pub warned-append :
    (xs ys : List Output)
    → (warned_events (xs ++ ys) ≡ warned_events xs + warned_events ys)
      × (warned_frames (xs ++ ys) ≡ warned_frames xs + warned_frames ys)
warned-append [] ys = omega arith
warned-append (delivered b ∷ xs) ys = warned-append xs ys
warned-append (refused b ∷ xs) ys = warned-append xs ys
warned-append (warned d df ∷ xs) ys = omega (arith, warned-append xs ys)
warned-append (reset_interner ∷ xs) ys = warned-append xs ys
warned-append (sleep ms ∷ xs) ys = warned-append xs ys

pub untimed-correct : (off : Clock.ClockOffset) (e : Event) → untimed (correct off e) ≡ untimed e
unfolding correct
untimed-correct off e = ground arith

pub map-untimed-correct :
    (off : Clock.ClockOffset) (es : List Event)
    → map untimed (map (correct off) es) ≡ map untimed es
map-untimed-correct off [] = refl
map-untimed-correct off (e ∷ es) =
    rw (untimed-correct off e) (ap (◌∷◌ (untimed e)) (map-untimed-correct off es))
