-- ===== src/Server/Live/Tests.antt =====
-- The live plane: two pushes, of which a reader sees the first.
use perf_weave.Base.{ℕ, ◌≡◌, refl, true, false, some, List, [], ◌∷◌, ◌++◌}
use perf_weave.Base.Text.{codes}
use perf_weave.Base.Results.{err, ok}
use perf_weave.Server.FastRing.{SeriesKey, Sample}
use perf_weave.Server.Live.{LiveFrame, build_metric_frame}
use perf_weave.Server.Live.Frame.{metrics_of}
use perf_weave.Server.Live.Latest.{value_of, visible, tick-Latest}
use perf_weave.Server.Live.Plane.{
  Step, pushed, publisher_tick, publisher_told, ticker_tick, ticker_told, started, turn, run,
}
use perf_weave.Server.Live.Streams.{sse_live}

abbrev key : SeriesKey
key = record { node_id = 1; gpu_id = 0; metric_id = 5 }

abbrev sample : ℕ → ℕ → Sample
sample ts value = record { ts_ns = ts; value = value }

abbrev steps : List Step
steps =
    pushed key (sample 1 40)
    ∷ publisher_tick 10
    ∷ ticker_tick 11
    ∷ pushed key (sample 12 41)
    ∷ ticker_told false
    ∷ publisher_told true
    ∷ publisher_tick 20
    ∷ []

still_ticking : (run started steps).ticking ≡ true
unfolding run
still_ticking = refl

tick-Latest_example :
    let p = run started steps in
    let frame = build_metric_frame 21 p.ring in
    ((turn p (ticker_tick 21)).sent ≡ p.sent ++ LiveFrame.metric frame ∷ [])
    × (value_of 5 (metrics_of (1, 0) frame.gpus) ≡ some 40)
unfolding visible
tick-Latest_example = tick-Latest steps 21 key still_ticking

-- A lag and a failed print.
streams_test :
    sse_live
      (λ m. err (codes "no number"))
      (λ s. ok [])
      (err 3 ∷ ok (LiveFrame.metric (record { ts_ns = 1; server_now_ns = 2; gpus = [] })) ∷ [])
    ≡ record { event = codes "metric"; data_text = [] } ∷ []
unfolding sse_live
streams_test = refl
