-- ===== src/Server/Live/Streams.antt =====
-- crates/perfweave-server/src/live.rs, `sse_live`, `sse_live_kernels` and `frame_to_sse`: what a client of
-- the live plane is sent. An item of the broadcast channel is a value, or the number of values that the
-- client was too slow for. `to_string` is that of the JSON library, which may fail.
use perf_weave.Base.{ℕ, ◌≡◌, refl, ap, List, [], ◌∷◌, map}
use perf_weave.Base.Results.{Result, err, ok}
use perf_weave.Base.Text.{Text, codes}
use perf_weave.Server.SpikeDetect.{SpikeEvent}
use perf_weave.Server.Ingest.{LiveKernelEvent}
use perf_weave.Server.Live.{MetricFrame, LiveFrame}

pub record SseEvent : Type 0 where
  pub event : Text
  pub data_text : Text

abbrev pub unwrap_or_default : Result Text Text → Text
unwrap_or_default (err e) = []
unwrap_or_default (ok json) = json

-- `filter_map` by a closure that drops the lagged items.
pub sent_items {ℓ} : {A : Type ℓ} → (A → SseEvent) → List (Result ℕ A) → List SseEvent
sent_items to_sse [] = []
sent_items to_sse (ok a ∷ items) = to_sse a ∷ sent_items to_sse items
sent_items to_sse (err lagged ∷ items) = sent_items to_sse items

-- The items that arrived.
pub arrived {ℓ} : {A : Type ℓ} → List (Result ℕ A) → List A
arrived [] = []
arrived (ok a ∷ items) = a ∷ arrived items
arrived (err lagged ∷ items) = arrived items

module _ (metric_json : MetricFrame → Result Text Text)
    (spike_json : SpikeEvent → Result Text Text) where
  abbrev pub frame_to_sse : LiveFrame → SseEvent
  frame_to_sse (LiveFrame.metric m) = record {
    event = codes "metric";
    data_text = unwrap_or_default (metric_json m);
  }
  frame_to_sse (LiveFrame.spike s) = record {
    event = codes "spike";
    data_text = unwrap_or_default (spike_json s);
  }

  unfoldable pub sse_live : List (Result ℕ LiveFrame) → List SseEvent
  unfolding sent_items
  sse_live = sent_items frame_to_sse

module _ (kernel_json : LiveKernelEvent → Result Text Text) where
  abbrev pub kernel_to_sse : LiveKernelEvent → SseEvent
  kernel_to_sse k = record { event = codes "kernel"; data_text = unwrap_or_default (kernel_json k) }

  unfoldable pub sse_live_kernels : List (Result ℕ LiveKernelEvent) → List SseEvent
  unfolding sent_items
  sse_live_kernels = sent_items kernel_to_sse

-- A client is sent one event for each value that reaches it, in order, and the connection outlives every lag.
pub sent_items-arrived {ℓ} :
    {A : Type ℓ} (to_sse : A → SseEvent) (items : List (Result ℕ A))
    → sent_items to_sse items ≡ map to_sse (arrived items)
unfolding sent_items arrived
sent_items-arrived to_sse [] = refl
sent_items-arrived to_sse (ok a ∷ items) = ap (◌∷◌ (to_sse a)) (sent_items-arrived to_sse items)
sent_items-arrived to_sse (err lagged ∷ items) = sent_items-arrived to_sse items
