-- ===== src/Inject/Callback.antt =====
-- crates/perfweave-cupti-inject/src/callback.rs: the translation of an NVTX callback to a marker. A null
-- pointer is `none`; a C string is its text, as the library reads it.
pub mod Marker
use Prim.Native.String.{String}
use text.Mathlib.Text.{◌==◌ as str_eq}
use perf_weave.Base.{ℕ, ◌||◌, Option, none, some, if◌then◌else◌}
use perf_weave.Proto.{Event, Payload, Category, category_num}

-- The fields that are read.
pub record NvtxEventAttributes : Type 0 where
  pub version : ℕ
  pub size : ℕ
  pub category : ℕ
  pub color_type : ℕ
  pub color_argb : ℕ
  pub payload_type : ℕ
  pub payload_u64 : ℕ
  pub message_type : ℕ
  pub message_ptr : Option String

pub record NvtxRangePushExParams : Type 0 where
  pub event_attr : Option NvtxEventAttributes

-- The handle of a domain is an address.
pub record NvtxDomainRangePushExParams : Type 0 where
  pub domain : ℕ
  pub event_attr : Option NvtxEventAttributes

-- What stands at `params`, read as either structure: the cast of the pointer.
pub record Params : Type 0 where
  pub range_push_ex : NvtxRangePushExParams
  pub domain_range_push_ex : NvtxDomainRangePushExParams

-- `print_pointer` is the library's `{:p}`.
module _ (intern_hash : String → ℕ) (print_pointer : ℕ → String) where
  abbrev pub message_of : Option String → String
  message_of none = "<nvtx>"
  message_of (some message) = message

  -- What follows the match on the name.
  abbrev pub marker_event : ℕ → ℕ → ℕ → ℕ → NvtxEventAttributes → Event
  marker_event ts_ns node_id gpu_id domain_id ea =
      let message_id = intern_hash (message_of ea.message_ptr) in
      record {
        ts_ns = ts_ns;
        duration_ns = 0;
        node_id = node_id;
        gpu_id = gpu_id;
        pid = 0;
        tid = 0;
        ctx_id = 0;
        stream_id = 0;
        category = category_num Category.marker;
        name_id = message_id;
        correlation_id = 0;
        parent_id = 0;
        payload = some (
            Payload.marker (record {
              domain_id = domain_id;
              color_argb = ea.color_argb;
              message_id = message_id;
            }));
      }

  -- `if p.event_attr.is_null() { return None; }`.
  abbrev pub with_attributes : ℕ → ℕ → ℕ → ℕ → Option NvtxEventAttributes → Option Event
  with_attributes ts_ns node_id gpu_id domain_id none = none
  with_attributes ts_ns node_id gpu_id domain_id (some ea) =
      some (marker_event ts_ns node_id gpu_id domain_id ea)

  unfoldable pub translate_nvtx_callback : String → Option Params → ℕ → ℕ → ℕ → Option Event
  translate_nvtx_callback fname none ts_ns node_id gpu_id = none
  translate_nvtx_callback fname (some params) ts_ns node_id gpu_id =
      if str_eq fname "nvtxMarkEx" || str_eq fname "nvtxRangePushEx"
      then with_attributes ts_ns node_id gpu_id 0 params.range_push_ex.event_attr
      else if str_eq fname "nvtxDomainMarkEx" || str_eq fname "nvtxDomainRangePushEx"
      then (let p = params.domain_range_push_ex in
          let dom_ptr_hash = intern_hash (print_pointer p.domain) in
          with_attributes ts_ns node_id gpu_id dom_ptr_hash p.event_attr)
      else none
