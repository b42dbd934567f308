-- ===== src/Inject/Callback/Marker.antt =====
-- What a callback gives (callback.rs).
use Prim.Native.String.{String}
use text.Mathlib.Text.{◌==◌ as str_eq}
use perf_weave.Base.{ℕ, ◌≡◌, refl, Bool-cases, inl, inr, ◌||◌, Option, none, some}
use perf_weave.Proto.{Event, Payload, MarkerDetail, Category, category_num}
use perf_weave.Inject.Callback.{
  NvtxEventAttributes, Params, with_attributes, translate_nvtx_callback,
}

module _ (intern_hash : String → ℕ) (print_pointer : ℕ → String) where
  -- A marker at the time and place of the callback, named by its message.
  abbrev pub IsMarker : (ts node gpu : ℕ) → Event → Type 0
  IsMarker ts node gpu e =
      (e.category ≡ category_num Category.marker)
      × (e.ts_ns ≡ ts)
      × (e.duration_ns ≡ 0)
      × (e.node_id ≡ node)
      × (e.gpu_id ≡ gpu)
      × ((m : MarkerDetail) × (e.payload ≡ some (Payload.marker m)) × (m.message_id ≡ e.name_id))

  -- Nothing, or such a marker.
  abbrev pub MarkerIfAny : (ts node gpu : ℕ) → Option Event → Type 0
  MarkerIfAny ts node gpu none = Unit
  MarkerIfAny ts node gpu (some e) = IsMarker ts node gpu e

  with_attributes-IsMarker :
      (ts node gpu domain_id : ℕ) (ea : Option NvtxEventAttributes)
      → MarkerIfAny ts node gpu (with_attributes intern_hash print_pointer ts node gpu domain_id ea)
  with_attributes-IsMarker ts node gpu domain_id none = tt
  with_attributes-IsMarker ts node gpu domain_id (some ea) =
      (refl, refl, refl, refl, refl, (_, refl, refl))

  -- Whatever is called with whatever it points to, what is translated is a marker of that time and place,
  -- of no duration, whose name is its message.
  pub translate_nvtx_callback-IsMarker :
      (fname : String) (params : Option Params) (ts node gpu : ℕ)
      → MarkerIfAny ts node gpu
          (translate_nvtx_callback intern_hash print_pointer fname params ts node gpu)
  unfolding translate_nvtx_callback
  translate_nvtx_callback-IsMarker fname none ts node gpu = tt
  translate_nvtx_callback-IsMarker fname (some p) ts node gpu =
      elim (Bool-cases (str_eq fname "nvtxMarkEx" || str_eq fname "nvtxRangePushEx")) [
        | inl plain ↦ rw plain (with_attributes-IsMarker ts node gpu 0 p.range_push_ex.event_attr)
        | inr other ↦
            let d = intern_hash (print_pointer p.domain_range_push_ex.domain) in
            rw other
              (elim (Bool-cases
                (str_eq fname "nvtxDomainMarkEx" || str_eq fname "nvtxDomainRangePushEx")) [
                  | inl domain ↦
                      rw domain
                        (with_attributes-IsMarker ts node gpu d p.domain_range_push_ex.event_attr)
                  | inr neither ↦ rw neither tt
                ])
      ]
