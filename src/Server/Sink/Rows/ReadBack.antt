-- ===== src/Server/Sink/Rows/ReadBack.antt =====
-- That a row of the events table (sink.rs) still holds the event that it was made from.
use perf_weave.Base.{ℕ, ◌≡◌, refl, Option, none, some, ◌==◌, if◌then◌else◌}
use perf_weave.Proto.{
  Event, Payload, Category, category_num, MemcpyKind, kind_num, KernelDetail, ApiCallDetail,
  MarkerDetail, Getters,
}
use perf_weave.Server.Sink.Rows.{EventRow, row_of_event, memcpy_kind_to_i8}

-- The detail that the columns of a row hold, by its category.
abbrev pub read_payload : EventRow → Option Payload
read_payload row =
    if row.category == 3
    then some (
        Payload.kernel (record {
          grid_x = row.grid_x;
          grid_y = row.grid_y;
          grid_z = row.grid_z;
          block_x = row.block_x;
          block_y = row.block_y;
          block_z = row.block_z;
          static_shared_mem_bytes = row.shared_static;
          dynamic_shared_mem_bytes = row.shared_dynamic;
          registers_per_thread = row.registers;
          local_mem_per_thread = row.local_mem;
          launch_cbid = row.launch_cbid;
        }))
    else if row.category == 4
    then some (
        Payload.memcpy (record {
          kind = row.memcpy_kind;
          bytes = row.memcpy_bytes;
          src_device = row.memcpy_src;
          dst_device = row.memcpy_dst;
        }))
    else if row.category == 2
    then some (Payload.api (record { cbid = row.api_cbid; status = row.api_status }))
    else if row.category == 8
    then some (
        Payload.marker (record {
          domain_id = row.marker_domain_id;
          color_argb = row.marker_color;
          message_id = row.marker_message_id;
        }))
    else none

-- The details that belong to a category; the kind of a copy is one of the enumeration.
pub data Belongs : Category → Payload → Type 0 where
  kernel : (d : KernelDetail) → Belongs Category.kernel (Payload.kernel d)
  memcpy :
      (k : MemcpyKind) (bytes src dst : ℕ)
      → Belongs Category.memcpy (
          Payload.memcpy
            (record { kind = kind_num k; bytes = bytes; src_device = src; dst_device = dst }))
  api : (d : ApiCallDetail) → Belongs Category.api_call (Payload.api d)
  marker : (d : MarkerDetail) → Belongs Category.marker (Payload.marker d)

memcpy_kind_to_i8-num : (k : MemcpyKind) → memcpy_kind_to_i8 k ≡ kind_num k
memcpy_kind_to_i8-num MemcpyKind.unknown = refl
memcpy_kind_to_i8-num MemcpyKind.h2d = refl
memcpy_kind_to_i8-num MemcpyKind.d2h = refl
memcpy_kind_to_i8-num MemcpyKind.d2d = refl
memcpy_kind_to_i8-num MemcpyKind.h2h = refl
memcpy_kind_to_i8-num MemcpyKind.p2p = refl

module _ (g : Getters) where
  -- A kernel, copy, API call or marker that carries the detail of its category can be read back from
  -- its row: the columns of the detail hold it exactly.
  pub read_payload-row_of_event :
      (e : Event) {c : Category} {p : Payload}
      → Belongs c p
      → e.category ≡ category_num c
      → e.payload ≡ some p
      → read_payload (row_of_event g e) ≡ some p
  unfolding row_of_event
  read_payload-row_of_event e (kernel d) ec ep = rw (ec, ep, g.category_known Category.kernel) refl
  read_payload-row_of_event e (memcpy k bytes src dst) ec ep =
      rw (ec, ep, g.category_known Category.memcpy, g.kind_known k, memcpy_kind_to_i8-num k) refl
  read_payload-row_of_event e (api d) ec ep = rw (ec, ep, g.category_known Category.api_call) refl
  read_payload-row_of_event e (marker d) ec ep = rw (ec, ep, g.category_known Category.marker) refl
