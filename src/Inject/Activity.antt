-- ===== src/Inject/Activity.antt =====
-- crates/perfweave-cupti-inject/src/activity.rs: a record of CUPTI's activity buffer becomes an event.
-- Memory is not modelled: a `View` holds what `read_at` reads at the record's address for each type.
pub mod Bounds
use Prim.Native.String.{String}
use perf_weave.Base.{ℕ, ◌+◌, ◌*◌, Bool, ◌||◌, Option, none, some, ltb, ◌==◌, if◌then◌else◌}
use perf_weave.Base.Words.{saturating_sub}
use perf_weave.Proto.{
  Event, Payload, Category, category_num, MemcpyKind, kind_num, KernelDetail, MemcpyDetail,
  ApiCallDetail,
}

pub data ActivityKind : Type 0 where
  invalid memcpy memset kernel driver runtime concurrent_kernel memcpy2 overhead : ActivityKind

-- `ActivityKind::X as u32`.
abbrev pub activity_num : ActivityKind → ℕ
activity_num ActivityKind.invalid = 0
activity_num ActivityKind.memcpy = 1
activity_num ActivityKind.memset = 2
activity_num ActivityKind.kernel = 3
activity_num ActivityKind.driver = 4
activity_num ActivityKind.runtime = 5
activity_num ActivityKind.concurrent_kernel = 12
activity_num ActivityKind.memcpy2 = 22
activity_num ActivityKind.overhead = 27

pub record ActivityHeader : Type 0 where
  pub kind : ℕ

-- The fields that the parser reads. `name_ptr` is the text that the pointer leads to, `none` for null.
pub record ActivityKernel7 : Type 0 where
  pub registers_per_thread : ℕ
  pub start : ℕ
  pub end_ns : ℕ
  pub device_id : ℕ
  pub context_id : ℕ
  pub stream_id : ℕ
  pub grid_x : ℕ
  pub grid_y : ℕ
  pub grid_z : ℕ
  pub block_x : ℕ
  pub block_y : ℕ
  pub block_z : ℕ
  pub static_shared_memory : ℕ
  pub dynamic_shared_memory : ℕ
  pub local_memory_per_thread : ℕ
  pub correlation_id : ℕ
  pub name_ptr : Option String

pub record ActivityMemcpy6 : Type 0 where
  pub copy_kind : ℕ
  pub bytes : ℕ
  pub start : ℕ
  pub end_ns : ℕ
  pub device_id : ℕ
  pub context_id : ℕ
  pub stream_id : ℕ
  pub correlation_id : ℕ

pub record ActivityMemset4 : Type 0 where
  pub bytes : ℕ
  pub start : ℕ
  pub end_ns : ℕ
  pub device_id : ℕ
  pub context_id : ℕ
  pub stream_id : ℕ
  pub correlation_id : ℕ

pub record ActivityApi : Type 0 where
  pub cbid : ℕ
  pub start : ℕ
  pub end_ns : ℕ
  pub process_id : ℕ
  pub thread_id : ℕ
  pub correlation_id : ℕ
  pub return_value : ℕ

-- `size_of` of the packed structures: the sizes of their fields, in order, with no padding.
abbrev pub header_size : ℕ
header_size = 4

abbrev pub kernel7_size : ℕ
kernel7_size =
    4
    + 4 * 1
    + 3 * 4
    + 2 * 8
    + 4 * 4
    + 6 * 4
    + 5 * 4
    + 8
    + 2 * 8
    + 2 * 8
    + 4 * 1
    + 4
    + 8
    + 2 * 4
    + 32
    + 6 * 4
    + 8
    + 2 * 4

abbrev pub memcpy6_size : ℕ
memcpy6_size = 4 + 4 * 1 + 3 * 8 + 6 * 4 + 8 + 4 * 4 + 8

abbrev pub memset4_size : ℕ
memset4_size = 2 * 4 + 3 * 8 + 4 * 4 + 2 * 2 + 8 + 4 * 4

abbrev pub api_size : ℕ
api_size = 2 * 4 + 2 * 8 + 4 * 4

pub record View : Type 0 where
  pub header : ActivityHeader
  pub kernel7 : ActivityKernel7
  pub memcpy6 : ActivityMemcpy6
  pub memset4 : ActivityMemset4
  pub api : ActivityApi

-- The match on `copy_kind`.
abbrev pub copy_kind_of : ℕ → MemcpyKind
copy_kind_of k =
    if k == 1
    then MemcpyKind.h2d
    else if k == 2
    then MemcpyKind.d2h
    else if k == 3
    then MemcpyKind.h2h
    else if k == 4
    then MemcpyKind.d2d
    else if k == 10
    then MemcpyKind.p2p
    else MemcpyKind.unknown

abbrev pub has_kind : ActivityKind → ℕ → Bool
has_kind a k = k == activity_num a

module _ (hash : String → ℕ) where
  abbrev pub kernel_event : ActivityKernel7 → Event
  kernel_event k = record {
    ts_ns = k.start;
    duration_ns = saturating_sub k.end_ns k.start;
    node_id = 0;
    gpu_id = k.device_id;
    pid = 0;
    tid = 0;
    ctx_id = k.context_id;
    stream_id = k.stream_id;
    category = category_num Category.kernel;
    name_id = hash (elim k.name_ptr [ none ↦ "<unknown_kernel>" | some name ↦ name ]);
    correlation_id = k.correlation_id;
    parent_id = 0;
    payload = some (
        Payload.kernel (record {
          grid_x = k.grid_x;
          grid_y = k.grid_y;
          grid_z = k.grid_z;
          block_x = k.block_x;
          block_y = k.block_y;
          block_z = k.block_z;
          static_shared_mem_bytes = k.static_shared_memory;
          dynamic_shared_mem_bytes = k.dynamic_shared_memory;
          registers_per_thread = k.registers_per_thread;
          local_mem_per_thread = k.local_memory_per_thread;
          launch_cbid = 0;
        }));
  }

  abbrev pub memcpy_event : ActivityMemcpy6 → Event
  memcpy_event m = record {
    ts_ns = m.start;
    duration_ns = saturating_sub m.end_ns m.start;
    node_id = 0;
    gpu_id = m.device_id;
    pid = 0;
    tid = 0;
    ctx_id = m.context_id;
    stream_id = m.stream_id;
    category = category_num Category.memcpy;
    name_id = hash "cudaMemcpy";
    correlation_id = m.correlation_id;
    parent_id = 0;
    payload = some (
        Payload.memcpy (record {
          kind = kind_num (copy_kind_of m.copy_kind);
          bytes = m.bytes;
          src_device = m.device_id;
          dst_device = m.device_id;
        }));
  }

  abbrev pub memset_event : ActivityMemset4 → Event
  memset_event m = record {
    ts_ns = m.start;
    duration_ns = saturating_sub m.end_ns m.start;
    node_id = 0;
    gpu_id = m.device_id;
    pid = 0;
    tid = 0;
    ctx_id = m.context_id;
    stream_id = m.stream_id;
    category = category_num Category.memset;
    name_id = hash "cudaMemset";
    correlation_id = m.correlation_id;
    parent_id = 0;
    payload = some (
        Payload.memcpy (record {
          kind = 0;
          bytes = m.bytes;
          src_device = m.device_id;
          dst_device = m.device_id;
        }));
  }

  abbrev pub api_event : ActivityApi → Event
  api_event a = record {
    ts_ns = a.start;
    duration_ns = saturating_sub a.end_ns a.start;
    node_id = 0;
    gpu_id = 0;
    pid = a.process_id;
    tid = a.thread_id;
    ctx_id = 0;
    stream_id = 0;
    category = category_num Category.api_call;
    name_id = hash "cuApi";
    correlation_id = a.correlation_id;
    parent_id = 0;
    payload = some (Payload.api (record { cbid = a.cbid; status = a.return_value }));
  }

  -- The size of the record, and its event.
  unfoldable pub parse_record : View → ℕ → ℕ × Option Event
  parse_record v remaining =
      let kind = v.header.kind in
      if ltb remaining header_size
      then (remaining, none)
      else if has_kind ActivityKind.kernel kind || has_kind ActivityKind.concurrent_kernel kind
      then (if ltb remaining kernel7_size
          then (remaining, none)
          else (kernel7_size, some (kernel_event v.kernel7)))
      else if has_kind ActivityKind.memcpy kind || has_kind ActivityKind.memcpy2 kind
      then (if ltb remaining memcpy6_size
          then (remaining, none)
          else (memcpy6_size, some (memcpy_event v.memcpy6)))
      else if has_kind ActivityKind.memset kind
      then (if ltb remaining memset4_size
          then (remaining, none)
          else (memset4_size, some (memset_event v.memset4)))
      else if has_kind ActivityKind.runtime kind || has_kind ActivityKind.driver kind
      then (if ltb remaining api_size
          then (remaining, none)
          else (api_size, some (api_event v.api)))
      else (header_size, none)
