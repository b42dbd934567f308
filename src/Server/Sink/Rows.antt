-- ===== src/Server/Sink/Rows.antt =====
-- crates/perfweave-server/src/store/sink.rs: the rows of the ClickHouse tables, and how the messages
-- become rows.
pub mod ReadBack
use Prim.Native.String.{String}
use perf_weave.Base.{ℕ, ◌%◌, Option, none, some, List, map}
use perf_weave.Base.Words.{F64, F32, u8_mod}
use perf_weave.Base.Int.{ℤ, u64_as_i64}
use perf_weave.Proto.{
  Event, Payload, Category, MemcpyKind, Getters, KernelSol, StringIntern, ClockOffset, bound_num,
  confidence_num, source_num,
}

pub record EventRow : Type 0 where
  pub ts_ns : ℕ
  pub duration_ns : ℕ
  pub node_id : ℕ
  pub gpu_id : ℕ
  pub pid : ℕ
  pub tid : ℕ
  pub ctx_id : ℕ
  pub stream_id : ℕ
  pub category : ℕ
  pub name_id : ℕ
  pub correlation_id : ℕ
  pub parent_id : ℕ
  pub metric_id : ℕ
  pub metric_value : F64
  pub metric_unit : String
  pub grid_x : ℕ
  pub grid_y : ℕ
  pub grid_z : ℕ
  pub block_x : ℕ
  pub block_y : ℕ
  pub block_z : ℕ
  pub shared_static : ℕ
  pub shared_dynamic : ℕ
  pub registers : ℕ
  pub local_mem : ℕ
  pub launch_cbid : ℕ
  pub memcpy_kind : ℕ
  pub memcpy_bytes : ℕ
  pub memcpy_src : ℕ
  pub memcpy_dst : ℕ
  pub api_cbid : ℕ
  pub api_status : ℕ
  pub marker_domain_id : ℕ
  pub marker_color : ℕ
  pub marker_message_id : ℕ

-- The column's number; `unspecified` is stored as a metric, and SOL, which has a table of its own,
-- as a kernel.
abbrev pub category_to_i8 : Category → ℕ
category_to_i8 Category.unspecified = 1
category_to_i8 Category.metric = 1
category_to_i8 Category.api_call = 2
category_to_i8 Category.kernel = 3
category_to_i8 Category.memcpy = 4
category_to_i8 Category.memset = 5
category_to_i8 Category.sync = 6
category_to_i8 Category.overhead = 7
category_to_i8 Category.marker = 8
category_to_i8 Category.sol = 3

abbrev pub memcpy_kind_to_i8 : MemcpyKind → ℕ
memcpy_kind_to_i8 MemcpyKind.unknown = 0
memcpy_kind_to_i8 MemcpyKind.h2d = 1
memcpy_kind_to_i8 MemcpyKind.d2h = 2
memcpy_kind_to_i8 MemcpyKind.d2d = 3
memcpy_kind_to_i8 MemcpyKind.h2h = 4
memcpy_kind_to_i8 MemcpyKind.p2p = 5

module _ (g : Getters) where
  -- The row before its payload is looked at.
  abbrev pub blank_row : Event → EventRow
  blank_row e = record {
    ts_ns = e.ts_ns;
    duration_ns = e.duration_ns;
    node_id = e.node_id;
    gpu_id = e.gpu_id % u8_mod;
    pid = e.pid;
    tid = e.tid;
    ctx_id = e.ctx_id;
    stream_id = e.stream_id;
    category = category_to_i8 (g.category e.category);
    name_id = e.name_id;
    correlation_id = e.correlation_id;
    parent_id = e.parent_id;
    metric_id = 0;
    metric_value = 0;
    metric_unit = "";
    grid_x = 0;
    grid_y = 0;
    grid_z = 0;
    block_x = 0;
    block_y = 0;
    block_z = 0;
    shared_static = 0;
    shared_dynamic = 0;
    registers = 0;
    local_mem = 0;
    launch_cbid = 0;
    memcpy_kind = 0;
    memcpy_bytes = 0;
    memcpy_src = 0;
    memcpy_dst = 0;
    api_cbid = 0;
    api_status = 0;
    marker_domain_id = 0;
    marker_color = 0;
    marker_message_id = 0;
  }

  -- The `match` on the payload.
  abbrev pub fill_row : EventRow → Option Payload → EventRow
  fill_row row none = row
  fill_row row (some (Payload.metric m)) = record row {
    metric_id = m.metric_id;
    metric_value = m.value;
    metric_unit = m.unit;
  }
  fill_row row (some (Payload.kernel k)) = record row {
    grid_x = k.grid_x;
    grid_y = k.grid_y;
    grid_z = k.grid_z;
    block_x = k.block_x;
    block_y = k.block_y;
    block_z = k.block_z;
    shared_static = k.static_shared_mem_bytes;
    shared_dynamic = k.dynamic_shared_mem_bytes;
    registers = k.registers_per_thread;
    local_mem = k.local_mem_per_thread;
    launch_cbid = k.launch_cbid;
  }
  fill_row row (some (Payload.memcpy m)) = record row {
    memcpy_kind = memcpy_kind_to_i8 (g.kind m.kind);
    memcpy_bytes = m.bytes;
    memcpy_src = m.src_device;
    memcpy_dst = m.dst_device;
  }
  fill_row row (some (Payload.api a)) = record row { api_cbid = a.cbid; api_status = a.status }
  fill_row row (some (Payload.marker mk)) = record row {
    marker_domain_id = mk.domain_id;
    marker_color = mk.color_argb;
    marker_message_id = mk.message_id;
  }
  fill_row row (some (Payload.sol k)) = row

  -- `EventRow::from`.
  unfoldable pub row_of_event : Event → EventRow
  row_of_event e = fill_row (blank_row e) e.payload

pub record StringRow : Type 0 where
  pub id : ℕ
  pub text : String

pub record OffsetRow : Type 0 where
  pub fitted_at_ns : ℕ
  pub node_id : ℕ
  pub gpu_id : ℕ
  pub offset_ns : ℤ
  pub slope_num : ℤ
  pub slope_den : ℤ
  pub residual_max_ns : ℕ

-- The row of a clock fit; `now` is the host clock's reading.
abbrev pub row_of_offset : ℕ → ClockOffset → OffsetRow
row_of_offset now o = record {
  fitted_at_ns = now;
  node_id = o.node_id;
  gpu_id = o.gpu_id % u8_mod;
  offset_ns = u64_as_i64 o.offset_ns;
  slope_num = u64_as_i64 o.slope_num;
  slope_den = u64_as_i64 o.slope_den;
  residual_max_ns = o.residual_max_ns;
}

abbrev pub row_of_string : StringIntern → StringRow
row_of_string s = record { id = s.id; text = s.text }

pub record KernelSolRow : Type 0 where
  pub ts_ns : ℕ
  pub node_id : ℕ
  pub gpu_id : ℕ
  pub correlation_id : ℕ
  pub sm_active_pct : F32
  pub achieved_occupancy_pct : F32
  pub dram_bw_pct : F32
  pub l1_bw_pct : F32
  pub l2_bw_pct : F32
  pub inst_throughput_pct : F32
  pub theoretical_occupancy_pct : F32
  pub arithmetic_intensity : F32
  pub achieved_gflops : F32
  pub bound : ℕ
  pub confidence : ℕ
  pub source : ℕ
  pub stall_reasons : List ℕ
  pub stall_counts : List ℕ

-- `KernelSolRow::from_proto`.
unfoldable pub row_of_sol : Getters → ℕ → ℕ → KernelSol → KernelSolRow
row_of_sol g now node_id s = record {
  ts_ns = now;
  node_id = node_id;
  gpu_id = 0;
  correlation_id = s.correlation_id;
  sm_active_pct = s.sm_active_pct;
  achieved_occupancy_pct = s.achieved_occupancy_pct;
  dram_bw_pct = s.dram_bw_pct;
  l1_bw_pct = s.l1_bw_pct;
  l2_bw_pct = s.l2_bw_pct;
  inst_throughput_pct = s.inst_throughput_pct;
  theoretical_occupancy_pct = s.theoretical_occupancy_pct;
  arithmetic_intensity = s.arithmetic_intensity;
  achieved_gflops = s.achieved_gflops;
  bound = bound_num (g.bound s.bound);
  confidence = confidence_num (g.confidence s.confidence);
  source = source_num (g.source s.source);
  stall_reasons = map (λ c. c.reason_id) s.stalls;
  stall_counts = map (λ c. c.count) s.stalls;
}

pub record SpikeRow : Type 0 where
  pub bucket_start_ns : ℕ
  pub bucket_width_ns : ℕ
  pub node_id : ℕ
  pub gpu_id : ℕ
  pub metric_id : ℕ
  pub value : F64
  pub median : F64
  pub mad : F64
  pub z_mad : F64
