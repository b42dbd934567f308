-- ===== src/Proto.antt =====
-- proto/perfweave.proto: the messages that the processes exchange. Unsigned integers are numbers, a
-- float is its bit pattern, and an enumeration's field is its number on the wire (a negative number
-- as its 32-bit pattern).
pub mod Defaults
use Prim.Native.String.{String}
use perf_weave.Base.{ℕ, ◌≡◌, Option, List}
use perf_weave.Base.Words.{F64, F32}

pub data Category : Type 0 where
  unspecified metric api_call kernel memcpy memset sync overhead marker sol : Category

-- `Category::X as i32`.
abbrev pub category_num : Category → ℕ
category_num Category.unspecified = 0
category_num Category.metric = 1
category_num Category.api_call = 2
category_num Category.kernel = 3
category_num Category.memcpy = 4
category_num Category.memset = 5
category_num Category.sync = 6
category_num Category.overhead = 7
category_num Category.marker = 8
category_num Category.sol = 9

-- `MemcpyDetail.Kind`.
pub data MemcpyKind : Type 0 where
  unknown h2d d2h d2d h2h p2p : MemcpyKind

abbrev pub kind_num : MemcpyKind → ℕ
kind_num MemcpyKind.unknown = 0
kind_num MemcpyKind.h2d = 1
kind_num MemcpyKind.d2h = 2
kind_num MemcpyKind.d2d = 3
kind_num MemcpyKind.h2h = 4
kind_num MemcpyKind.p2p = 5

-- `KernelSol.Bound`.
pub data Bound : Type 0 where
  bound_unknown memory compute latency balanced : Bound

abbrev pub bound_num : Bound → ℕ
bound_num Bound.bound_unknown = 0
bound_num Bound.memory = 1
bound_num Bound.compute = 2
bound_num Bound.latency = 3
bound_num Bound.balanced = 4

-- `KernelSol.Confidence`.
pub data Confidence : Type 0 where
  conf_unknown low high : Confidence

abbrev pub confidence_num : Confidence → ℕ
confidence_num Confidence.conf_unknown = 0
confidence_num Confidence.low = 1
confidence_num Confidence.high = 2

-- `KernelSol.Source`.
pub data Source : Type 0 where
  src_unknown host_sampling replay : Source

abbrev pub source_num : Source → ℕ
source_num Source.src_unknown = 0
source_num Source.host_sampling = 1
source_num Source.replay = 2

pub record MetricSample : Type 0 where
  pub metric_id : ℕ
  pub value : F64
  pub unit : String

pub record MetricPoint : Type 0 where
  pub metric_id : ℕ
  pub value : F64

pub record MetricFrame : Type 0 where
  pub node_id : ℕ
  pub gpu_id : ℕ
  pub ts_ns : ℕ
  pub points : List MetricPoint

pub record KernelDetail : Type 0 where
  pub grid_x : ℕ
  pub grid_y : ℕ
  pub grid_z : ℕ
  pub block_x : ℕ
  pub block_y : ℕ
  pub block_z : ℕ
  pub static_shared_mem_bytes : ℕ
  pub dynamic_shared_mem_bytes : ℕ
  pub registers_per_thread : ℕ
  pub local_mem_per_thread : ℕ
  pub launch_cbid : ℕ

pub record MemcpyDetail : Type 0 where
  pub kind : ℕ
  pub bytes : ℕ
  pub src_device : ℕ
  pub dst_device : ℕ

pub record ApiCallDetail : Type 0 where
  pub cbid : ℕ
  pub status : ℕ

pub record MarkerDetail : Type 0 where
  pub domain_id : ℕ
  pub color_argb : ℕ
  pub message_id : ℕ

pub record StallCount : Type 0 where
  pub reason_id : ℕ
  pub count : ℕ

pub record KernelSol : Type 0 where
  pub correlation_id : ℕ
  pub sm_active_pct : F32
  pub achieved_occupancy_pct : F32
  pub dram_bw_pct : F32
  pub l1_bw_pct : F32
  pub l2_bw_pct : F32
  pub inst_throughput_pct : F32
  pub theoretical_occupancy_pct : F32
  pub arithmetic_intensity : F32
  pub achieved_gflops : F32
  pub bound : ℕ
  pub confidence : ℕ
  pub source : ℕ
  pub stalls : List StallCount

-- The `oneof payload` of an event.
pub data Payload : Type 0 where
  metric : MetricSample → Payload
  kernel : KernelDetail → Payload
  memcpy : MemcpyDetail → Payload
  api : ApiCallDetail → Payload
  marker : MarkerDetail → Payload
  sol : KernelSol → Payload

pub record Event : Type 0 where
  pub ts_ns : ℕ
  pub duration_ns : ℕ
  pub node_id : ℕ
  pub gpu_id : ℕ
  pub pid : ℕ
  pub tid : ℕ
  pub ctx_id : ℕ
  pub stream_id : ℕ
  pub category : ℕ
  pub name_id : ℕ
  pub correlation_id : ℕ
  pub parent_id : ℕ
  pub payload : Option Payload

pub record StringIntern : Type 0 where
  pub id : ℕ
  pub text : String

pub record ClockOffset : Type 0 where
  pub node_id : ℕ
  pub gpu_id : ℕ
  pub offset_ns : ℕ
  pub slope_num : ℕ
  pub slope_den : ℕ
  pub residual_max_ns : ℕ

pub record Batch : Type 0 where
  pub events : List Event
  pub strings : List StringIntern
  pub offsets : List ClockOffset
  pub metric_frames : List MetricFrame

pub record Ack : Type 0 where
  pub accepted : ℕ
  pub dropped : ℕ

pub record DevicePeak : Type 0 where
  pub gpu_id : ℕ
  pub peak_fp32_gflops : F32
  pub peak_dram_gb_s : F32
  pub device_name : String
  pub compute_capability : String

pub record AgentHello : Type 0 where
  pub node_id : ℕ
  pub hostname : String
  pub agent_version : String
  pub num_gpus : ℕ
  pub device_peaks : List DevicePeak
  pub agent_rpc_addr : String

pub record RegisterAck : Type 0 where
  pub assigned_node_id : ℕ
  pub server_epoch_ns : ℕ

pub record ProfileRequest : Type 0 where
  pub gpu_id : ℕ
  pub window_start_ns : ℕ
  pub window_end_ns : ℕ
  pub correlation_ids : List ℕ
  pub name_ids : List ℕ
  pub timeout_ms : ℕ

-- The getters that the protobuf compiler generates for the fields of an enumeration. What they
-- return for a number of the enumeration is documented; for any other they have a default.
pub record Getters : Type 0 where
  pub category : ℕ → Category
  pub kind : ℕ → MemcpyKind
  pub bound : ℕ → Bound
  pub confidence : ℕ → Confidence
  pub source : ℕ → Source
  pub category_known : (c : Category) → category (category_num c) ≡ c
  pub kind_known : (k : MemcpyKind) → kind (kind_num k) ≡ k
  pub bound_known : (b : Bound) → bound (bound_num b) ≡ b
  pub confidence_known : (c : Confidence) → confidence (confidence_num c) ≡ c
  pub source_known : (s : Source) → source (source_num s) ≡ s
