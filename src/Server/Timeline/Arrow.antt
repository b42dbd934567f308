-- ===== src/Server/Timeline/Arrow.antt =====
-- What arrow_tile.rs uses of the Arrow library, which is a parameter, and `encode`.
use Prim.Native.String.{String}
use perf_weave.Base.{ℕ, List}
use perf_weave.Base.Results.{Result, ◌>>=◌}
use perf_weave.Base.Words.{F64}

-- `DataType`, as far as the schemas use it.
pub data DataType : Type 0 where
  uint64 : DataType
  uint32 : DataType
  uint8 : DataType
  float64 : DataType

-- A field of a schema; none may be null.
pub record Field : Type 0 where
  pub name : String
  pub data_type : DataType

-- An Arrow array: `UInt64Array` and the others.
pub data Column : Type 0 where
  u64_array : List ℕ → Column
  u32_array : List ℕ → Column
  u8_array : List ℕ → Column
  f64_array : List F64 → Column

abbrev pub field : String → DataType → Field
field name data_type = record { name = name; data_type = data_type }

-- What arrow_tile.rs calls of the Arrow library.
pub record Arrow (Error : Type 0) (Bytes : Type 0) : Type 1 where
  pub Batch : Type 0
  pub Writer : Type 0
  pub batch_try_new : List Field → List Column → Result Error Batch
  pub writer_try_new : List Field → Result Error Writer
  pub write : Writer → Batch → Result Error Writer
  pub finish : Writer → Result Error Bytes

module _ {Error Bytes : Type 0} (arrow : Arrow Error Bytes) where
  unfoldable pub encode : arrow.Batch → List Field → Result Error Bytes
  encode batch schema = arrow.writer_try_new schema >>= (λ w. arrow.write w batch >>= arrow.finish)
