-- ===== src/Metrics/Instruments.antt =====
-- crates/metrics/src/lib.rs: the instruments that the meter builds. A boundary is in units of 0.1 ms.
use percas.Base.{ℕ, List, [], ◌∷◌, Option, none, some}
use percas.Text.{String}

pub data Kind : Type 0 where
  u64_gauge u64_counter : Kind
  f64_histogram : List ℕ → Kind

pub record InstrumentBuilder : Type 0 where
  pub kind : Kind
  pub name : String
  pub description : String
  pub unit : Option String

pub record StorageIoMetrics : Type 0 where
  pub count : InstrumentBuilder
  pub bytes : InstrumentBuilder

pub record StorageMetrics : Type 0 where
  pub capacity : InstrumentBuilder
  pub used : InstrumentBuilder
  pub io : StorageIoMetrics

pub record OperationMetrics : Type 0 where
  pub count : InstrumentBuilder
  pub bytes : InstrumentBuilder
  pub duration : InstrumentBuilder

pub record GlobalMetrics : Type 0 where
  pub storage : StorageMetrics
  pub operation : OperationMetrics

unfoldable pub storage_io_new : StorageIoMetrics
storage_io_new = record {
  count = record {
    kind = u64_counter;
    name = "percas.storage.io.count";
    description = "The number of IOs";
    unit = none;
  };
  bytes = record {
    kind = u64_counter;
    name = "percas.storage.io.bytes";
    description = "The number of IO bytes";
    unit = some "byte";
  };
}

unfoldable pub storage_new : StorageMetrics
unfolding storage_io_new
storage_new = record {
  capacity = record {
    kind = u64_gauge;
    name = "percas.storage.capacity";
    description = "The total capacity of the storage";
    unit = some "byte";
  };
  used = record {
    kind = u64_gauge;
    name = "percas.storage.used";
    description = "The used capacity of the storage";
    unit = some "byte";
  };
  io = storage_io_new;
}

unfoldable pub operation_new : OperationMetrics
operation_new = record {
  count = record {
    kind = u64_counter;
    name = "percas.operation.count";
    description = "The number of operations";
    unit = none;
  };
  bytes = record {
    kind = u64_counter;
    name = "percas.operation.bytes";
    description = "The number of bytes";
    unit = some "byte";
  };
  duration = record {
    kind =
        f64_histogram
          (1 ∷ 5 ∷ 10 ∷ 50 ∷ 100 ∷ 200 ∷ 500 ∷ 1000 ∷ 2000 ∷ 5000 ∷ 10_000 ∷ 50_000 ∷ []);
    name = "percas.operation.duration";
    description = "The duration of the operation";
    unit = some "second";
  };
}

unfoldable pub global_new : GlobalMetrics
unfolding storage_new operation_new
global_new = record { storage = storage_new; operation = operation_new }
