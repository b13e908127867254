-- ===== src/Metrics.antt =====
-- crates/metrics/src/lib.rs: what is measured. The instruments of the crate `opentelemetry` receive
-- measurements, which are kept here in their order; a duration is in nanoseconds.
pub mod Instruments
use percas.Base.{ℕ, List, [], ◌∷◌}
use percas.Text.{String}

pub data Instrument : Type 0 where
  operation_count operation_bytes operation_duration : Instrument

pub record Measurement : Type 0 where
  pub instrument : Instrument
  pub value : ℕ
  pub labels : List (String × String)

abbrev pub operation_get : String
operation_get = "get"

abbrev pub operation_put : String
operation_put = "put"

abbrev pub operation_delete : String
operation_delete = "delete"

abbrev pub operation_unknown : String
operation_unknown = "unknown"

abbrev pub status_success : String
status_success = "ok"

abbrev pub status_not_found : String
status_not_found = "not_found"

abbrev pub status_failure : String
status_failure = "error"

abbrev pub status_redirect : String
status_redirect = "redirect"

abbrev pub operation_labels : String → String → List (String × String)
operation_labels operation status = ("operation", operation) ∷ ("status", status) ∷ []

-- `metrics.count.add`, `metrics.bytes.add` and `metrics.duration.record`.
abbrev pub count_add : ℕ → List (String × String) → List Measurement → List Measurement
count_add n labels log = record { instrument = operation_count; value = n; labels = labels } ∷ log

abbrev pub bytes_add : ℕ → List (String × String) → List Measurement → List Measurement
bytes_add n labels log = record { instrument = operation_bytes; value = n; labels = labels } ∷ log

abbrev pub duration_record : ℕ → List (String × String) → List Measurement → List Measurement
duration_record n labels log =
    record { instrument = operation_duration; value = n; labels = labels } ∷ log
