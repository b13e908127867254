-- ===== src/Telemetry.antt =====
-- crates/server/src/telemetry.rs: where metrics, traces and logs go. The crates that carry them are
-- parameters.
pub mod Outcomes
use percas.Base.{
  ℕ, List, [], ◌∷◌, ◌++◌, Option, none, some, Bool, if◌then◌else◌, returned, panicked,
}
use percas.Text.{String}
use percas.Config.{
  MetricsConfig, TracesConfig, TelemetryConfig, LogsConfig, FileAppenderConfig,
  StderrAppenderConfig, OpentelemetryAppenderConfig, OpentelemetryMetricsConfig,
  OpentelemetryTracesConfig,
}
use percas.Exec.{Call, ◌>>=◌, pure}

pub data Append : Type 0 where
  fastrace_event : Append
  file : String → String → Option ℕ → Append
  stderr : Append
  opentelemetry : String → String → Append

-- `diagnostic` of a dispatch: the trace of the record, and the identifier of the node.
pub data Diagnostic : Type 0 where
  fastrace_diagnostic : Diagnostic
  static_diagnostic : ℕ → Diagnostic

-- A dispatch: the text of its filter, the diagnostics in their order, and the appender.
pub record Dispatch : Type 0 where
  pub filter : String
  pub diagnostics : List Diagnostic
  pub append : Append

pub record MeterProvider : Type 0 where
  pub service_name : String
  pub otlp_endpoint : String
  pub push_interval : ℕ

pub record Reporter : Type 0 where
  pub service_name : String
  pub otlp_endpoint : String

-- The global sinks of the process.
pub record Sinks : Type 0 where
  pub meter_provider : Option MeterProvider
  pub reporter : Option Reporter
  pub logger : Option (List Dispatch)

-- What is done when the guards are dropped.
pub data Guard : Type 0 where
  shutdown_provider flush_reporter : Guard

-- Which exporters, files and filters can be built, and the variable `RUST_LOG`, `none` where it is not set
-- or no text.
pub record Environment : Type 0 where
  pub metric_exporter : String → Bool
  pub span_exporter : String → Bool
  pub log_exporter : String → Bool
  pub file_builder : String → FileAppenderConfig → Bool
  pub try_from_spec : String → Bool
  pub rust_log : Option String

-- `expect`, or another panic.
abbrev pub expect : {A : Type 0} → Bool → A → Call Sinks A
expect builds value s = if builds then (s, returned value) else (s, panicked)

module _ ⦃e : Environment⦄ where
  abbrev pub set_meter_provider :
      String → OpentelemetryMetricsConfig → Unit {0} → Call Sinks (List Guard)
  set_meter_provider service_name config exporter s = (
    record s {
      meter_provider = some (record {
        service_name = service_name;
        otlp_endpoint = config.otlp_endpoint;
        push_interval = config.push_interval;
      });
    },
    returned (shutdown_provider ∷ []),
  )

  unfoldable pub init_metrics : String → MetricsConfig → Call Sinks (List Guard)
  init_metrics service_name config = elim config.opentelemetry [
    | none ↦ pure []
    | some otlp ↦
        expect (e.metric_exporter otlp.otlp_endpoint) tt >>= set_meter_provider service_name otlp
  ]

  abbrev pub set_reporter : String → OpentelemetryTracesConfig → Unit {0} → Call Sinks (List Guard)
  set_reporter service_name config exporter s = (
    record s {
      reporter =
          some (record { service_name = service_name; otlp_endpoint = config.otlp_endpoint });
    },
    returned (flush_reporter ∷ []),
  )

  unfoldable pub init_traces : String → TracesConfig → Call Sinks (List Guard)
  init_traces service_name config = elim config.opentelemetry [
    | none ↦ pure []
    | some otlp ↦ expect (e.span_exporter otlp.otlp_endpoint) tt >>= set_reporter service_name otlp
  ]

  unfoldable pub make_rust_log_filter : String → Call Sinks String
  make_rust_log_filter filter = expect (e.try_from_spec filter) filter

  -- The diagnostics of every dispatch but that of the traces.
  abbrev pub dispatch : ℕ → Append → String → Call Sinks (List Dispatch)
  dispatch node_id append filter = pure (
      record {
        filter = filter;
        diagnostics = fastrace_diagnostic ∷ static_diagnostic node_id ∷ [];
        append = append;
      }
      ∷ [])

  abbrev pub dispatch_traces : Option TracesConfig → Call Sinks (List Dispatch)
  dispatch_traces none = pure []
  dispatch_traces (some traces) = make_rust_log_filter traces.capture_log_filter >>= λ filter.
      pure (record { filter = filter; diagnostics = []; append = fastrace_event } ∷ [])

  abbrev pub dispatch_file : String → ℕ → Option FileAppenderConfig → Call Sinks (List Dispatch)
  dispatch_file service_name node_id none = pure []
  dispatch_file service_name node_id (some config) =
      expect (e.file_builder service_name config) (file config.dir service_name config.max_files)
      >>= λ append. make_rust_log_filter config.filter >>= dispatch node_id append

  -- `RUST_LOG` comes before the configuration.
  abbrev pub dispatch_stderr :
      ℕ → Option String → Option StderrAppenderConfig → Call Sinks (List Dispatch)
  dispatch_stderr node_id (some filter) config =
      make_rust_log_filter filter >>= dispatch node_id stderr
  dispatch_stderr node_id none none = pure []
  dispatch_stderr node_id none (some config) =
      make_rust_log_filter config.filter >>= dispatch node_id stderr

  abbrev pub dispatch_opentelemetry :
      String → ℕ → Option OpentelemetryAppenderConfig → Call Sinks (List Dispatch)
  dispatch_opentelemetry service_name node_id none = pure []
  dispatch_opentelemetry service_name node_id (some config) =
      make_rust_log_filter config.filter >>= λ filter.
      expect (e.log_exporter config.otlp_endpoint) (opentelemetry service_name config.otlp_endpoint)
      >>= λ append. dispatch node_id append filter

  -- `try_apply`, whose error, that a logger is set already, is ignored.
  abbrev pub try_apply : List Dispatch → Call Sinks (Unit {0})
  try_apply dispatches s = elim s.logger [
    | none ↦ (record s { logger = some dispatches }, returned tt)
    | some set ↦ (s, returned tt)
  ]

  unfoldable pub init_logs : String → ℕ → TelemetryConfig → Call Sinks (List Guard)
  unfolding make_rust_log_filter
  init_logs service_name node_id config = dispatch_traces config.traces >>= λ traces.
      dispatch_file service_name node_id config.logs.file >>= λ files.
      dispatch_stderr node_id e.rust_log config.logs.stderr >>= λ errors.
      dispatch_opentelemetry service_name node_id config.logs.opentelemetry >>= λ others.
      try_apply (traces ++ (files ++ (errors ++ others))) >>= λ _. pure []

  abbrev pub if_some :
      {A : Type 0} → (A → Call Sinks (List Guard)) → Option A → Call Sinks (List Guard)
  if_some f none = pure []
  if_some f (some config) = f config

  unfoldable pub init : String → ℕ → TelemetryConfig → Call Sinks (List Guard)
  unfolding init_metrics init_traces init_logs
  init service_name node_id config =
      if_some (init_metrics service_name) config.metrics >>= λ metrics.
      if_some (init_traces service_name) config.traces >>= λ traces.
      init_logs service_name node_id config >>= λ logs. pure (metrics ++ (traces ++ logs))
