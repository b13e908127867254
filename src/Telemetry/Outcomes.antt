-- ===== src/Telemetry/Outcomes.antt =====
-- How the set-up of the logs ends, against a description without its steps.
use percas.Base.{
  ℕ, List, [], ◌∷◌, ◌++◌, Option, none, some, Bool, true, ◌&&◌, if◌then◌else◌, returned, panicked,
  ◌≡◌, refl, Option-cases, inl, inr, or_else, arith, Outcome,
}
use percas.Text.{String}
use percas.Config.{
  TracesConfig, TelemetryConfig, FileAppenderConfig, StderrAppenderConfig,
  OpentelemetryAppenderConfig,
}
use percas.Telemetry.{
  Environment, Sinks, Dispatch, Append, fastrace_event, file, stderr, opentelemetry,
  fastrace_diagnostic, static_diagnostic, make_rust_log_filter, dispatch_traces, dispatch_file,
  dispatch_stderr, dispatch_opentelemetry, try_apply, init_logs,
}

-- What may be wanted of an appender: whether it can be had, and its dispatch.
pub record Wanted : Type 0 where
  pub usable : Bool
  pub dispatches : List Dispatch

abbrev nothing : Wanted
nothing = record { usable = true; dispatches = [] }

abbrev appends : ℕ → Append → String → List Dispatch
appends node_id append filter =
    record {
      filter = filter;
      diagnostics = fastrace_diagnostic ∷ static_diagnostic node_id ∷ [];
      append = append;
    }
    ∷ []

module _ ⦃e : Environment⦄ where
  abbrev for_traces : Option TracesConfig → Wanted
  for_traces none = nothing
  for_traces (some c) = record {
    usable = e.try_from_spec c.capture_log_filter;
    dispatches =
        record { filter = c.capture_log_filter; diagnostics = []; append = fastrace_event } ∷ [];
  }

  abbrev for_file : String → ℕ → Option FileAppenderConfig → Wanted
  for_file service_name node_id none = nothing
  for_file service_name node_id (some c) = record {
    usable = e.file_builder service_name c && e.try_from_spec c.filter;
    dispatches = appends node_id (file c.dir service_name c.max_files) c.filter;
  }

  -- The filter of the terminal: that of `RUST_LOG`, or the configured one.
  abbrev stderr_filter : Option StderrAppenderConfig → Option String
  stderr_filter none = e.rust_log
  stderr_filter (some c) = or_else e.rust_log (some c.filter)

  abbrev for_stderr : ℕ → Option String → Wanted
  for_stderr node_id none = nothing
  for_stderr node_id (some filter) = record {
    usable = e.try_from_spec filter;
    dispatches = appends node_id stderr filter;
  }

  abbrev for_opentelemetry : String → ℕ → Option OpentelemetryAppenderConfig → Wanted
  for_opentelemetry service_name node_id none = nothing
  for_opentelemetry service_name node_id (some c) = record {
    usable = e.try_from_spec c.filter && e.log_exporter c.otlp_endpoint;
    dispatches = appends node_id (opentelemetry service_name c.otlp_endpoint) c.filter;
  }

  abbrev both : Wanted → Wanted → Wanted
  both v w = record { usable = v.usable && w.usable; dispatches = v.dispatches ++ w.dispatches }

  unfoldable pub wanted : String → ℕ → TelemetryConfig → Wanted
  wanted service_name node_id config = both (for_traces config.traces) (
      both (for_file service_name node_id config.logs.file) (
        both (for_stderr node_id (stderr_filter config.logs.stderr))
          (for_opentelemetry service_name node_id config.logs.opentelemetry)))

  -- A call that only checks.
  abbrev outcome : Wanted → Outcome (List Dispatch)
  outcome w = if w.usable then returned w.dispatches else panicked

  traces-eq :
      (c : Option TracesConfig) (s : Sinks) → dispatch_traces c s ≡ (s, outcome (for_traces c))
  unfolding make_rust_log_filter
  traces-eq none s = refl
  traces-eq (some c) s = ground arith

  file-eq :
      (service_name : String) (node_id : ℕ) (c : Option FileAppenderConfig) (s : Sinks)
      → dispatch_file service_name node_id c s ≡ (s, outcome (for_file service_name node_id c))
  unfolding make_rust_log_filter
  file-eq service_name node_id none s = refl
  file-eq service_name node_id (some c) s = ground arith

  stderr-eq :
      (node_id : ℕ) (r : Option String) (c : Option StderrAppenderConfig) (s : Sinks)
      → e.rust_log ≡ r
      → dispatch_stderr node_id r c s ≡ (s, outcome (for_stderr node_id (stderr_filter c)))
  unfolding make_rust_log_filter
  stderr-eq node_id none none s h = rw h refl
  stderr-eq node_id none (some c) s h = ground (arith, h)
  stderr-eq node_id (some r) none s h = ground (arith, h)
  stderr-eq node_id (some r) (some c) s h = ground (arith, h)

  opentelemetry-eq :
      (service_name : String) (node_id : ℕ) (c : Option OpentelemetryAppenderConfig) (s : Sinks)
      → dispatch_opentelemetry service_name node_id c s
        ≡ (s, outcome (for_opentelemetry service_name node_id c))
  unfolding make_rust_log_filter
  opentelemetry-eq service_name node_id none s = refl
  opentelemetry-eq service_name node_id (some c) s = ground arith

  -- A logger that is set stays.
  abbrev pub applied : List Dispatch → Sinks → Sinks
  applied dispatches s = record s { logger = or_else s.logger (some dispatches) }

  try_apply-eq : (ds : List Dispatch) (s : Sinks) → try_apply ds s ≡ (applied ds s, returned tt)
  try_apply-eq ds s = elim (Option-cases s.logger) [ inl h ↦ rw h refl | inr (set, h) ↦ rw h refl ]

  -- The set-up of the logs panics exactly when an appender that is wanted cannot be had, and then it sets no
  -- logger. Otherwise the logger has the dispatches that are wanted, in their order, unless one was set
  -- before. `RUST_LOG` replaces the configured filter of the terminal, and asks for the terminal without one.
  pub init_logs-eq :
      (service_name : String) (node_id : ℕ) (config : TelemetryConfig) (s : Sinks)
      → init_logs service_name node_id config s ≡ (
          if (wanted service_name node_id config).usable
          then (applied (wanted service_name node_id config).dispatches s, returned [])
          else (s, panicked))
  unfolding init_logs wanted
  init_logs-eq service_name node_id config s = ground (
    arith,
    traces-eq config.traces s,
    file-eq service_name node_id config.logs.file s,
    stderr-eq node_id e.rust_log config.logs.stderr s refl,
    opentelemetry-eq service_name node_id config.logs.opentelemetry s,
    try_apply-eq (wanted service_name node_id config).dispatches s,
  )
