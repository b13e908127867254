-- ===== src/Command/Launch.antt =====
-- cmd/percas/src/start.rs: `CommandStart::run`.
use percas.Base.{
  ℕ, List, Option, none, some, unwrap_or, Result, ok, err, Outcome, returned, panicked,
}
use percas.Text.{String}
use percas.Bytes.{AsRef, Mur3}
use percas.Node.{NodeJson}
use percas.Config.Load.{Toml, LoadConfigResult, load_config}
use percas.System.Runtime.{Tokio}
use percas.Engine.Open.{FoyerBuilder}
use percas.Exec.{Call, ◌>>=◌, unless_err}
use percas.Telemetry.{Environment, Sinks, init}
use percas.Server.Listen.{Process, Network}
use percas.Server.Serve.{Bootstrap}
use percas.Server.Shutdown.{Ends}
use percas.Command.{
  Error, Host, make_io_runtime, make_telemetry_runtime, make_server_runtime, make_gossip_runtime,
  run_server,
}

-- The process with its sinks.
pub record Launched : Type 0 where
  pub sinks : Sinks
  pub process : Process

-- The errors of `run`: those of `load_config`, and those of `run_server`.
pub data RunError : Type 0 where
  not_loaded : RunError
  not_run : Error → RunError

abbrev pub with_sinks : {A : Type 0} → Launched → Sinks × Outcome A → Launched × Outcome A
with_sinks s (sinks, result) = (record s { sinks = sinks }, result)

abbrev pub on_sinks : {A : Type 0} → Call Sinks A → Call Launched A
on_sinks m s = with_sinks s (m s.sinks)

abbrev pub as_run : Result (Unit {0}) Error → Result (Unit {0}) RunError
as_run (ok done) = ok tt
as_run (err e) = err (not_run e)

abbrev pub with_process :
    Launched
    → Process × Outcome (Result (Unit {0}) Error)
    → Launched × Outcome (Result (Unit {0}) RunError)
with_process s (process, returned result) =
    (record s { process = process }, returned (as_run result))
with_process s (process, panicked) = (record s { process = process }, panicked)

abbrev pub on_process :
    Call Process (Result (Unit {0}) Error) → Call Launched (Result (Unit {0}) RunError)
on_process m s = with_process s (m s.process)

abbrev pub finished : {A : Type 0} → Outcome A → Call Launched A
finished result s = (s, result)

abbrev pub loaded : Outcome (Option LoadConfigResult) → Outcome (Result LoadConfigResult RunError)
loaded panicked = panicked
loaded (returned none) = returned (err not_loaded)
loaded (returned (some result)) = returned (ok result)

module _ ⦃t : Toml⦄ ⦃k : Tokio⦄ ⦃v : Environment⦄ ⦃h : Host⦄ ⦃f : FoyerBuilder⦄ ⦃n : Network⦄
    ⦃json : NodeJson⦄ ⦃a : AsRef ℕ⦄ ⦃m : Mur3⦄ ⦃b : Bootstrap⦄ ⦃e : Ends⦄ where
  -- `content` is what the configuration file holds, `vars` the variables of the environment; `node_id` is new.
  unfoldable pub run :
      Option String
      → Option (List (String × String))
      → Option String
      → ℕ
      → Call Launched (Result (Unit {0}) RunError)
  unfolding load_config make_telemetry_runtime init make_io_runtime make_server_runtime
      make_gossip_runtime run_server
  run content vars service_name node_id =
      finished (loaded (load_config content vars))
      >>= unless_err (λ result. finished make_telemetry_runtime >>= λ telemetry_runtime.
          on_sinks (init (unwrap_or service_name "percas") node_id result.config.telemetry)
          >>= λ drop_guards. finished (make_io_runtime h.num_cpus) >>= λ io_runtime.
              finished (make_server_runtime h.num_cpus) >>= λ server_runtime.
              finished make_gossip_runtime >>= λ gossip_runtime.
              on_process (run_server result.config node_id))
