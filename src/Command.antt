-- ===== src/Command.antt =====
-- cmd/percas/src/start.rs: how a node is started and run. The runtimes of a node are made first.
pub mod Started
pub mod Run
pub mod Launch
use percas.Base.{
  ℕ, ◌*◌, List, Option, Bool, true, if◌then◌else◌, Result, ok, err, Outcome, returned, panicked,
}
use percas.Text.{String, Url, FilePath}
use percas.Bytes.{AsRef, Mur3}
use percas.Node.{NodeJson}
use percas.Config.{Config}
use percas.Gossip.{GossipState}
use percas.System.Runtime.{
  Tokio, Runtime, Builder, new, worker_threads, max_blocking_threads, build, build_from,
  make_runtime,
}
use percas.Engine.Open.{FoyerBuilder, FoyerEngine, EngineError, try_new}
use percas.Exec.{Call, ◌>>=◌, ◌>>◌, pure, unless_err, or_raise}
use percas.Server.Listen.{TcpAcceptor, Process, Service, Network, make_acceptor_and_advertise_url}
use percas.Server.Serve.{Bootstrap, ServerState, ServerError, start_gossip, start_server}
use percas.Server.Shutdown.{Ends, await_shutdown}

module _ ⦃t : Tokio⦄ where
  abbrev and_blocking : ℕ → Outcome Builder → Outcome Builder
  and_blocking val panicked = panicked
  and_blocking val (returned b) = max_blocking_threads val b

  unfoldable pub make_io_runtime : ℕ → Outcome Runtime
  unfolding new worker_threads max_blocking_threads build
  make_io_runtime num_cpus =
      build_from
        (and_blocking (num_cpus * 2) (worker_threads 4 (new "foyer_io_runtime" "foyer_io_thread")))

  unfoldable pub make_telemetry_runtime : Outcome Runtime
  unfolding make_runtime
  make_telemetry_runtime = make_runtime "telemetry_runtime" "telemetry_thread" 1

  unfoldable pub make_server_runtime : ℕ → Outcome Runtime
  unfolding make_runtime
  make_server_runtime num_cpus = make_runtime "server_runtime" "server_thread" num_cpus

  unfoldable pub make_gossip_runtime : Outcome Runtime
  unfolding make_runtime
  make_gossip_runtime = make_runtime "gossip_runtime" "gossip_thread" 1

-- The errors of `run_server`, by their messages.
pub data Error : Type 0 where
  failed_to_create_data_dir failed_to_start_server fatal_in_server_process failed_to_setup_signal :
      Error

-- `fs::create_dir_all` and `ctrlc::set_handler`: whether they succeed. The number of CPUs.
pub record Host : Type 0 where
  pub create_dir_all : FilePath → Bool
  pub set_handler : Bool
  pub num_cpus : ℕ

module _ ⦃h : Host⦄ ⦃f : FoyerBuilder⦄ ⦃n : Network⦄ ⦃json : NodeJson⦄ ⦃a : AsRef ℕ⦄ ⦃m : Mur3⦄
    ⦃b : Bootstrap⦄ where
  abbrev pub create_dir : FilePath → Call Process (Result (Unit {0}) Error)
  create_dir dir s =
      (s, returned (if h.create_dir_all dir then ok tt else err failed_to_create_data_dir))

  abbrev pub open_engine : Config → Call Process (Result FoyerEngine EngineError)
  open_engine config s = (
    s,
    try_new config.storage.data_dir config.storage.memory_capacity config.storage.disk_capacity
        config.storage.disk_throttle h.num_cpus,
  )

  abbrev pub set_handler : ServerState → Call Process (Result ServerState Error)
  set_handler server s =
      if h.set_handler
      then (record s { handler = true }, returned (ok server))
      else (s, returned (err failed_to_setup_signal))

  -- The gossip and the data server, once the listeners are there.
  abbrev pub start_services :
      Config → ℕ → TcpAcceptor × Url → TcpAcceptor × Url → Call Process (Result ServerState Error)
  start_services config node_id (data_acceptor, data_url) (ctrl_acceptor, ctrl_url) =
      or_raise failed_to_start_server
        (start_gossip config.server node_id ctrl_acceptor data_url ctrl_url)
      >>= unless_err (λ (gossip_state, gossip_futs).
        or_raise fatal_in_server_process
          (start_server data_acceptor data_url ctrl_url gossip_state gossip_futs)
        >>= unless_err set_handler)

  abbrev pub after_data : Config → ℕ → TcpAcceptor × Url → Call Process (Result ServerState Error)
  after_data config node_id data_listener =
      or_raise failed_to_start_server (
        make_acceptor_and_advertise_url config.server.listen_ctrl_addr
          config.server.advertise_ctrl_addr)
      >>= unless_err (start_services config node_id data_listener)

  abbrev pub after_engine : Config → ℕ → Call Process (Result ServerState Error)
  after_engine config node_id =
      or_raise failed_to_start_server (
        make_acceptor_and_advertise_url config.server.listen_data_addr
          config.server.advertise_data_addr)
      >>= unless_err (after_data config node_id)

  abbrev pub after_dir : Config → ℕ → Unit {0} → Call Process (Result ServerState Error)
  after_dir config node_id created =
      or_raise failed_to_start_server (open_engine config)
      >>= unless_err (λ engine. after_engine config node_id)

  -- `run_server` up to the wait for the shutdown.
  unfoldable pub serve : Config → ℕ → Call Process (Result ServerState Error)
  unfolding try_new make_acceptor_and_advertise_url start_gossip start_server
  serve config node_id = create_dir config.server.dir >>= unless_err (after_dir config node_id)

  unfoldable pub run_server : ⦃e : Ends⦄ → Config → ℕ → Call Process (Result (Unit {0}) Error)
  unfolding serve await_shutdown
  run_server config node_id =
      serve config node_id >>= unless_err (λ server. await_shutdown server >> pure (ok tt))
