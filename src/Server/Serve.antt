-- ===== src/Server/Serve.antt =====
-- crates/server/src/server.rs: `start_gossip`, `start_server` and the shutdown. A server that is spawned
-- answers from then on; what it does is in the handlers.
pub mod Established
use percas.Base.{
  ℕ, List, [], ◌∷◌, ◌++◌, Option, none, some, Bool, true, false, Result, ok, err, Outcome, returned,
  panicked,
}
use percas.Text.{String, Url}
use percas.Bytes.{AsRef, Mur3}
use percas.Config.{SocketAddr, ServerConfig}
use percas.FileSystem.{FileSystem}
use percas.Node.{NodeInfo, NodeJson}
use percas.Gossip.{GossipMessage, GossipState, World, new}
use percas.Gossip.Tasks.{start}
use percas.Exec.{Call, ◌>>=◌, ◌>>◌, pure}
use percas.Server.Listen.{
  TcpAcceptor, Process, Service, gossip_server, ping_task, anti_entropy_task, rebuild_ring_task,
  remove_dead_members_task, data_server, report_metrics,
}
use percas.Server.Start.{current_node}

-- What the network answers while the node bootstraps, and the clock.
pub record Bootstrap : Type 0 where
  pub reply : Url → GossipMessage → Option GossipMessage
  pub clock : ℕ → ℕ
  pub now : ℕ

pub data ServerError : Type 0 where
  failed_to_start_gossip : ServerError

-- `rt.spawn`.
abbrev pub spawn : Service → Call Process (Unit {0})
spawn service s = (record s { spawned = service ∷ s.spawned }, returned tt)

pub record ServerState : Type 0 where
  pub advertise_data_url : Url
  pub advertise_ctrl_url : Url
  pub server_fut : Service
  pub gossip_futs : List Service
  pub shutdown_tx_actions : List Service
  -- The state that the middleware and the handlers share.
  pub gossip_state : GossipState

-- The tasks that `GossipState::start` spawns, in this order.
abbrev pub gossip_tasks : List Service
gossip_tasks = ping_task ∷ anti_entropy_task ∷ rebuild_ring_task ∷ remove_dead_members_task ∷ []

abbrev pub spawn_all : List Service → Call Process (Unit {0})
spawn_all [] = pure tt
spawn_all (service ∷ rest) = spawn service >> spawn_all rest

module _ ⦃json : NodeJson⦄ ⦃a : AsRef ℕ⦄ ⦃m : Mur3⦄ ⦃b : Bootstrap⦄ where
  abbrev pub with_files : {A : Type 0} → Process → FileSystem × Outcome A → Process × Outcome A
  with_files s (files, result) = (record s { files = files }, result)

  -- The node of this process, from its file or new.
  abbrev pub identify : ServerConfig → ℕ → Url → Url → Call Process NodeInfo
  identify config node_id data_url ctrl_url s =
      with_files s (current_node s.files config.dir node_id config.cluster_id data_url ctrl_url)

  -- What `GossipState::start` does before it spawns its tasks.
  abbrev pub started :
      Process → World × Outcome Bool → Process × Outcome (Result GossipState ServerError)
  started s (w, panicked) = (record s { files = w.files }, panicked)
  started s (w, returned true) = (record s { files = w.files }, returned (ok w.state))
  started s (w, returned false) =
      (record s { files = w.files }, returned (err failed_to_start_gossip))

  abbrev pub bootstrap : GossipState → Call Process (Result GossipState ServerError)
  bootstrap g s = started s (start b.reply b.clock b.now (record { state = g; files = s.files }))

  -- The state, and the futures of the gossip.
  abbrev pub with_tasks :
      Result GossipState ServerError
      → Call Process (Result (GossipState × List Service) ServerError)
  with_tasks (err e) s = (s, returned (err e))
  with_tasks (ok g) s = (spawn_all gossip_tasks >> pure (ok (g, gossip_server ∷ gossip_tasks))) s

  unfoldable pub start_gossip :
      ServerConfig
      → ℕ
      → TcpAcceptor
      → Url
      → Url
      → Call Process (Result (GossipState × List Service) ServerError)
  unfolding current_node new start
  start_gossip config node_id acceptor data_url ctrl_url =
      identify config node_id data_url ctrl_url >>= λ node.
      spawn gossip_server >> (bootstrap (new node config.initial_peers config.dir) >>= with_tasks)

unfoldable pub start_server :
    TcpAcceptor
    → Url
    → Url
    → GossipState
    → List Service
    → Call Process (Result ServerState ServerError)
start_server acceptor data_url ctrl_url gossip_state gossip_futs =
    spawn data_server
    >> (spawn report_metrics
        >> pure (
            ok (record {
              advertise_data_url = data_url;
              advertise_ctrl_url = ctrl_url;
              server_fut = data_server;
              gossip_futs = gossip_futs;
              shutdown_tx_actions = report_metrics ∷ [];
              gossip_state = gossip_state;
            })))
