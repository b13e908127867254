-- ===== src/Server/Shutdown.antt =====
-- crates/server/src/server.rs: `ServerState::await_shutdown`. How each service ends is a parameter.
pub mod Joined
use percas.Base.{List, [], ◌∷◌, Result, ok, err, Outcome, returned, panicked}
use percas.System.Runtime.{JoinError, joined as finished}
use percas.Exec.{Call, ◌>>=◌, ◌>>◌, pure, unless_err}
use percas.Server.Listen.{Process, Service}
use percas.Server.Serve.{ServerState}

-- How a service ends, and in which order some of them do.
pub record Ends : Type 0 where
  pub ends : Service → Result (Result (Unit {0}) (Unit {0})) JoinError
  pub completes : List Service → List Service

-- `shutdown.shutdown()`, and `shutdown.await_shutdown().await`.
abbrev pub stop : Service → Call Process (Unit {0})
stop service s = (record s { stopped = service ∷ s.stopped }, returned tt)

abbrev pub wait_for : Service → Call Process (Unit {0})
wait_for service s = (record s { joined = service ∷ s.joined }, returned tt)

unfoldable pub each : (Service → Call Process (Unit {0})) → List Service → Call Process (Unit {0})
each action [] = pure tt
each action (service ∷ rest) = action service >> each action rest

module _ ⦃e : Ends⦄ where
  -- `.await` of the handle of a task.
  abbrev pub join : Service → Call Process (Result (Unit {0}) (Unit {0}))
  join service s = (record s { joined = service ∷ s.joined }, finished (e.ends service))

  abbrev pub join_until : List Service → Call Process (Result (Unit {0}) (Unit {0}))
  join_until [] = pure (ok tt)
  join_until (service ∷ rest) = join service >>= unless_err (λ _. join_until rest)

  -- `try_join_all` ends at the first error.
  abbrev pub try_join_all : List Service → Call Process (Result (Unit {0}) (Unit {0}))
  try_join_all services = join_until (e.completes services)

  -- From the signal on: the wait for it, `shutdown_rx_server.is_shutdown()`, is over.
  unfoldable pub await_shutdown : ServerState → Call Process (Unit {0})
  unfolding each
  await_shutdown server =
      each stop server.shutdown_tx_actions
      >> (each wait_for server.shutdown_tx_actions
          >> (join server.server_fut >> (try_join_all server.gossip_futs >> pure tt)))
