-- ===== src/Server/Control.antt =====
-- crates/server/src/server.rs: the handlers `gossip` and `fetch_version` of the control server.
use percas.Base.{ℕ, Option, none, some}
use percas.Node.{NodeJson}
use percas.Gossip.{GossipMessage, Exec, ◌>>=◌, pure, handle_message}
use percas.Version.{Build, BuildInfo, build_info}

-- `into_response`: a JSON body, or no body.
pub data Reply {ℓ} (A : Type ℓ) : Type ℓ where
  json : A → Reply A
  empty : Reply A

abbrev pub into_response : Option GossipMessage → Reply GossipMessage
into_response none = empty
into_response (some response) = json response

unfoldable pub gossip : ⦃j : NodeJson⦄ → ℕ → GossipMessage → Exec (Reply GossipMessage)
unfolding handle_message
gossip now msg = handle_message now msg >>= λ response. pure (into_response response)

unfoldable pub fetch_version : ⦃b : Build⦄ → Reply BuildInfo
unfolding build_info
fetch_version = json build_info
