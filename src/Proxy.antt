-- ===== src/Proxy.antt =====
-- crates/gossip/src/proxy.rs: where a request for a key goes. A key is given by its bytes.
pub mod Route
use percas.Base.{ℕ, List, Option, none, some, Bool, true, false, if◌then◌else◌, ◌==◌}
use percas.Text.{Url}
use percas.Ord.{nat_ord}
use percas.Bytes.{Mur3}
use percas.BTreeMap.{get}
use percas.Member.{MemberState, Membership, alive, status_eq}
use percas.Ring.{lookup_until}
use percas.Gossip.{GossipState}

pub data RouteDest : Type 0 where
  local : RouteDest
  remote_addr : Url → RouteDest

-- The predicate that `route` gives to `lookup_until`.
unfoldable pub is_alive : Membership → ℕ → Bool
is_alive m id = elim (get m.members id) [
  | none ↦ false
  | some member ↦ status_eq member.status alive
]

-- What `route` answers for the node that `lookup_until` found.
unfoldable pub destination : GossipState → ℕ → RouteDest
destination g id = elim (get g.membership.members id) [
  | none ↦ local
  | some target ↦
      if target.info.node_id == g.current_node.node_id
      then local
      else remote_addr target.info.advertise_data_url
]

unfoldable pub route : ⦃m : Mur3⦄ → GossipState → List ℕ → RouteDest
unfolding destination
route g key = elim (lookup_until g.ring key (is_alive g.membership)) [
  | none ↦ local
  | some id ↦ destination g id
]
