-- ===== src/Tests/Proxy.antt =====
-- Routing over two members.
use percas.Base.{
  ℕ, List, [], ◌∷◌, Option, none, some, ◌≡◌, ◌≢◌, ◌↔◌, ◌⊎◌, inl, inr, refl, Bool, true, false,
}
use percas.Ord.{nat_ord}
use percas.Member.{MemberState, is_dead, update_member, update_all}
use percas.Member.Map.{lookup}
use percas.Ring.{default_vnode_count}
use percas.Ring.Points.{Owns}
use percas.Ring.Nodes.{Placed}
use percas.Gossip.{GossipState, handle_message}
use percas.BTreeMap.{get, insert}
use percas.Gossip.Tasks.{rebuild_ring}
use percas.Proxy.{local, remote_addr, is_alive, destination, route}
use percas.Proxy.Route.{Serves, route-cases, route-agree, rebuild_ring_lem}
use percas.Tests.Params.{toy_mur3, nat_as_ref}
use percas.Tests.Member.{peer}
use percas.Tests.Gossip.{settled, settled-IsSound}

abbrev here_state : GossipState
here_state = settled.state

abbrev there_state : GossipState
there_state = record settled.state { current_node = peer }

abbrev key : List ℕ
key = 4 ∷ 0 ∷ 0 ∷ 0 ∷ 0 ∷ []

route-cases_example :
    (((q id : ℕ) → Owns here_state.ring.nodes q id → is_alive here_state.membership id ≡ false)
      × (route here_state key ≡ local))
    ⊎ ((id : ℕ) × (target : MemberState) × Serves here_state key id target
        × (((id ≡ here_state.current_node.node_id) × (route here_state key ≡ local))
            ⊎ ((id ≢ here_state.current_node.node_id)
                × (route here_state key ≡ remote_addr target.info.advertise_data_url))))
route-cases_example = route-cases here_state key settled-IsSound

rebuild_ring_lem_example :
    (Owns (rebuild_ring 9 here_state).ring.nodes 2770563 3
      ↔ (((s : MemberState) × (lookup here_state.membership 3 ≡ some s))
          ⊎ (3 ≡ here_state.current_node.node_id))
        × Placed {T = ℕ} default_vnode_count 3 2770563)
    × ((rebuild_ring 9 here_state).membership ≡ here_state.membership)
rebuild_ring_lem_example = rebuild_ring_lem 9 here_state 2770563 3 settled-IsSound

sent : route here_state key ≡ remote_addr "http://b/"
unfolding route destination is_alive rebuild_ring handle_message percas.Gossip.new
    percas.Member.default is_dead get update_member update_all insert
    percas.Gossip.advance_incarnation percas.Node.persist percas.Ring.from percas.Ring.default
    percas.Ring.add_nodes percas.Ring.add_node percas.Ring.add_vnodes percas.Ring.range
    percas.Ring.hash_node percas.Ring.hash_key percas.Ring.insert_at percas.Ring.lookup_until
    percas.BTreeMap.range_from percas.BTreeMap.range_to percas.Base.find percas.Base.find_map
    percas.Bytes.to_le_bytes
sent = refl

route-agree_example :
    (id : ℕ) × (target : MemberState) × Serves here_state key id target
    × (target.info.advertise_data_url ≡ "http://b/")
    × (((there_state.current_node.node_id ≡ id) × (route there_state key ≡ local))
        ⊎ ((there_state.current_node.node_id ≢ id)
            × (route there_state key ≡ remote_addr "http://b/")))
route-agree_example =
    route-agree here_state there_state key "http://b/" settled-IsSound refl refl sent
