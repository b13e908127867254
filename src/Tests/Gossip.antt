-- ===== src/Tests/Gossip.antt =====
-- A node that hears of a peer, then of its own death, and routes requests.
use percas.Base.{
  ℕ, List, [], ◌∷◌, Option, none, some, ◌≡◌, ◌≢◌, ◌⊎◌, refl, true, false, ◌<◌, returned, panicked,
  length, if◌then◌else◌, ◌==◌,
}
use percas.Ord.{nat_ord}
use percas.BTreeMap.{get, insert, values}
use percas.Config.{node_file_path}
use percas.Node.{NodeInfo, load, persist, advance_incarnation as advanced}
use percas.Member.{MemberState, alive, dead, update_member, update_all, default, is_dead}
use percas.Member.Map.{IsKeyed, lookup}
use percas.Gossip.{
  GossipMessage, ping, ack, sync, GossipState, World, Exec, handle_message, new, receive, alive_at,
}
use percas.Gossip.Tasks.{mark_dead, remove_dead_members, dead_members, rebuild_ring}
use percas.Gossip.Invariant.{IsSound, Inv}
use percas.Gossip.Total.{handle_message-returned}
use percas.Gossip.Handle.{Heard, handle_message-ping, handle_message-sync}
use percas.Gossip.Removal.{mark_dead_lem, expired, remove_dead_members_lem, after_mark}
use percas.Gossip.Tick.{skip, contact, nth, tick, tick_lem}
use percas.Gossip.Run.{
  message, rebuilt, Reach, start_here, next_step, Reach-Inv, load-Reach, new-Inv,
}
use percas.Tests.Params.{encode, toy_mur3, nat_as_ref, toy_json, toy_jiff, toy_rng, empty_disk}
use percas.Tests.Member.{peer}

abbrev me : NodeInfo
me = record {
  node_id = 1;
  cluster_id = "c";
  advertise_data_url = "http://a/";
  advertise_ctrl_url = "http://a:1/";
  incarnation = 0;
}

abbrev pub started : World
started = record { state = new me [] "d"; files = (persist empty_disk me (node_file_path "d")).0 }

abbrev pub heard : World
heard = (handle_message 5 (ping peer) started).0

pub handled_ping : handle_message 5 (ping peer) started ≡ (heard, returned (some (ack me)))
unfolding handle_message new default is_dead get update_member insert
handled_ping = refl

handle_message-ping_example :
    (some (ack me) ≡ some (ack started.state.current_node))
    × Heard heard.state.membership peer 5
    × (heard.state.ring ≡ started.state.ring)
    × (((is_dead heard.state.membership started.state.current_node.node_id ≡ true)
          × (heard.state.current_node ≡ advanced started.state.current_node))
        ⊎ ((is_dead heard.state.membership started.state.current_node.node_id ≡ false)
            × (heard.state.current_node ≡ started.state.current_node)))
handle_message-ping_example = handle_message-ping started heard 5 peer (some (ack me)) handled_ping

-- The news of the node's own death under a later incarnation.
abbrev own_death : MemberState
own_death = record { info = record me { incarnation = 3 }; status = dead; heartbeat = 2 }

abbrev news : List MemberState
news = own_death ∷ []

abbrev risen : World
risen = (handle_message 6 (sync news) heard).0

abbrev answer : Option GossipMessage
answer = some (sync (values risen.state.membership.members))

handled_sync : handle_message 6 (sync news) heard ≡ (risen, returned answer)
unfolding handle_message new default is_dead get update_member update_all insert
    percas.Gossip.advance_incarnation persist
handled_sync = refl

-- The node moves on to the incarnation 1, below the one it was declared dead under.
risen_incarnation : risen.state.current_node.incarnation ≡ 1
unfolding handle_message new default is_dead get update_member update_all insert
    percas.Gossip.advance_incarnation persist
risen_incarnation = refl

handle_message-sync_example :
    (answer ≡ some (sync (values risen.state.membership.members)))
    × ((risen.state.current_node ≡ heard.state.current_node)
        ⊎ ((risen.state.current_node ≡ advanced heard.state.current_node)
            × ((s : MemberState) × (lookup risen.state.membership heard.state.current_node.node_id
                  ≡ some s)
                × (heard.state.current_node.incarnation < s.info.incarnation))))
handle_message-sync_example = handle_message-sync heard risen 6 news answer handled_sync

pub started-Inv : Inv "d" 1 started
unfolding persist
started-Inv = new-Inv empty_disk me [] "d" refl

-- The node hears of the peer, hears of its own death, and rebuilds the ring.
abbrev pub settled : World
settled = record risen { state = rebuild_ring 7 risen.state }

run : Reach started settled
run =
    next_step
      (next_step (next_step start_here (message 5 (ping peer) (some (ack me)) handled_ping))
        (message 6 (sync news) answer handled_sync))
      (rebuilt 7)

Reach-Inv_example : Inv "d" 1 settled
Reach-Inv_example = Reach-Inv "d" 1 started-Inv run

settled-readable : settled.files.read_fails (node_file_path "d") ≡ false
unfolding handle_message new default is_dead get update_member update_all insert
    percas.Gossip.advance_incarnation persist
settled-readable = refl

load-Reach_example :
    load settled.files (node_file_path "d") "http://x/" "http://y/"
    ≡ returned (
        some (record settled.state.current_node {
          advertise_data_url = "http://x/";
          advertise_ctrl_url = "http://y/";
        }))
load-Reach_example = load-Reach "d" 1 "http://x/" "http://y/" started-Inv run settled-readable

pub settled-IsSound : IsSound settled.state
settled-IsSound = (Reach-Inv "d" 1 started-Inv run).sound

mark_dead_lem_example : lookup (mark_dead heard.state peer).membership 3 ≡ (
    if 3 == 3
    then after_mark peer (lookup heard.state.membership 3)
    else lookup heard.state.membership 3)
mark_dead_lem_example = mark_dead_lem heard.state peer 3

abbrev forgetting : GossipState
forgetting = (remove_dead_members (λ _. 40_000_000_000) risen.state).0

abbrev forgotten : List NodeInfo
forgotten = own_death.info ∷ []

removal : remove_dead_members (λ _. 40_000_000_000) risen.state ≡ (forgetting, returned forgotten)
unfolding handle_message new default is_dead get update_member update_all insert
    percas.Gossip.advance_incarnation persist remove_dead_members dead_members
removal = refl

risen-Keyed : IsKeyed risen.state.membership
risen-Keyed =
    (Reach-Inv "d" 1 started-Inv (
      next_step (next_step start_here (message 5 (ping peer) (some (ack me)) handled_ping))
        (message 6 (sync news) answer handled_sync))).sound.keyed

remove_dead_members_lem_example : lookup forgetting.membership 1 ≡ (
    if expired 40_000_000_000 (lookup risen.state.membership 1)
    then none
    else lookup risen.state.membership 1)
remove_dead_members_lem_example =
    remove_dead_members_lem 40_000_000_000 risen.state forgetting forgotten 1 risen-Keyed removal

tick_lem_example :
    ((heard.state.membership.members ≡ []) × (tick heard.state.membership ≡ panicked))
    ⊎ ((heard.state.membership.members ≢ [])
        × ((i : ℕ) × (id : ℕ) × (member : MemberState) × (toy_rng.random_range
                (length heard.state.membership.members)
              ≡ some i)
            × (nth heard.state.membership.members i ≡ some (id, member))
            × (((member.status ≡ dead) × (tick heard.state.membership ≡ returned skip))
                ⊎ ((member.status ≡ alive)
                    × (tick heard.state.membership ≡ returned (contact member.info))))))
tick_lem_example = tick_lem heard.state.membership

writable : heard.files.write_fails (node_file_path heard.state.dir) ≡ false
unfolding handle_message new default is_dead get update_member insert persist
writable = refl

handle_message-returned_example :
    (w' : World) × (handle_message 6 (sync news) heard
      ≡ (w', returned (receive heard.state 6 (sync news)).1))
handle_message-returned_example =
    handle_message-returned heard 6 (sync news) writable (λ info. (encode info, refl))
