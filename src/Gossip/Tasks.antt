-- ===== src/Gossip/Tasks.antt =====
-- crates/gossip/src/gossip.rs: the background tasks. A task that waits for the network is two steps,
-- the request and what is done with the result of its retries (`with_retry.await`): `none` when every
-- attempt failed.
use percas.Base.{
  ℕ, suc, ◌+◌, ◌*◌, List, [], ◌∷◌, Option, none, some, Bool, true, false, if◌then◌else◌, ltb, leb,
  Outcome, returned, panicked, length,
}
use percas.Text.{Url}
use percas.Node.{NodeInfo, NodeJson}
use percas.Member.{MemberState, Membership, alive, dead, update_member, remove_member, from_iter}
use percas.BTreeMap.{get, keys, values}
use percas.Ord.{nat_ord}
use percas.Bytes.{AsRef, Mur3}
use percas.Ring
use percas.Gossip.{
  GossipMessage, ping, ack, sync, GossipState, Exec, ◌>>◌, pure, alive_at, observe, handle_message,
}

-- Timestamps of the crate `jiff`: adding a duration panics past the greatest timestamp.
pub record Jiff : Type 0 where
  pub timestamp_max : ℕ

abbrev pub default_member_deadline : ℕ
default_member_deadline = 30 * 1_000_000_000

unfoldable pub mark_dead : GossipState → NodeInfo → GossipState
mark_dead g peer = elim (get g.membership.members peer.node_id) [
  | none ↦ g
  | some m ↦ observe g (record { info = peer; status = dead; heartbeat = m.heartbeat })
]

unfoldable pub remove_all : Membership → List NodeInfo → Membership
remove_all m [] = m
remove_all m (x ∷ rest) = remove_all (remove_member m x.node_id) rest

module _ ⦃jiff : Jiff⦄ where
  -- `heartbeat + DEFAULT_MEMBER_DEADLINE`.
  unfoldable pub deadline : ℕ → Outcome ℕ
  deadline heartbeat =
      if leb (heartbeat + default_member_deadline) jiff.timestamp_max
      then returned (heartbeat + default_member_deadline)
      else panicked

  abbrev pub collect : Bool → NodeInfo → Outcome (List NodeInfo) → Outcome (List NodeInfo)
  collect true info (returned rest) = returned (info ∷ rest)
  collect false info (returned rest) = returned rest
  collect _ info panicked = panicked

  -- The `filter_map` of `remove_dead_members`. `clock i` is the i-th reading of the clock, which is
  -- read for dead members only.
  unfoldable pub dead_members : (ℕ → ℕ) → ℕ → List MemberState → Outcome (List NodeInfo)
  unfolding deadline
  dead_members clock i [] = returned []
  dead_members clock i (m ∷ rest) = elim m.status [
    | alive ↦ dead_members clock i rest
    | dead ↦ elim (deadline m.heartbeat) [
      | panicked ↦ panicked
      | returned t ↦ collect (ltb t (clock i)) m.info (dead_members clock (suc i) rest)
    ]
  ]

  unfoldable pub remove_dead_members : (ℕ → ℕ) → GossipState → GossipState × Outcome (List NodeInfo)
  unfolding dead_members remove_all
  remove_dead_members clock g = elim (dead_members clock 0 (values g.membership.members)) [
    | panicked ↦ (g, panicked)
    | returned found ↦ (record g { membership = remove_all g.membership found }, returned found)
  ]

-- The messages that `ping` and `sync` send.
abbrev pub ping_request : GossipState → GossipMessage
ping_request g = ping g.current_node

abbrev pub sync_request : GossipState → GossipMessage
sync_request g = sync (values g.membership.members)

-- A call that changes the gossip state alone and returns.
abbrev pub modify : (GossipState → GossipState) → Exec (Unit {0})
modify f w = (record w { state = f w.state }, returned tt)

module _ ⦃json : NodeJson⦄ where
  -- `ping`, from the result of its retries on.
  unfoldable pub ping_end : ℕ → NodeInfo → Option GossipMessage → Exec (Unit {0})
  ping_end now peer (some (ack info)) = do handle_message now (ack info); pure tt
  ping_end now peer (some (ping info)) = modify (λ g. mark_dead g peer)
  ping_end now peer (some (sync members)) = modify (λ g. mark_dead g peer)
  ping_end now peer none = modify (λ g. mark_dead g peer)

  -- `sync`, from the result of its retries on.
  unfoldable pub sync_end : ℕ → NodeInfo → Option GossipMessage → Exec (Unit {0})
  sync_end now peer (some (sync members)) = do handle_message now (sync members); pure tt
  sync_end now peer (some (ping info)) = modify (λ g. mark_dead g peer)
  sync_end now peer (some (ack info)) = modify (λ g. mark_dead g peer)
  sync_end now peer none = modify (λ g. mark_dead g peer)

  -- The bodies of the two loops of `fast_bootstrap`.
  unfoldable pub bootstrap_ping_end : ℕ → Option GossipMessage → Exec (Unit {0})
  bootstrap_ping_end now (some (ack info)) = do handle_message now (ack info); pure tt
  bootstrap_ping_end now (some (ping info)) = pure tt
  bootstrap_ping_end now (some (sync members)) = pure tt
  bootstrap_ping_end now none = pure tt

  unfoldable pub bootstrap_sync_end : ℕ → Option GossipMessage → Exec (Unit {0})
  bootstrap_sync_end now (some (sync members)) = do handle_message now (sync members); pure tt
  bootstrap_sync_end now (some (ping info)) = pure tt
  bootstrap_sync_end now (some (ack info)) = pure tt
  bootstrap_sync_end now none = pure tt

  -- `reply` is what the network answers, `clock i` the reading at the i-th answer.
  unfoldable pub bootstrap_pings :
      (Url → GossipMessage → Option GossipMessage) → (ℕ → ℕ) → ℕ → List Url → Exec (Unit {0})
  bootstrap_pings reply clock i [] w = (w, returned tt)
  bootstrap_pings reply clock i (peer ∷ rest) w =
      (bootstrap_ping_end (clock i) (reply peer (ping_request w.state))
          >> bootstrap_pings reply clock (suc i) rest)
        w

  unfoldable pub bootstrap_syncs :
      (Url → GossipMessage → Option GossipMessage) → (ℕ → ℕ) → ℕ → List Url → Exec (Unit {0})
  bootstrap_syncs reply clock i [] w = (w, returned tt)
  bootstrap_syncs reply clock i (peer ∷ rest) w =
      (bootstrap_sync_end (clock i) (reply peer (sync_request w.state))
          >> bootstrap_syncs reply clock (suc i) rest)
        w

module _ ⦃a : AsRef ℕ⦄ ⦃m : Mur3⦄ where
  -- The membership is updated in a clone that is not stored.
  unfoldable pub rebuild_ring : ℕ → GossipState → GossipState
  rebuild_ring now g = record g {
    ring = Ring.from (keys (update_member g.membership (alive_at g.current_node now)).0.members);
  }

module _ ⦃json : NodeJson⦄ ⦃a : AsRef ℕ⦄ ⦃m : Mur3⦄ where
  unfoldable pub fast_bootstrap :
      (Url → GossipMessage → Option GossipMessage) → (ℕ → ℕ) → Exec (Unit {0})
  unfolding bootstrap_pings bootstrap_syncs rebuild_ring
  fast_bootstrap reply clock w =
      (do
        bootstrap_pings reply clock 0 w.state.initial_peers
        bootstrap_syncs reply clock (length w.state.initial_peers) w.state.initial_peers
        modify (rebuild_ring (clock (2 * length w.state.initial_peers))))
        w

-- How `start` ends before it spawns the tasks: `false` is the error that no member is known.
module _ ⦃json : NodeJson⦄ ⦃a : AsRef ℕ⦄ ⦃m : Mur3⦄ where
  unfoldable pub start : (Url → GossipMessage → Option GossipMessage) → (ℕ → ℕ) → ℕ → Exec Bool
  unfolding fast_bootstrap
  start reply clock now w =
      (do
        modify (λ g. record g { membership = from_iter (alive_at g.current_node now ∷ []) })
        fast_bootstrap reply clock
        (λ v. (v, returned (elim v.state.membership.members [ [] ↦ false | x ∷ xs ↦ true ]))))
        w
