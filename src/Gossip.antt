-- ===== src/Gossip.antt =====
-- crates/gossip/src/gossip.rs: the state of the gossip protocol and how a message changes it.
--
-- A node's gossip state lives in `ArcSwap` cells. No handler waits between its load of a cell and its
-- store, and the gossip runtime has one worker thread (`make_gossip_runtime` of
-- cmd/percas/src/start.rs), so each handler is one step on the state. A reading of the clock is an
-- argument.
pub mod Bootstrap
pub mod Chain
pub mod Urls
pub mod Tasks
pub mod Tick
pub mod Invariant
pub mod Keeps
pub mod Removal
pub mod Run
pub mod Handle
pub mod Total
pub mod Exchange
pub mod Loops
use percas.Base.{
  ℕ, List, [], ◌∷◌, Option, none, some, Bool, true, false, if◌then◌else◌, Outcome, returned,
  panicked,
}
use percas.Text.{Url, FilePath}
use percas.FileSystem.{FileSystem}
use percas.Config.{node_file_path}
use percas.Node.{NodeInfo, NodeJson, persist, advance_incarnation as advanced}
use percas.Member.{MemberState, Membership, alive, update_member, update_all, is_dead, default}
use percas.BTreeMap.{values}
pub use percas.Exec.{continue, ◌>>=◌, ◌>>◌, pure}
use percas.Exec.{Call}
use percas.Ring.{HashRing}
use percas.Ring

pub data GossipMessage : Type 0 where
  ping : NodeInfo → GossipMessage
  ack : NodeInfo → GossipMessage
  sync : List MemberState → GossipMessage

pub record GossipState : Type 0 where
  pub dir : FilePath
  pub initial_peers : List Url
  pub current_node : NodeInfo
  pub membership : Membership
  pub ring : HashRing ℕ

-- The gossip state of a running process with the files that it can reach.
pub record World : Type 0 where
  pub state : GossipState
  pub files : FileSystem

unfoldable pub new : NodeInfo → List Url → FilePath → GossipState
new current_node initial_peers dir = record {
  dir = dir;
  initial_peers = initial_peers;
  current_node = current_node;
  membership = default;
  ring = Ring.default;
}

abbrev pub Exec : Type 0 → Type 0
Exec = Call World

-- `MemberState { info, status: Alive, heartbeat: now }`.
abbrev pub alive_at : NodeInfo → ℕ → MemberState
alive_at info now = record { info = info; status = alive; heartbeat = now }

-- `update_member` on a clone of the membership, stored.
abbrev pub observe : GossipState → MemberState → GossipState
observe g member = record g { membership = (update_member g.membership member).0 }

-- The membership that the arm `Sync` stores.
abbrev pub synced : GossipState → ℕ → List MemberState → Membership
synced g now members =
    (update_member (update_all g.membership members) (alive_at g.current_node now)).0

-- The `match` of `handle_message`.
unfoldable pub receive : GossipState → ℕ → GossipMessage → GossipState × Option GossipMessage
receive g now (ping info) = (observe g (alive_at info now), some (ack g.current_node))
receive g now (ack info) = (observe g (alive_at info now), none)
receive g now (sync members) = (
  record g { membership = synced g now members },
  some (sync (values (synced g now members).members)),
)

module _ ⦃json : NodeJson⦄ where
  -- What `advance_incarnation` stores once `persist` has ended.
  abbrev pub advance_end :
      World → NodeInfo → FileSystem × Outcome (Unit {0}) → World × Outcome (Unit {0})
  advance_end w current (files, returned u) =
      (record { state = record w.state { current_node = current }; files = files }, returned tt)
  advance_end w current (files, panicked) = (record w { files = files }, panicked)

  unfoldable pub advance_incarnation : Exec (Unit {0})
  unfolding advanced
  advance_incarnation w =
      let current = advanced w.state.current_node in
      advance_end w current (persist w.files current (node_file_path w.state.dir))

  unfoldable pub handle_message : ℕ → GossipMessage → Exec (Option GossipMessage)
  unfolding receive
  handle_message now message w =
      let (g, result) = receive w.state now message in
      let w' : World = record w { state = g } in
      if is_dead g.membership g.current_node.node_id
      then (advance_incarnation >> pure result) w'
      else (w', returned result)
