-- ===== src/Gossip/Keeps.antt =====
-- That every task of gossip.rs keeps the invariant of a running node.
use percas.Base.{
  ℕ, List, [], ◌∷◌, Option, none, some, Outcome, returned, panicked, ◌≡◌, inl, inr, refl, sym, ap,
  Option-cases,
}
use percas.Text.{Url, FilePath}
use percas.Node.{NodeInfo, NodeJson}
use percas.Member.{Membership, remove_member}
use percas.Member.Map.{IsKeyed, update_member-IsKeyed, remove_member-IsKeyed}
use percas.Ord.{nat_ord}
use percas.BTreeMap.{get}
use percas.Bytes.{AsRef, Mur3}
use percas.Ring.Nodes.{from-IsValid}
use percas.Gossip.{GossipMessage, ping, ack, sync, GossipState}
use percas.Gossip.Tasks.{
  Jiff, mark_dead, remove_all, remove_dead_members, ping_end, sync_end, rebuild_ring,
  fast_bootstrap, modify, dead_members,
}
use percas.Gossip.Chain.{handled-Keeps, fast_bootstrap-Keeps as any_fast_bootstrap-Keeps}
use percas.Gossip.Invariant.{IsSound, Inv, Keeps, Inv-set_state, handle_message-Keeps}
use percas.BTreeMap.{values}

pub mark_dead-IsSound : (g : GossipState) (peer : NodeInfo) → IsSound g → IsSound (mark_dead g peer)
unfolding mark_dead
mark_dead-IsSound g peer s = elim (Option-cases (get g.membership.members peer.node_id)) [
  | inl e ↦ rw (e, mark_dead) s
  | inr (m, e) ↦
      rw (e, mark_dead)
        (record { keyed = update_member-IsKeyed g.membership _ s.keyed; ring = s.ring })
]

-- `mark_dead` changes the membership alone.
pub mark_dead-same :
    (g : GossipState) (peer : NodeInfo)
    → ((mark_dead g peer).dir ≡ g.dir) × ((mark_dead g peer).current_node ≡ g.current_node)
unfolding mark_dead
mark_dead-same g peer = elim (Option-cases (get g.membership.members peer.node_id)) [
  | inl e ↦ rw (e, mark_dead) (refl, refl)
  | inr (m, e) ↦ rw (e, mark_dead) (refl, refl)
]

remove_all-IsKeyed :
    (m : Membership) (found : List NodeInfo) → IsKeyed m → IsKeyed (remove_all m found)
unfolding remove_all
remove_all-IsKeyed m [] k = k
remove_all-IsKeyed m (x ∷ rest) k =
    remove_all-IsKeyed (remove_member m x.node_id) rest (remove_member-IsKeyed m x.node_id k)

module _ ⦃jiff : Jiff⦄ where
  pub remove_dead-IsSound :
      (clock : ℕ → ℕ) (g : GossipState) → IsSound g → IsSound (remove_dead_members clock g).0
  unfolding remove_dead_members
  remove_dead-IsSound clock g s = go (dead_members clock 0 (values g.membership.members)) refl
    where
      go :
          (r : Outcome (List NodeInfo))
          → dead_members clock 0 (values g.membership.members) ≡ r
          → IsSound (remove_dead_members clock g).0
      go panicked e = rw (e, remove_dead_members) s
      go (returned found) e =
          rw (e, remove_dead_members)
            (record { keyed = remove_all-IsKeyed g.membership found s.keyed; ring = s.ring })

  pub remove_dead-same :
      (clock : ℕ → ℕ) (g : GossipState)
      → ((remove_dead_members clock g).0.dir ≡ g.dir)
        × ((remove_dead_members clock g).0.current_node ≡ g.current_node)
  unfolding remove_dead_members
  remove_dead-same clock g = go (dead_members clock 0 (values g.membership.members)) refl
    where
      go :
          (r : Outcome (List NodeInfo))
          → dead_members clock 0 (values g.membership.members) ≡ r
          → ((remove_dead_members clock g).0.dir ≡ g.dir)
            × ((remove_dead_members clock g).0.current_node ≡ g.current_node)
      go panicked e = rw (e, remove_dead_members) (refl, refl)
      go (returned found) e = rw (e, remove_dead_members) (refl, refl)

module _ ⦃a : AsRef ℕ⦄ ⦃m : Mur3⦄ where
  pub rebuild_ring-IsSound : (now : ℕ) (g : GossipState) → IsSound g → IsSound (rebuild_ring now g)
  unfolding rebuild_ring
  rebuild_ring-IsSound now g s = record { keyed = s.keyed; ring = from-IsValid _ }

  pub rebuild_ring-same :
      (now : ℕ) (g : GossipState)
      → ((rebuild_ring now g).dir ≡ g.dir) × ((rebuild_ring now g).current_node ≡ g.current_node)
  unfolding rebuild_ring
  rebuild_ring-same now g = (refl, refl)

module _ ⦃json : NodeJson⦄ (dir : FilePath) (id : ℕ) where
  pub modify-Keeps :
      (f : GossipState → GossipState)
      → ((g : GossipState) → IsSound g → IsSound (f g))
      → ((g : GossipState) → ((f g).dir ≡ g.dir) × ((f g).current_node ≡ g.current_node))
      → Keeps dir id (modify f)
  modify-Keeps f s same w w' a v e =
      rw (ap (λ p. p.0) (sym e))
        (Inv-set_state dir id w (f w.state) v (s w.state v.sound) (same w.state).0 (same w.state).1)

  mark_dead-Keeps : (peer : NodeInfo) → Keeps dir id (modify (λ g. mark_dead g peer))
  mark_dead-Keeps peer =
      modify-Keeps (λ g. mark_dead g peer) (λ g s. mark_dead-IsSound g peer s)
        (λ g. mark_dead-same g peer)

  pub ping_end-Keeps :
      (now : ℕ) (peer : NodeInfo) (answer : Option GossipMessage)
      → Keeps dir id (ping_end now peer answer)
  unfolding ping_end
  ping_end-Keeps now peer (some (ack info)) =
      handled-Keeps (Inv dir id) (handle_message-Keeps dir id) now (ack info)
  ping_end-Keeps now peer (some (ping info)) = mark_dead-Keeps peer
  ping_end-Keeps now peer (some (sync members)) = mark_dead-Keeps peer
  ping_end-Keeps now peer none = mark_dead-Keeps peer

  pub sync_end-Keeps :
      (now : ℕ) (peer : NodeInfo) (answer : Option GossipMessage)
      → Keeps dir id (sync_end now peer answer)
  unfolding sync_end
  sync_end-Keeps now peer (some (sync members)) =
      handled-Keeps (Inv dir id) (handle_message-Keeps dir id) now (sync members)
  sync_end-Keeps now peer (some (ping info)) = mark_dead-Keeps peer
  sync_end-Keeps now peer (some (ack info)) = mark_dead-Keeps peer
  sync_end-Keeps now peer none = mark_dead-Keeps peer

  pub fast_bootstrap-Keeps :
      ⦃a : AsRef ℕ⦄ ⦃m : Mur3⦄ (reply : Url → GossipMessage → Option GossipMessage) (clock : ℕ → ℕ)
      → Keeps dir id (fast_bootstrap reply clock)
  fast_bootstrap-Keeps = any_fast_bootstrap-Keeps (Inv dir id) (handle_message-Keeps dir id) (λ now.
      modify-Keeps (rebuild_ring now) (λ g s. rebuild_ring-IsSound now g s)
        (λ g. rebuild_ring-same now g))
