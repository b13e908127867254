-- ===== src/Gossip/Urls.antt =====
-- That a node keeps its URLs while it starts.
use percas.Base.{ℕ, ◌≡◌, inl, inr, sym, ap, Bool-cases, Option}
use percas.Text.{Url}
use percas.Node.{NodeInfo, NodeJson, advance_incarnation as advanced}
use percas.Bytes.{AsRef, Mur3}
use percas.Member.{is_dead}
use percas.Exec.{Keeps, pure-Keeps, bind-Keeps}
use percas.Gossip.{GossipMessage, World, pure, receive, handle_message, advance_incarnation}
use percas.Gossip.Invariant.{advance_incarnation_inv, receive-same}
use percas.Gossip.Tasks.{start, rebuild_ring}
use percas.Gossip.Chain.{start-Keeps}

pub record IsAt (data_url ctrl_url : Url) (n : NodeInfo) : Type 0 where
  pub data_same : n.advertise_data_url ≡ data_url
  pub ctrl_same : n.advertise_ctrl_url ≡ ctrl_url

pub advanced-IsAt :
    (data_url ctrl_url : Url) (n : NodeInfo)
    → IsAt data_url ctrl_url n
    → IsAt data_url ctrl_url (advanced n)
unfolding advanced
advanced-IsAt data_url ctrl_url n h = record { data_same = h.data_same; ctrl_same = h.ctrl_same }

module _ ⦃json : NodeJson⦄ (data_url ctrl_url : Url) where
  abbrev pub StaysAt : World → Type 0
  StaysAt w = IsAt data_url ctrl_url w.state.current_node

  advance-StaysAt : Keeps StaysAt advance_incarnation
  advance-StaysAt w w' a h e =
      rw (advance_incarnation_inv w w' a e).0
        (advanced-IsAt data_url ctrl_url w.state.current_node h)

  handle_message-StaysAt :
      (now : ℕ) (message : GossipMessage) → Keeps StaysAt (handle_message now message)
  unfolding handle_message
  handle_message-StaysAt now message w w' a h e =
      let g = (receive w.state now message).0 in
      let kept : IsAt data_url ctrl_url g.current_node =
        rw (receive-same w.state now message).1 h in
      elim (Bool-cases (is_dead g.membership g.current_node.node_id)) [
        | inl yes_dead ↦
            bind-Keeps StaysAt advance_incarnation (λ _. pure _) advance-StaysAt
              (λ _. pure-Keeps StaysAt (receive w.state now message).1) (record w { state = g }) w'
              a kept (rw yes_dead at e)
        | inr alive ↦ rw (ap (λ p. p.0) (sym (rw alive at e))) kept
      ]

  pub start-StaysAt :
      ⦃a : AsRef ℕ⦄ ⦃m : Mur3⦄ (reply : Url → GossipMessage → Option GossipMessage) (clock : ℕ → ℕ)
      (now : ℕ)
      → Keeps StaysAt (start reply clock now)
  unfolding rebuild_ring
  start-StaysAt reply clock now =
      start-Keeps StaysAt handle_message-StaysAt (λ now w w' x h e. rw (← ap (λ p. p.0) e) h) reply
        clock now (λ w w' x h e. rw (← ap (λ p. p.0) e) h)
