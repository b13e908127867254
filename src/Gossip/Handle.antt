-- ===== src/Gossip/Handle.antt =====
-- What `GossipState::handle_message` does on each message: the reply, the membership that it leaves,
-- and when the node advances its own incarnation.
use percas.Base.{
  ℕ, List, ◌≤◌, ◌<◌, Option, none, some, Bool, true, false, Bool-cases, Outcome, returned, panicked,
  not-returned, returned-injective, subst, ◌≡◌, ◌⊎◌, inl, inr, refl, sym, ap, ◌∙◌, arith, Member,
}
use percas.Ord.{nat_ord}
use percas.BTreeMap.{values}
use percas.Node.{NodeInfo, NodeJson, advance_incarnation as advanced}
use percas.Member.{MemberState, Membership, alive, merge, update_member, update_all, is_dead}
use percas.Member.Map.{lookup, merged, lookup-update_member_self}
use percas.Member.Fresh.{Knows, update_member-Knows, update_all-Knows_old, update_all-Knows_new}
use percas.Gossip.{
  GossipMessage, ping, ack, sync, World, alive_at, receive, handle_message, advance_incarnation,
  ◌>>◌, pure, continue,
}
use percas.Gossip.Invariant.{advance_incarnation_inv, receive-same}

-- The entry that a live observation at `now` leaves: its incarnation is higher than that of the
-- observation, or it is the same, and then it is alive and has been heard of at `now` or later.
pub record Heard (m : Membership) (info : NodeInfo) (now : ℕ) : Type 0 where
  pub entry : MemberState
  pub found : lookup m info.node_id ≡ some entry
  pub live :
      (info.incarnation < entry.info.incarnation)
      ⊎ ((entry.info.incarnation ≡ info.incarnation)
          × (entry.status ≡ alive)
          × (now ≤ entry.heartbeat))

merged-live :
    (old : Option MemberState) (info : NodeInfo) (now : ℕ)
    → let entry = merged old (alive_at info now) in
      (info.incarnation < entry.info.incarnation)
      ⊎ ((entry.info.incarnation ≡ info.incarnation)
          × (entry.status ≡ alive)
          × (now ≤ entry.heartbeat))
unfolding merge
merged-live none info now = inr (refl, refl, omega arith)
merged-live (some current) info now = ground arith

observed-Heard :
    (m : Membership) (info : NodeInfo) (now : ℕ)
    → Heard (update_member m (alive_at info now)).0 info now
observed-Heard m info now =
    let old = lookup m info.node_id in
    record {
      entry = merged old (alive_at info now);
      found = lookup-update_member_self m (alive_at info now);
      live = merged-live old info now;
    }

-- An entry that a live observation left is dead only under a higher incarnation.
dead-Heard :
    (m : Membership) (info : NodeInfo) (now : ℕ)
    → Heard m info now
    → is_dead m info.node_id ≡ true
    → (s : MemberState) × (lookup m info.node_id ≡ some s) × (info.incarnation < s.info.incarnation)
unfolding is_dead
dead-Heard m info now h d = elim h.live [
  | inl higher ↦ (h.entry, h.found, higher)
  | inr same ↦ absurd (ground (arith, h.found, same))
]

module _ ⦃json : NodeJson⦄ where
  -- How a message that returns has ended: the reply and the membership are those of the `match`, and
  -- the node is on its next incarnation exactly if the membership now has it dead.
  pub record Handled (w : World) (now : ℕ) (message : GossipMessage) (w' : World)
      (reply : Option GossipMessage) : Type 0 where
    pub replied : reply ≡ (receive w.state now message).1
    pub stored : w'.state.membership ≡ (receive w.state now message).0.membership
    pub ring_same : w'.state.ring ≡ w.state.ring
    pub identity :
        ((is_dead w'.state.membership w.state.current_node.node_id ≡ true)
          × (w'.state.current_node ≡ advanced w.state.current_node))
        ⊎ ((is_dead w'.state.membership w.state.current_node.node_id ≡ false)
            × (w'.state.current_node ≡ w.state.current_node))

  handled-live :
      (w : World) (now : ℕ) (message : GossipMessage) (w' : World) (reply : Option GossipMessage)
      → let g = (receive w.state now message).0 in
        is_dead g.membership g.current_node.node_id ≡ false
        → handle_message now message w ≡ (w', returned reply)
        → (w' ≡ record w { state = (receive w.state now message).0 })
          × (reply ≡ (receive w.state now message).1)
  unfolding handle_message
  handled-live w now message w' reply d e =
      let f = rw d at e in (sym (ap (λ p. p.0) f), sym (returned-injective (ap (λ p. p.1) f)))

  advance_then :
      (u : World) (result reply : Option GossipMessage) (w' : World)
      → (advance_incarnation >> pure result) u ≡ (w', returned reply)
      → (advance_incarnation u ≡ (w', returned tt)) × (reply ≡ result)
  advance_then u result reply w' e = go (advance_incarnation u) refl e
    where
      go :
          (r : World × Outcome (Unit {0}))
          → advance_incarnation u ≡ r
          → continue (λ _. pure result) r ≡ (w', returned reply)
          → (advance_incarnation u ≡ (w', returned tt)) × (reply ≡ result)
      go (v, returned a) em er = (
        em ∙ (λ i. (ap (λ p. p.0) er i, returned tt)),
        sym (returned-injective (ap (λ p. p.1) er)),
      )
      go (v, panicked) em er = absurd (not-returned (ap (λ p. p.1) er))

  -- A handled message that returned has one of the two ends.
  pub handle_message-Handled :
      (w : World) (now : ℕ) (message : GossipMessage) (w' : World) (reply : Option GossipMessage)
      → handle_message now message w ≡ (w', returned reply)
      → Handled w now message w' reply
  unfolding handle_message
  handle_message-Handled w now message w' reply e =
      let g = (receive w.state now message).0 in
      let same = receive-same w.state now message in
      let id_of = λ (b : Bool) (d : is_dead g.membership g.current_node.node_id ≡ b).
        subst (λ (n : NodeInfo). is_dead g.membership n.node_id ≡ b) same.1 d in
      elim (Bool-cases (is_dead g.membership g.current_node.node_id)) [
        | inr d ↦
            let (s, r) = handled-live w now message w' reply d e in
            record {
              replied = r;
              stored = rw s refl;
              ring_same = rw s same.2;
              identity = inr (rw s (id_of false d), rw s same.1);
            }
        | inl d ↦
            let (a, r) = advance_then (record w { state = g }) _ reply w' (rw d at e) in
            let (s, _) = advance_incarnation_inv (record w { state = g }) w' tt a in
            record {
              replied = r;
              stored = rw s refl;
              ring_same = rw s same.2;
              identity = inl (rw s (id_of true d), rw s (ap advanced same.1));
            }
      ]

  -- Where a handled ping returned: it is answered by an ack with the node's identity as it was before;
  -- the membership then has the sender at a higher incarnation than it sent, or at that incarnation,
  -- alive, and heard of at `now` or later; the ring stays; and the node moves to its next incarnation if
  -- the membership now has the node dead, and keeps its identity if not.
  pub handle_message-ping :
      (w w' : World) (now : ℕ) (info : NodeInfo) (reply : Option GossipMessage)
      → handle_message now (ping info) w ≡ (w', returned reply)
      → (reply ≡ some (ack w.state.current_node))
        × Heard w'.state.membership info now
        × (w'.state.ring ≡ w.state.ring)
        × (((is_dead w'.state.membership w.state.current_node.node_id ≡ true)
              × (w'.state.current_node ≡ advanced w.state.current_node))
            ⊎ ((is_dead w'.state.membership w.state.current_node.node_id ≡ false)
                × (w'.state.current_node ≡ w.state.current_node)))
  unfolding receive
  handle_message-ping w w' now info reply e =
      let h = handle_message-Handled w now (ping info) w' reply e in
      (h.replied, rw h.stored (observed-Heard w.state.membership info now), h.ring_same, h.identity)

  -- Where a handled sync returned: the reply is a sync with the whole membership that is left, and the
  -- node keeps its identity, or it moves to its next incarnation and the membership has an entry of the
  -- node with a higher incarnation than the node had.
  pub handle_message-sync :
      (w w' : World) (now : ℕ) (members : List MemberState) (reply : Option GossipMessage)
      → handle_message now (sync members) w ≡ (w', returned reply)
      → (reply ≡ some (sync (values w'.state.membership.members)))
        × ((w'.state.current_node ≡ w.state.current_node)
            ⊎ ((w'.state.current_node ≡ advanced w.state.current_node)
                × ((s : MemberState) × (lookup w'.state.membership w.state.current_node.node_id
                      ≡ some s)
                    × (w.state.current_node.incarnation < s.info.incarnation))))
  unfolding receive
  handle_message-sync w w' now members reply e =
      let h = handle_message-Handled w now (sync members) w' reply e in
      let heard : Heard w'.state.membership w.state.current_node now =
        rw h.stored
          (observed-Heard (update_all w.state.membership members) w.state.current_node now) in
      (
        h.replied ∙ ap (λ (m : Membership). some (sync (values m.members))) (sym h.stored),
        elim h.identity [
          | inr stays ↦ inl stays.1
          | inl d ↦ inr (d.1, dead-Heard w'.state.membership w.state.current_node now heard d.0)
        ],
      )

  -- Where a handled sync returned, every member that was known is still known at no lower an
  -- incarnation.
  pub handle_message-sync_keeps :
      (w w' : World) (now : ℕ) (members : List MemberState) (reply : Option GossipMessage)
      (id incarnation : ℕ)
      → handle_message now (sync members) w ≡ (w', returned reply)
      → Knows w.state.membership id incarnation
      → Knows w'.state.membership id incarnation
  unfolding receive
  handle_message-sync_keeps w w' now members reply id incarnation e k =
      rw (handle_message-Handled w now (sync members) w' reply e).stored (
        update_member-Knows (update_all w.state.membership members)
          (alive_at w.state.current_node now) id incarnation
          (update_all-Knows_old w.state.membership members id incarnation k))

  -- Where a handled sync returned, every member that was sent is known at no lower an incarnation than
  -- it was sent with.
  pub handle_message-sync_learns :
      (w w' : World) (now : ℕ) (members : List MemberState) (reply : Option GossipMessage)
      (member : MemberState)
      → handle_message now (sync members) w ≡ (w', returned reply)
      → Member member members
      → Knows w'.state.membership member.info.node_id member.info.incarnation
  unfolding receive
  handle_message-sync_learns w w' now members reply member e i =
      rw (handle_message-Handled w now (sync members) w' reply e).stored (
        update_member-Knows (update_all w.state.membership members)
          (alive_at w.state.current_node now) member.info.node_id member.info.incarnation
          (update_all-Knows_new w.state.membership members member i))
