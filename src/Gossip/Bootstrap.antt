-- ===== src/Gossip/Bootstrap.antt =====
-- That the error of `start`, that no member is known, cannot occur.
use percas.Base.{
  ℕ, [], ◌∷◌, Option, returned, Bool, true, false, ◌≡◌, inl, inr, refl, sym, ap, ◌∙◌, Bool-cases,
  Option-cases, arith, returned-injective,
}
use percas.Text.{Url}
use percas.Node.{NodeJson}
use percas.Ord.{nat_ord}
use percas.BTreeMap.{BTreeMap, get, insert}
use percas.Bytes.{AsRef, Mur3}
use percas.Member.{MemberState, Membership, is_dead, update_member, update_all, from_iter, default}
use percas.Exec.{Keeps, pure-Keeps, bind-Keeps, returned-of_bind}
use percas.Gossip.{
  GossipMessage, ping, ack, sync, GossipState, World, pure, receive, handle_message,
  advance_incarnation, alive_at,
}
use percas.Gossip.Invariant.{advance_incarnation_inv}
use percas.Gossip.Chain.{fast_bootstrap-Keeps}
use percas.Gossip.Tasks.{rebuild_ring, fast_bootstrap, modify, start}

abbrev HasEntry : BTreeMap ℕ MemberState → Type 0
HasEntry [] = ⊥
HasEntry (entry ∷ rest) = Unit {0}

abbrev HasMember : World → Type 0
HasMember w = HasEntry w.state.membership.members

insert-HasEntry : (m : BTreeMap ℕ MemberState) (q : ℕ) (w : MemberState) → HasEntry (insert m q w)
unfolding insert
insert-HasEntry [] q w = tt
insert-HasEntry ((k, v) ∷ m) q w = ground arith

update_member-HasEntry :
    (m : Membership) (member : MemberState) → HasEntry (update_member m member).0.members
unfolding update_member
update_member-HasEntry m member = elim (Option-cases (get m.members member.info.node_id)) [
  | inl e ↦ rw (e, update_member) (insert-HasEntry m.members member.info.node_id member)
  | inr (current, e) ↦ rw (e, update_member) (insert-HasEntry m.members member.info.node_id _)
]

receive-HasEntry :
    (g : GossipState) (now : ℕ) (message : GossipMessage)
    → HasEntry (receive g now message).0.membership.members
unfolding receive
receive-HasEntry g now (ping info) = update_member-HasEntry g.membership (alive_at info now)
receive-HasEntry g now (ack info) = update_member-HasEntry g.membership (alive_at info now)
receive-HasEntry g now (sync members) =
    update_member-HasEntry (update_all g.membership members) (alive_at g.current_node now)

module _ ⦃json : NodeJson⦄ where
  advance_incarnation-Keeps : Keeps HasMember advance_incarnation
  advance_incarnation-Keeps w w' a h e = rw (advance_incarnation_inv w w' a e).0 h

  handle_message-Keeps :
      (now : ℕ) (message : GossipMessage) → Keeps HasMember (handle_message now message)
  unfolding handle_message
  handle_message-Keeps now message w w' a h e =
      let g = (receive w.state now message).0 in
      elim (Bool-cases (is_dead g.membership g.current_node.node_id)) [
        | inl yes_dead ↦
            bind-Keeps HasMember advance_incarnation (λ _. pure _) advance_incarnation-Keeps
              (λ _. pure-Keeps HasMember (receive w.state now message).1) (record w { state = g })
              w' a (receive-HasEntry w.state now message) (rw yes_dead at e)
        | inr alive ↦
            rw (ap (λ p. p.0) (sym (rw alive at e))) (receive-HasEntry w.state now message)
      ]

  modify-Keeps :
      (f : GossipState → GossipState)
      → ((g : GossipState) → (f g).membership ≡ g.membership)
      → Keeps HasMember (modify f)
  modify-Keeps f same w w' a h e = rw (ap (λ p. p.0) (sym e), same w.state) h

module _ ⦃json : NodeJson⦄ ⦃a : AsRef ℕ⦄ ⦃m : Mur3⦄ where
  rebuilt-Keeps : (now : ℕ) → Keeps HasMember (modify (rebuild_ring now))
  unfolding rebuild_ring
  rebuilt-Keeps now = modify-Keeps (rebuild_ring now) (λ g. refl)

  known_member :
      (entries : BTreeMap ℕ MemberState)
      → HasEntry entries
      → elim entries [ [] ↦ false | x ∷ xs ↦ true ] ≡ true
  known_member [] h = absurd h
  known_member (x ∷ xs) h = refl

  -- Whatever the peers answer, and with no peer at all, `start` that does not panic goes on to spawn its
  -- tasks: its error, that no initial peer is available, cannot occur.
  pub start-true :
      (reply : Url → GossipMessage → Option GossipMessage) (clock : ℕ → ℕ) (now : ℕ) (w w' : World)
      (b : Bool)
      → start reply clock now w ≡ (w', returned b)
      → b ≡ true
  unfolding start from_iter update_all
  start-true reply clock now w w' b e =
      let entered : World = record w {
        state = record w.state { membership = from_iter (alive_at w.state.current_node now ∷ []) };
      } in
      let (v, x, ev, e2) =
        returned-of_bind (fast_bootstrap reply clock)
          (λ _ (v : World).
            (v, returned (elim v.state.membership.members [ [] ↦ false | x ∷ xs ↦ true ])))
          entered w' b e in
      let kept =
        fast_bootstrap-Keeps HasMember handle_message-Keeps rebuilt-Keeps reply clock entered v x
          (update_member-HasEntry default (alive_at w.state.current_node now)) ev in
      sym (returned-injective (ap (λ p. p.1) e2)) ∙ known_member v.state.membership.members kept
