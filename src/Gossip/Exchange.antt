-- ===== src/Gossip/Exchange.antt =====
-- What a full exchange of `Sync` messages does to the views of two nodes: the anti-entropy task of the
-- one, the handler of the other, and the handler of the reply.
use percas.Base.{ℕ, max, ◌≤◌, List, Option, some, returned, ◌≡◌, ◌∙◌, ap, arith, some-injective}
use percas.BTreeMap.{values}
use percas.Node.{NodeJson}
use percas.Member.{MemberState, update_all}
use percas.Member.Map.{IsKeyed, update_member-IsKeyed, update_all-IsKeyed}
use percas.Member.View.{
  level, says, all_say, level-update_member, level-update_all, all_say-members,
}
use percas.Gossip.{GossipMessage, sync, World, alive_at, receive, handle_message}
use percas.Gossip.Handle.{handle_message-Handled}

module _ ⦃json : NodeJson⦄ where
  -- A handled sync joins the view of the node with what is sent and with the node itself.
  level-sync :
      (w w' : World) (now : ℕ) (members : List MemberState) (reply : Option GossipMessage) (id : ℕ)
      → handle_message now (sync members) w ≡ (w', returned reply)
      → level w'.state.membership id
        ≡ max
            (max (level w.state.membership id) (all_say members id))
            (says (alive_at w.state.current_node now) id)
  unfolding receive
  level-sync w w' now members reply id e =
      let all = update_all w.state.membership members in
      let self = alive_at w.state.current_node now in
      rw (handle_message-Handled w now (sync members) w' reply e).stored (
        level-update_member all self id
        ∙ ap (λ n. max n (says self id)) (level-update_all w.state.membership members id))

  sync_reply :
      (w w' : World) (now : ℕ) (members : List MemberState) (reply : GossipMessage)
      → handle_message now (sync members) w ≡ (w', returned (some reply))
      → reply ≡ sync (values w'.state.membership.members)
  unfolding receive
  sync_reply w w' now members reply e =
      let h = handle_message-Handled w now (sync members) w' (some reply) e in
      some-injective
        (h.replied ∙ ap (λ m. some (sync (values m.members))) (percas.Base.sym h.stored))

  sync-IsKeyed :
      (w w' : World) (now : ℕ) (members : List MemberState) (reply : Option GossipMessage)
      → IsKeyed w.state.membership
      → handle_message now (sync members) w ≡ (w', returned reply)
      → IsKeyed w'.state.membership
  unfolding receive
  sync-IsKeyed w w' now members reply k e =
      rw (handle_message-Handled w now (sync members) w' reply e).stored
        (update_member-IsKeyed _ _ (update_all-IsKeyed w.state.membership members k))

  -- A node `a` whose membership is keyed and has the node itself at its own incarnation or a higher one
  -- sends its members to a node `b` with a keyed membership, and gets the reply before its state changes:
  -- then `b` has joined its view with that of `a` and with itself, and both views are the same.
  pub sync_exchange :
      (a a' b b' : World) (sent received : ℕ) (reply : GossipMessage) (last : Option GossipMessage)
      (id : ℕ)
      → IsKeyed a.state.membership
      → IsKeyed b.state.membership
      → says (alive_at a.state.current_node received) id ≤ level a.state.membership id
      → handle_message sent (sync (values a.state.membership.members)) b
        ≡ (b', returned (some reply))
      → handle_message received reply a ≡ (a', returned last)
      → (level b'.state.membership id
          ≡ max
              (max (level b.state.membership id) (level a.state.membership id))
              (says (alive_at b.state.current_node sent) id))
        × (level a'.state.membership id ≡ level b'.state.membership id)
  sync_exchange a a' b b' sent received reply last id ka kb own eb ea =
      let out = values a.state.membership.members in
      let there = level-sync b b' sent out (some reply) id eb in
      let kb' = sync-IsKeyed b b' sent out (some reply) kb eb in
      let back =
        level-sync a a' received (values b'.state.membership.members) last id
          (rw (sync_reply b b' sent out reply eb) at ea) in
      (
        omega (arith, there, all_say-members a.state.membership id ka),
        omega (
          arith,
          there,
          back,
          own,
          all_say-members a.state.membership id ka,
          all_say-members b'.state.membership id kb',
        ),
      )
