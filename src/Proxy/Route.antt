-- ===== src/Proxy/Route.antt =====
-- `Proxy::route` against its specification: a request goes to the live member that owns the nearest
-- point of the ring.
use percas.Base.{
  ℕ, List, none, some, true, false, ◌≡◌, ◌≢◌, ◌⊎◌, inl, inr, ◌↔◌, refl, sym, ap, ◌∙◌, arith,
  Option-cases, ℕ_discrete,
}
use percas.Text.{Url}
use percas.Ord.{nat_ord}
use percas.Bytes.{Mur3, AsRef}
use percas.BTreeMap.{get, keys}
use percas.BTreeMap.Order.{IsSorted}
use percas.BTreeMap.Keys.{Member-keys}
use percas.Member.{MemberState, Membership, alive, update_member}
use percas.Member.Map.{
  lookup, merged, lookup-update_member_self, lookup-update_member_ne, update_member-IsKeyed,
}
use percas.Ring.{hash_key, lookup_until, default_vnode_count}
use percas.Ring.Points.{Owns}
use percas.Ring.Nodes.{Placed, Owns-from}
use percas.Ring.Nearest.{IsNearest}
use percas.Ring.Lookup.{lookup_until-none, lookup_until-IsNearest}
use percas.Gossip.{GossipState, alive_at}
use percas.Gossip.Tasks.{rebuild_ring}
use percas.Gossip.Invariant.{IsSound}
use percas.Proxy.{local, remote_addr, is_alive, destination, route}

-- A live member of the given identifier.
pub record Alive (m : Membership) (id : ℕ) (target : MemberState) : Type 0 where
  pub known : lookup m id ≡ some target
  pub status : target.status ≡ alive

pub is_alive-Alive :
    (m : Membership) (id : ℕ) → is_alive m id ≡ true → (target : MemberState) × Alive m id target
unfolding is_alive
is_alive-Alive m id e = elim (Option-cases (get m.members id)) [
  | inl f ↦ absurd (ground (arith, f))
  | inr (target, f) ↦ (target, record { known = f; status = ground (arith, f) })
]

local-ne-remote : {url : Url} → local ≡ remote_addr url → ⊥
local-ne-remote e = cc

remote-injective : {u v : Url} → remote_addr u ≡ remote_addr v → u ≡ v
remote-injective e = cc

module _ ⦃mur : Mur3⦄ where
  -- The node that serves a key: the live member that owns the nearest point of the ring.
  pub record Serves (g : GossipState) (key : List ℕ) (id : ℕ) (target : MemberState) : Type 0 where
    pub live : Alive g.membership id target
    pub at_point : (p : ℕ) × IsNearest g.ring.nodes (hash_key key) (is_alive g.membership) p id

  destination_self :
      (g : GossipState) (id : ℕ) (target : MemberState)
      → lookup g.membership id ≡ some target
      → target.info.node_id ≡ g.current_node.node_id
      → destination g id ≡ local
  unfolding destination
  destination_self g id target e same = ground (arith, e, same)

  destination-other :
      (g : GossipState) (id : ℕ) (target : MemberState)
      → lookup g.membership id ≡ some target
      → target.info.node_id ≢ g.current_node.node_id
      → destination g id ≡ remote_addr target.info.advertise_data_url
  unfolding destination
  destination-other g id target e other = ground (arith, e, other)

  route-none :
      (g : GossipState) (key : List ℕ)
      → lookup_until g.ring key (is_alive g.membership) ≡ none
      → route g key ≡ local
  unfolding route
  route-none g key e = rw (e, route)

  route-some :
      (g : GossipState) (key : List ℕ) (id : ℕ)
      → lookup_until g.ring key (is_alive g.membership) ≡ some id
      → route g key ≡ destination g id
  unfolding route
  route-some g key id e = rw (e, route)

  -- Every case of `route`: no node of the ring is a live member, and the request is served locally; or
  -- some live member serves the key, and the request is served locally if that is the node itself and
  -- is sent to the member's data URL if not.
  pub route-cases :
      (g : GossipState) (key : List ℕ)
      → IsSound g
      → (((q id : ℕ) → Owns g.ring.nodes q id → is_alive g.membership id ≡ false)
          × (route g key ≡ local))
        ⊎ ((id : ℕ) × (target : MemberState) × Serves g key id target
            × (((id ≡ g.current_node.node_id) × (route g key ≡ local))
                ⊎ ((id ≢ g.current_node.node_id)
                    × (route g key ≡ remote_addr target.info.advertise_data_url))))
  route-cases g key s = elim (Option-cases (lookup_until g.ring key (is_alive g.membership))) [
    | inl e ↦
        inl ((lookup_until-none g.ring key (is_alive g.membership) s.ring).0 e, route-none g key e)
    | inr (id, e) ↦
        let (p, near) = (lookup_until-IsNearest g.ring key (is_alive g.membership) id s.ring).0 e in
        let (target, live) = is_alive-Alive g.membership id near.accepted in
        let own : target.info.node_id ≡ id = s.keyed.keyed id target live.known in
        inr (
          id,
          target,
          record { live = live; at_point = (p, near) },
          elim (ℕ_discrete id g.current_node.node_id) [
            | yes same ↦
                inl (
                  same,
                  route-some g key id e ∙ destination_self g id target live.known (own ∙ same),
                )
            | no other ↦ inr (
              other,
              route-some g key id e
                  ∙ destination-other g id target live.known (λ f. other (sym own ∙ f)),
            )
          ],
        )
  ]

  pub served_by_other :
      (h : GossipState) (g : GossipState) (key : List ℕ) (id : ℕ) (target : MemberState)
      → IsSound g
      → Serves g key id target
      → h.ring ≡ g.ring
      → h.membership ≡ g.membership
      → ((h.current_node.node_id ≡ id) × (route h key ≡ local))
        ⊎ ((h.current_node.node_id ≢ id)
            × (route h key ≡ remote_addr target.info.advertise_data_url))
  served_by_other h g key id target s v r m =
      let found : lookup_until h.ring key (is_alive h.membership) ≡ some id =
        rw (r, m)
          ((lookup_until-IsNearest g.ring key (is_alive g.membership) id s.ring).1 v.at_point) in
      let known : lookup h.membership id ≡ some target = rw m v.live.known in
      let own : target.info.node_id ≡ id = s.keyed.keyed id target v.live.known in
      elim (ℕ_discrete h.current_node.node_id id) [
        | yes same ↦
            inl (
              same,
              route-some h key id found ∙ destination_self h id target known (own ∙ sym same),
            )
        | no other ↦ inr (
          other,
          route-some h key id found
              ∙ destination-other h id target known (λ f. other (sym f ∙ own)),
        )
      ]

  -- Two nodes that agree on the ring and on the membership agree on who serves a key: where one sends
  -- the request to a URL, that is the data URL of a live member, the member itself serves the request
  -- locally, and every node but the member sends it to the same URL.
  pub route-agree :
      (g h : GossipState) (key : List ℕ) (url : Url)
      → IsSound g
      → h.ring ≡ g.ring
      → h.membership ≡ g.membership
      → route g key ≡ remote_addr url
      → (id : ℕ) × (target : MemberState) × Serves g key id target
        × (target.info.advertise_data_url ≡ url)
        × (((h.current_node.node_id ≡ id) × (route h key ≡ local))
            ⊎ ((h.current_node.node_id ≢ id) × (route h key ≡ remote_addr url)))
  route-agree g h key url s r m e = elim (route-cases g key s) [
    | inl c ↦ absurd (local-ne-remote (sym c.1 ∙ e))
    | inr (id, target, v, inl c) ↦ absurd (local-ne-remote (sym c.1 ∙ e))
    | inr (id, target, v, inr c) ↦
        let same : target.info.advertise_data_url ≡ url = remote-injective (sym c.1 ∙ e) in
        (
          id,
          target,
          v,
          same,
          elim (served_by_other h g key id target s v r m) [
            | inl self ↦ inl self
            | inr other ↦ inr (other.0, other.1 ∙ ap remote_addr same)
          ],
        )
  ]

RingMember : Membership → ℕ → Type 0
RingMember m n = (s : MemberState) × (lookup m n ≡ some s)

update_member-members :
    (m : Membership) (member : MemberState) (n : ℕ)
    → RingMember (update_member m member).0 n ↔ (RingMember m n ⊎ (n ≡ member.info.node_id))
unfolding RingMember
update_member-members m member n = elim (ℕ_discrete n member.info.node_id) [
  | yes same ↦ (
    (λ w. inr same),
    λ w. (
      merged (lookup m member.info.node_id) member,
      rw same (lookup-update_member_self m member),
    ),
  )
  | no other ↦
      let kept = lookup-update_member_ne m member n other in
      (
        (λ w. inl (w.0, sym kept ∙ w.1)),
        λ w. elim w [ inl v ↦ (v.0, kept ∙ v.1) | inr same ↦ absurd (other same) ],
      )
]

module _ ⦃a : AsRef ℕ⦄ ⦃mur : Mur3⦄ where
  -- The ring that `rebuild_ring` leaves has the 64 points of every known member, dead ones included,
  -- and of the node itself, and no other; the membership is left as it was.
  pub rebuild_ring_lem :
      (now : ℕ) (g : GossipState) (q n : ℕ)
      → IsSound g
      → (Owns (rebuild_ring now g).ring.nodes q n ↔ (
          (((s : MemberState) × (lookup g.membership n ≡ some s)) ⊎ (n ≡ g.current_node.node_id))
          × Placed default_vnode_count n q))
        × ((rebuild_ring now g).membership ≡ g.membership)
  unfolding rebuild_ring RingMember
  rebuild_ring_lem now g q n s = (
    (
      (λ w.
          let (i, p) = (Owns-from ids q n).0 w in
          (members.0 ((Member-keys known.members n sound).0 i), p)),
      λ w. (Owns-from ids q n).1 ((Member-keys known.members n sound).1 (members.1 w.0), w.1),
    ),
    refl,
  )
    where
      self : MemberState
      self = alive_at g.current_node now

      known : Membership
      known = (update_member g.membership self).0

      sound : IsSorted known.members
      sound = (update_member-IsKeyed g.membership self s.keyed).sorted

      ids : List ℕ
      ids = keys known.members

      members : RingMember known n ↔ (RingMember g.membership n ⊎ (n ≡ g.current_node.node_id))
      members = update_member-members g.membership self n
