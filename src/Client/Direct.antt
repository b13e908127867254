-- ===== src/Client/Direct.antt =====
-- A client against the cluster: where the owner in its table is alive, the owner answers by itself.
use percas.Base.{
  ℕ, List, some, true, ◌≡◌, inl, inr, sym, ap, ◌∙◌, refl, some-injective, none-ne-some,
}
use percas.Ord.{nat_ord}
use percas.Text.{Url}
use percas.Bytes.{AsRef, Mur3}
use percas.BTreeMap.{keys}
use percas.Ring
use percas.Ring.{lookup_until}
use percas.Ring.Lookup.{lookup_until-IsNearest}
use percas.Ring.Stability.{lookup-eq-lookup_until, lookup_until-narrow}
use percas.Engine.{Foyer}
use percas.Member.{MemberState}
use percas.Member.Map.{lookup as member_of}
use percas.Gossip.{GossipState}
use percas.Gossip.Invariant.{IsSound}
use percas.Proxy.{local, is_alive}
use percas.Proxy.Route.{Serves, is_alive-Alive, served_by_other}
use percas.Server.Data.{Context}
use percas.Middleware.{Request, UrlPath, Endpoint, call}
use percas.Middleware.Hops.{call-eq}
use percas.Client.Route.{lookup}
use percas.Client.Route.Lookup.{table, lookup-table}

module _ ⦃a : AsRef ℕ⦄ ⦃mur : Mur3⦄ where
  table-owner :
      (g : GossipState) (key : List ℕ) (id : ℕ) (url : Url)
      → IsSound g
      → g.ring ≡ Ring.from (keys g.membership.members)
      → lookup (table g) key ≡ some (id, url)
      → (s : MemberState) × (member_of g.membership id ≡ some s)
        × (s.info.advertise_data_url ≡ url)
        × (Ring.lookup g.ring key ≡ some id)
  table-owner g key id url s made e = elim (lookup-table g key s.keyed made) [
    | inl none_found ↦ absurd (none-ne-some (sym none_found.0 ∙ e))
    | inr (q, m, known, hit, ring) ↦
        let same = some-injective (sym hit ∙ e) in
        (
          m,
          sym (ap (λ x. member_of g.membership x.0) same) ∙ known,
          ap (λ x. x.1) same,
          ring ∙ ap (λ x. some x.0) same,
        )
  ]

  live-Serves :
      (g : GossipState) (key : List ℕ) (id : ℕ)
      → IsSound g
      → Ring.lookup g.ring key ≡ some id
      → is_alive g.membership id ≡ true
      → (target : MemberState) × Serves g key id target
  live-Serves g key id s ring alive =
      let everywhere = sym (lookup-eq-lookup_until g.ring key s.ring) ∙ ring in
      let found =
        lookup_until-narrow g.ring key (λ _. true) (is_alive g.membership) id s.ring (λ x _. refl)
          everywhere alive in
      let (target, live) = is_alive-Alive g.membership id alive in
      (
        target,
        record {
          live = live;
          at_point = (lookup_until-IsNearest g.ring key (is_alive g.membership) id s.ring).0 found;
        },
      )

module _ ⦃a : AsRef ℕ⦄ ⦃mur : Mur3⦄ ⦃f : Foyer⦄ ⦃u : UrlPath⦄ where
  -- Where the table that a client made of the members of a sound node, whose ring is made of its members,
  -- sends the key of a request to a live member, the URL is that member's data URL, and the member, if it
  -- has the same ring and membership, answers the request itself.
  pub call-direct :
      (g h : GossipState) (endpoint : Endpoint) (ctx : Context) (req : Request) (id : ℕ) (url : Url)
      → IsSound g
      → g.ring ≡ Ring.from (keys g.membership.members)
      → lookup (table g) req.key ≡ some (id, url)
      → is_alive g.membership id ≡ true
      → h.ring ≡ g.ring
      → h.membership ≡ g.membership
      → h.current_node.node_id ≡ id
      → ((s : MemberState) × (member_of g.membership id ≡ some s)
          × (s.info.advertise_data_url ≡ url))
        × (call h endpoint ctx req ≡ endpoint ctx req)
  call-direct g h endpoint ctx req id url s made e alive r m own =
      let (member, known, at_url, ring) = table-owner g req.key id url s made e in
      let (target, serves) = live-Serves g req.key id s ring alive in
      (
        (member, known, at_url),
        elim (served_by_other h g req.key id target s serves r m) [
          | inl self ↦ call-eq h endpoint ctx req local self.1
          | inr other ↦ absurd (other.0 own)
        ],
      )
