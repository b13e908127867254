-- ===== src/Client/Route/Agree.antt =====
-- The route table that a client makes of the answer to `/members` against the ring of the cluster.
use percas.Base.{
  ℕ, List, [], ◌∷◌, map, subst, ◌≡◌, inl, inr, refl, sym, ap, ◌∙◌, Member, here, there,
  Option-cases,
}
use percas.Ord.{nat_ord}
use percas.Text.{Url}
use percas.Bytes.{AsRef, Mur3}
use percas.BTreeMap.{BTreeMap, BTreeSet, get, insert as set_entry}
use percas.BTreeMap.Values.{
  map_values, get-map_values, insert-map_values, Member-insert, Member_of_get,
}
use percas.Ring.{
  HashRing, insert_at, hash_node, list_vnodes, range, add_vnodes, add_node, add_nodes,
}
use percas.Member.{MemberState}
use percas.Gossip.{GossipState}
use percas.Server.{listed, Member as ListedMember}
use percas.Client.{Member as ClientMember, insert_vnodes, insert_members}
use percas.Client.Route.{RouteTable, insert}

abbrev pub unit : Url → Unit {0}
unit url = tt

-- The nodes of a table, without their URLs: the buckets of a ring.
unfoldable pub nodes_of : RouteTable → BTreeMap ℕ (BTreeSet ℕ)
nodes_of t = map_values (map_values unit) t.ring

insert-nodes_of :
    (t : RouteTable) (h id : ℕ) (url : Url)
    → nodes_of (insert t h id url) ≡ insert_at (nodes_of t) h id
unfolding nodes_of insert insert_at map_values
insert-nodes_of t h id url = elim (Option-cases (get t.ring h)) [
  | inl e ↦
      rw
        (
          e,
          insert,
          insert-map_values (map_values unit) t.ring h (set_entry [] id url),
          insert-map_values unit [] id url,
          get-map_values (map_values unit) t.ring h,
          e,
        )
        refl
  | inr (b, e) ↦
      rw
        (
          e,
          insert,
          insert-map_values (map_values unit) t.ring h (set_entry b id url),
          insert-map_values unit b id url,
          get-map_values (map_values unit) t.ring h,
          e,
        )
        refl
]

module _ ⦃a : AsRef ℕ⦄ ⦃mur : Mur3⦄ where
  vnodes-nodes_of :
      (t : RouteTable) (id : ℕ) (url : Url) (is : List ℕ)
      → nodes_of (insert_vnodes t id url (map (hash_node id) is)) ≡ add_vnodes id is (nodes_of t)
  unfolding insert_vnodes add_vnodes
  vnodes-nodes_of t id url [] = refl
  vnodes-nodes_of t id url (i ∷ is) =
      vnodes-nodes_of (insert t (hash_node id i) id url) id url is
      ∙ ap (add_vnodes id is) (insert-nodes_of t (hash_node id i) id url)

  -- What the JSON of a member is to the client, which ignores the fields that it does not know.
  unfoldable pub decoded : ListedMember → ClientMember
  decoded member = record {
    node_id = member.node_id;
    advertise_data_url = member.advertise_data_url;
    advertise_ctrl_url = member.advertise_ctrl_url;
    incarnation = member.incarnation;
    vnodes = member.vnodes;
  }

  pub members-nodes_of :
      (g : GossipState) (r : HashRing ℕ) (t : RouteTable) (ms : List MemberState)
      → r.vnodes ≡ g.ring.vnodes
      → nodes_of t ≡ r.nodes
      → nodes_of (insert_members t (map decoded (map (listed g) ms)))
        ≡ (add_nodes r (map (λ (m : MemberState). m.info.node_id) ms)).nodes
  unfolding insert_members add_nodes add_node list_vnodes decoded listed
  members-nodes_of g r t [] e f = f
  members-nodes_of g r t (x ∷ ms) e f =
      members-nodes_of g (add_node r x.info.node_id)
        (insert_vnodes t x.info.node_id x.info.advertise_data_url
          (list_vnodes g.ring x.info.node_id))
        ms e
        (vnodes-nodes_of t x.info.node_id x.info.advertise_data_url (range 0 g.ring.vnodes)
          ∙ rw (e, f) refl)

-- Every entry of a table has the property `P` of a node and its URL.
unfoldable pub Entries : RouteTable → (ℕ → Url → Type 0) → Type 0
Entries t P =
    (h : ℕ) (b : BTreeMap ℕ Url) (id : ℕ) (url : Url)
    → Member (h, b) t.ring
    → Member (id, url) b
    → P id url

insert-Entries :
    (P : ℕ → Url → Type 0) (t : RouteTable) (hash node_id : ℕ) (url : Url)
    → P node_id url
    → Entries t P
    → Entries (insert t hash node_id url) P
unfolding Entries insert
insert-Entries P t hash node_id url p all = elim (Option-cases (get t.ring hash)) [
  | inl e ↦ rw (e, insert) (put [] (λ id u w. elim w [ ]))
  | inr (old, e) ↦
      rw (e, insert) (put old (λ id u w. all hash old id u (Member_of_get t.ring hash old e) w))
]
  where
    put :
        (old : BTreeMap ℕ Url)
        → ((id : ℕ) (u : Url) → Member (id, u) old → P id u)
        → (h : ℕ) (b : BTreeMap ℕ Url) (id : ℕ) (u : Url)
        → Member (h, b) (set_entry t.ring hash (set_entry old node_id url))
        → Member (id, u) b
        → P id u
    put old known h b id u i j =
        elim (Member-insert t.ring hash (set_entry old node_id url) (h, b) i) [
          | inr before ↦ all h b id u before j
          | inl fresh ↦
              elim (Member-insert old node_id url (id, u)
                (subst (λ x. Member (id, u) x) (ap (λ x. x.1) fresh) j)) [
                  | inr before ↦ known id u before
                  | inl same ↦ subst (λ (x : ℕ × Url). P x.0 x.1) (sym same) p
                ]
        ]

vnodes-Entries :
    (P : ℕ → Url → Type 0) (t : RouteTable) (id : ℕ) (url : Url) (vnodes : List ℕ)
    → P id url
    → Entries t P
    → Entries (insert_vnodes t id url vnodes) P
unfolding insert_vnodes
vnodes-Entries P t id url [] p all = all
vnodes-Entries P t id url (v ∷ rest) p all =
    vnodes-Entries P (insert t v id url) id url rest p (insert-Entries P t v id url p all)

pub members-Entries :
    (P : ℕ → Url → Type 0) (t : RouteTable) (ms : List ClientMember)
    → ((m : ClientMember) → Member m ms → P m.node_id m.advertise_data_url)
    → Entries t P
    → Entries (insert_members t ms) P
unfolding insert_members
members-Entries P t [] p all = all
members-Entries P t (x ∷ rest) p all =
    members-Entries P (insert_vnodes t x.node_id x.advertise_data_url x.vnodes) rest
      (λ m w. p m (there w))
      (vnodes-Entries P t x.node_id x.advertise_data_url x.vnodes (p x (here refl)) all)
