-- ===== src/Client/Route/Lookup.antt =====
-- A client that has just read the members sends a key where the ring sends it.
use percas.Base.{
  ℕ, List, [], ◌∷◌, Option, none, some, next, or_else, and_then, map, ◌≡◌, ◌⊎◌, inl, inr, refl, sym,
  ap, ◌∙◌, Member, here, there, Option-cases, none-ne-some, some-injective,
}
use percas.Ord.{nat_ord}
use percas.Text.{Url}
use percas.Bytes.{AsRef, Mur3}
use percas.BTreeMap.{BTreeMap, keys, values, range_from}
use percas.BTreeMap.Values.{
  map_values, map_option, range_from-map_values, Member_of_range_from, get_of_entry, Member-values,
  map-values_eq_keys,
}
use percas.Ring.{HashRing, first_node, hash_key, add_nodes}
use percas.Ring
use percas.Ring.Nodes.{vnodes-from}
use percas.Member.{MemberState}
use percas.Member.Map.{IsKeyed, lookup as member_of}
use percas.Gossip.{GossipState}
use percas.Server.{list_members, listed}
use percas.Client.{Member as ClientMember, insert_members}
use percas.Client.Route.{RouteTable, lookup, default}
use percas.Client.Route.Agree.{unit, nodes_of, decoded, members-nodes_of, Entries, members-Entries}

-- The first node of the first bucket, of the nodes alone.
first-nodes_of :
    (part : BTreeMap ℕ (BTreeMap ℕ Url))
    → map_option (λ e. e.0) (and_then (next part) (λ e. next e.1))
      ≡ and_then (next (map_values (map_values unit) part)) first_node
unfolding map_values
first-nodes_of [] = refl
first-nodes_of ((h, []) ∷ rest) = refl
first-nodes_of ((h, (id, url) ∷ b) ∷ rest) = refl

map-or_else :
    (x y : Option (ℕ × Url))
    → map_option (λ e. e.0) (or_else x y)
      ≡ or_else (map_option (λ e. e.0) x) (map_option (λ e. e.0) y)
map-or_else none y = refl
map-or_else (some e) y = refl

module _ ⦃mur : Mur3⦄ where
  lookup-nodes_of :
      (t : RouteTable) (r : HashRing ℕ) (key : List ℕ)
      → nodes_of t ≡ r.nodes
      → map_option (λ e. e.0) (lookup t key) ≡ Ring.lookup r key
  unfolding lookup Ring.lookup hash_key nodes_of
  lookup-nodes_of t r key e =
      map-or_else (and_then (next (range_from t.ring (hash_key key))) (λ b. next b.1))
        (and_then (next t.ring) (λ b. next b.1))
      ∙ rw
          (
            first-nodes_of (range_from t.ring (hash_key key)),
            first-nodes_of t.ring,
            range_from-map_values (map_values unit) t.ring (hash_key key),
            e,
          )
          refl

  first-entry :
      (part : BTreeMap ℕ (BTreeMap ℕ Url)) (id : ℕ) (url : Url)
      → and_then (next part) (λ e. next e.1) ≡ some (id, url)
      → (h : ℕ) × (b : BTreeMap ℕ Url) × Member (h, b) part × Member (id, url) b
  first-entry [] id url e = absurd (none-ne-some e)
  first-entry ((h, []) ∷ rest) id url e = absurd (none-ne-some e)
  first-entry ((h, x ∷ b) ∷ rest) id url e = (h, x ∷ b, here refl, here (sym (some-injective e)))

  lookup-entry :
      (P : ℕ → Url → Type 0) (t : RouteTable) (key : List ℕ) (id : ℕ) (url : Url)
      → Entries t P
      → lookup t key ≡ some (id, url)
      → P id url
  unfolding lookup Entries
  lookup-entry P t key id url all e = go (and_then (next ahead) (λ b. next b.1)) refl e
    where
      ahead : BTreeMap ℕ (BTreeMap ℕ Url)
      ahead = range_from t.ring (mur.murmurhash3_x86_32 key 0)

      go :
          (x : Option (ℕ × Url))
          → and_then (next ahead) (λ b. next b.1) ≡ x
          → or_else x (and_then (next t.ring) (λ b. next b.1)) ≡ some (id, url)
          → P id url
      go none f g = let (h, b, i, j) = first-entry t.ring id url g in all h b id url i j
      go (some x) f g =
          let (h, b, i, j) = first-entry ahead id url (f ∙ g) in
          all h b id url (Member_of_range_from t.ring (mur.murmurhash3_x86_32 key 0) (h, b) i) j

module _ ⦃a : AsRef ℕ⦄ ⦃mur : Mur3⦄ where
  -- The table that a client makes of the members that a node lists.
  unfoldable pub table : GossipState → RouteTable
  table g = insert_members default (map decoded (list_members g).members)

  decoded-known :
      (g : GossipState) (ms : List MemberState)
      → ((x : MemberState) → Member x ms → member_of g.membership x.info.node_id ≡ some x)
      → (m : ClientMember) → Member m (map decoded (map (listed g) ms))
      → (s : MemberState) × (member_of g.membership m.node_id ≡ some s)
        × (s.info.advertise_data_url ≡ m.advertise_data_url)
  unfolding decoded listed
  decoded-known g [] known m w = elim w [ ]
  decoded-known g (x ∷ ms) known m (here e) = (
    x,
    rw (ap (λ (c : ClientMember). c.node_id) e) (known x (here refl)),
    sym (ap (λ (c : ClientMember). c.advertise_data_url) e),
  )
  decoded-known g (x ∷ ms) known m (there w) = decoded-known g ms (λ y v. known y (there v)) m w

  known-values :
      (g : GossipState)
      → IsKeyed g.membership
      → (x : MemberState) → Member x (values g.membership.members)
      → member_of g.membership x.info.node_id ≡ some x
  known-values g k x w =
      let (id, i) = Member-values g.membership.members x w in
      let e = get_of_entry g.membership.members id x k.sorted i in
      ap (member_of g.membership) (k.keyed id x e) ∙ e

  table-nodes_of :
      (g : GossipState)
      → IsKeyed g.membership
      → g.ring ≡ Ring.from (keys g.membership.members)
      → nodes_of (table g) ≡ g.ring.nodes
  unfolding table list_members Ring.from default nodes_of map_values
  table-nodes_of g k e =
      members-nodes_of g Ring.default default (values g.membership.members)
        (sym (ap (λ (r : HashRing ℕ). r.vnodes) e ∙ vnodes-from (keys g.membership.members))) refl
      ∙ ap (λ ids. (Ring.from ids).nodes)
          (map-values_eq_keys (λ (m : MemberState). m.info.node_id) g.membership.members
            (λ id m i. k.keyed id m (get_of_entry g.membership.members id m k.sorted i)))
      ∙ sym (ap (λ (r : HashRing ℕ). r.nodes) e)

  -- Where a node's ring is made of its members, the table that a client makes of the members that the
  -- node lists sends a key to the node that the ring finds for it, at the data URL of that member, and
  -- finds none exactly where the ring does.
  pub lookup-table :
      (g : GossipState) (key : List ℕ)
      → IsKeyed g.membership
      → g.ring ≡ Ring.from (keys g.membership.members)
      → ((lookup (table g) key ≡ none) × (Ring.lookup g.ring key ≡ none))
        ⊎ ((id : ℕ) × (s : MemberState) × (member_of g.membership id ≡ some s)
            × (lookup (table g) key ≡ some (id, s.info.advertise_data_url))
            × (Ring.lookup g.ring key ≡ some id))
  unfolding table list_members Entries default
  lookup-table g key k e = elim (Option-cases (lookup (table g) key)) [
    | inl f ↦ inl (f, sym agree ∙ ap (map_option (λ x. x.0)) f)
    | inr ((id, url), f) ↦
        let (s, known, same) = lookup-entry Known (table g) key id url entries f in
        inr (
          id,
          s,
          known,
          f ∙ ap (λ u. some (id, u)) (sym same),
          sym agree ∙ ap (map_option (λ x. x.0)) f,
        )
  ]
    where
      Known : ℕ → Url → Type 0
      Known id url =
          (s : MemberState) × (member_of g.membership id ≡ some s)
          × (s.info.advertise_data_url ≡ url)

      agree : map_option (λ x. x.0) (lookup (table g) key) ≡ Ring.lookup g.ring key
      agree = lookup-nodes_of (table g) g.ring key (table-nodes_of g k e)

      entries : Entries (table g) Known
      entries =
          members-Entries Known default (map decoded (list_members g).members)
            (decoded-known g (values g.membership.members) (known-values g k))
            (λ h b id url i. elim i [ ])
