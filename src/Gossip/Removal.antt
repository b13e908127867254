-- ===== src/Gossip/Removal.antt =====
-- What `mark_dead` and `remove_dead_members` do to every entry of the membership.
use percas.Base.{
  ℕ, suc, ◌+◌, List, [], ◌∷◌, Option, none, some, Bool, true, false, Bool-cases, ◌&&◌, ◌||◌,
  Outcome, returned, panicked, ◌≡◌, ◌⊎◌, inl, inr, refl, sym, ap, ◌∙◌, arith, Option-cases,
  ℕ_discrete, ltb, ◌==◌, if◌then◌else◌, not-returned, returned-injective,
}
use percas.Ord.{nat_ord}
use percas.BTreeMap.{BTreeMap, get, values}
use percas.BTreeMap.Order.{Above, IsSorted, IsSorted-of_Above}
use percas.BTreeMap.Lookup.{get-Above_self, get-tail, get_head}
use percas.Node.{NodeInfo}
use percas.Member.{
  MemberState, MemberStatus, Membership, alive, dead, status_eq, merge, remove_member,
}
use percas.Member.Map.{
  Keyed, Keyed-of_get, lookup, IsKeyed, lookup-update_member_self, lookup-update_member_ne,
  remove_member-IsKeyed, lookup-remove_member_self, lookup-remove_member_ne,
}
use percas.Gossip.{GossipState}
use percas.Gossip.Tasks.{
  Jiff, default_member_deadline, deadline, dead_members, mark_dead, remove_all, remove_dead_members,
  collect,
}

-- How `mark_dead` is meant to change the entry of the peer: an entry with a higher incarnation than
-- the peer was contacted under stays; one with the same is dead; an older one gives way to the peer's
-- identity, dead and last heard of when the entry was.
pub marked : NodeInfo → MemberState → MemberState
marked peer m =
    if ltb peer.incarnation m.info.incarnation
    then m
    else if peer.incarnation == m.info.incarnation
    then record m { status = dead }
    else record { info = peer; status = dead; heartbeat = m.heartbeat }

merge-marked :
    (peer : NodeInfo) (m : MemberState)
    → (merge m (record { info = peer; status = dead; heartbeat = m.heartbeat })).0 ≡ marked peer m
unfolding merge marked
merge-marked peer m = ground arith

abbrev pub after_mark : NodeInfo → Option MemberState → Option MemberState
after_mark peer none = none
after_mark peer (some m) = some (marked peer m)

-- `mark_dead` changes the entry of the peer alone, and adds none.
pub mark_dead_lem :
    (g : GossipState) (peer : NodeInfo) (id : ℕ)
    → lookup (mark_dead g peer).membership id ≡ (
        if id == peer.node_id
        then after_mark peer (lookup g.membership id)
        else lookup g.membership id)
unfolding mark_dead
mark_dead_lem g peer id = elim (Option-cases (get g.membership.members peer.node_id)) [
  | inl e ↦ elim (ℕ_discrete id peer.node_id) [
    | yes same ↦ rw (e, mark_dead) (ground (arith, e, same))
    | no other ↦ rw (e, mark_dead) (ground (arith, other))
  ]
  | inr (m, e) ↦
      let report : MemberState = record { info = peer; status = dead; heartbeat = m.heartbeat } in
      elim (ℕ_discrete id peer.node_id) [
        | yes same ↦
            rw (e, mark_dead, same)
              (lookup-update_member_self g.membership report
                ∙ ground (arith, e, merge-marked peer m))
        | no other ↦
            rw (e, mark_dead)
              (lookup-update_member_ne g.membership report id other ∙ ground (arith, other))
      ]
]

-- Whether one of the nodes has the identifier.
listed : ℕ → List NodeInfo → Bool
listed id [] = false
listed id (x ∷ rest) = id == x.node_id || listed id rest

lookup-remove_all :
    (m : Membership) (found : List NodeInfo) (id : ℕ)
    → IsKeyed m
    → lookup (remove_all m found) id ≡ (if listed id found then none else lookup m id)
unfolding remove_all listed
lookup-remove_all m [] id k = refl
lookup-remove_all m (x ∷ rest) id k =
    let m' = remove_member m x.node_id in
    let ih = lookup-remove_all m' rest id (remove_member-IsKeyed m x.node_id k) in
    elim (ℕ_discrete id x.node_id) [
      | yes same ↦
          let gone : lookup m' id ≡ none = rw same (lookup-remove_member_self m x.node_id k) in
          ground (arith, ih, same, gone)
      | no other ↦
          let kept = lookup-remove_member_ne m x.node_id id k other in
          ground (arith, ih, other, kept)
    ]

-- Whether an entry is dead and its deadline has passed at `now`.
unfoldable pub expired : ℕ → Option MemberState → Bool
expired now none = false
expired now (some m) = status_eq m.status dead && ltb (m.heartbeat + default_member_deadline) now

-- The step of `listed-dead_members`: the entry of `k` stands before the others.
listed_step :
    (now k id : ℕ) (m : MemberState) (rest : BTreeMap ℕ MemberState) (found : List NodeInfo)
    → Above k rest
    → m.info.node_id ≡ k
    → listed id found ≡ expired now (get rest id)
    → (if expired now (some m) then listed id (m.info ∷ found) else listed id found)
      ≡ expired now (get ((k, m) ∷ rest) id)
unfolding listed expired
listed_step now k id m rest found s own ih = elim (ℕ_discrete id k) [
  | yes same ↦
      let hit : get ((k, m) ∷ rest) id ≡ some m = rw same (get_head k m rest) in
      let alone : get rest id ≡ none = rw same (get-Above_self rest k s) in
      ground (arith, own, same, hit, alone, ih)
  | no other ↦
      let skipped : get ((k, m) ∷ rest) id ≡ get rest id =
        ground (arith, other, get-tail k m rest id s) in
      ground (arith, own, other, skipped, ih)
]

Outcome-cases {ℓ} : {A : Type ℓ} (r : Outcome A) → (r ≡ panicked) ⊎ ((a : A) × (r ≡ returned a))
Outcome-cases panicked = inl refl
Outcome-cases (returned a) = inr (a, refl)

status-cases : (s : MemberStatus) → (s ≡ alive) ⊎ (s ≡ dead)
status-cases alive = inl refl
status-cases dead = inr refl

module _ ⦃jiff : Jiff⦄ (now : ℕ) where
  -- What the head of the list adds to the members that are found in its tail.
  abbrev Adds : ℕ → MemberState → List MemberState → List NodeInfo → Type 0
  Adds i m ms found =
      (j : ℕ) × (later : List NodeInfo) × (dead_members (λ _. now) j ms ≡ returned later)
      × (found ≡ (if expired now (some m) then m.info ∷ later else later))

  deadline_inv : (h t : ℕ) → deadline h ≡ returned t → t ≡ h + default_member_deadline
  unfolding deadline
  deadline_inv h t e = ground arith

  collect_inv :
      (b : Bool) (info : NodeInfo) (r : Outcome (List NodeInfo)) (found : List NodeInfo)
      → collect b info r ≡ returned found
      → (later : List NodeInfo) × (r ≡ returned later)
        × (found ≡ (if b then info ∷ later else later))
  collect_inv true info (returned later) found e = (later, refl, sym (returned-injective e))
  collect_inv false info (returned later) found e = (later, refl, sym (returned-injective e))
  collect_inv true info panicked found e = absurd (not-returned e)
  collect_inv false info panicked found e = absurd (not-returned e)

  dead_members_inv :
      (i : ℕ) (m : MemberState) (ms : List MemberState) (found : List NodeInfo)
      → dead_members (λ _. now) i (m ∷ ms) ≡ returned found
      → Adds i m ms found
  unfolding dead_members expired
  dead_members_inv i m ms found e = elim (status-cases m.status) [
    | inl live ↦ (i, found, rw (live, dead_members) at e, rw (live, expired) refl)
    | inr gone ↦ elim (Outcome-cases (deadline m.heartbeat)) [
      | inl late ↦ absurd (not-returned (rw (gone, late, dead_members) at e))
      | inr (t, in_time) ↦
          let (later, rest, f) =
            collect_inv (ltb t now) m.info (dead_members (λ _. now) (suc i) ms) found
              (rw (gone, in_time, dead_members) at e) in
          (suc i, later, rest, ground (arith, f, gone, deadline_inv m.heartbeat t in_time))
    ]
  ]

  listed-dead_members :
      (i id : ℕ) (xs : BTreeMap ℕ MemberState) (found : List NodeInfo)
      → IsSorted xs
      → Keyed xs
      → dead_members (λ _. now) i (values xs) ≡ returned found
      → listed id found ≡ expired now (get xs id)
  unfolding dead_members listed expired get
  listed-dead_members i id [] found s k e = rw (← returned-injective e)
  listed-dead_members i id ((q, m) ∷ rest) found s k e =
      let (j, later, f, g) = dead_members_inv i m (values rest) found e in
      let ih = listed-dead_members j id rest later (IsSorted-of_Above q rest s) k.1 f in
      rw g (branch m later ∙ listed_step now q id m rest later s k.0 ih)
    where
      branch :
          (m : MemberState) (later : List NodeInfo)
          → listed id (if expired now (some m) then m.info ∷ later else later)
            ≡ (if expired now (some m) then listed id (m.info ∷ later) else listed id later)
      branch m later = elim (Bool-cases (expired now (some m))) [
        | inl b ↦ rw b refl
        | inr b ↦ rw b refl
      ]

  -- Where `remove_dead_members` returned, with every reading of the clock at `now`, exactly the entries
  -- are gone that were dead and last heard of more than the 30 seconds of the deadline before `now`; all
  -- others are as they were.
  pub remove_dead_members_lem :
      (g g' : GossipState) (found : List NodeInfo) (id : ℕ)
      → IsKeyed g.membership
      → remove_dead_members (λ _. now) g ≡ (g', returned found)
      → lookup g'.membership id
        ≡ (if expired now (lookup g.membership id) then none else lookup g.membership id)
  unfolding remove_dead_members
  remove_dead_members_lem g g' found id k e =
      elim (Outcome-cases (dead_members (λ _. now) 0 (values g.membership.members))) [
        | inl f ↦ absurd (not-returned (ap (λ p. p.1) (rw (f, remove_dead_members) at e)))
        | inr (all, f) ↦
            let done = rw (f, remove_dead_members) at e in
            let state = ap (λ p. p.0) done in
            let hits =
              listed-dead_members 0 id g.membership.members all k.sorted
                (Keyed-of_get g.membership.members k.sorted k.keyed) f in
            rw (← state) (
              lookup-remove_all g.membership all id k
              ∙ ap (λ (b : Bool). if b then none else lookup g.membership id) hits)
      ]
