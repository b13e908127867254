-- ===== src/Member/View.antt =====
-- The membership map as each node means it to others: for every identifier the highest incarnation that
-- has been heard of. Gossip is a join on this view, whatever the representation.
use percas.Base.{
  ℕ, ◌+◌, max, ◌==◌, if◌then◌else◌, List, [], ◌∷◌, Option, none, some, ◌≡◌, refl, ap, ◌∙◌, arith,
  ℕ_discrete, ==-refl,
}
use percas.Ord.{nat_ord}
use percas.BTreeMap.{BTreeMap, get, values}
use percas.BTreeMap.Order.{IsSorted, Above, IsSorted-of_Above}
use percas.BTreeMap.Lookup.{get-Above_self, get_head, get-tail}
use percas.Member.{MemberState, Membership, update_member, update_all}
use percas.Member.Merge.{merge-incarnation}
use percas.Member.Map.{
  Keyed, Keyed-of_get, lookup, merged, IsKeyed, lookup-update_member_self, lookup-update_member_ne,
}

-- How much is known of a member: 0 for none, and else its incarnation and 1.
abbrev pub height : Option MemberState → ℕ
height none = 0
height (some s) = s.info.incarnation + 1

abbrev pub level : Membership → ℕ → ℕ
level m id = height (lookup m id)

-- What an observation says of a member.
abbrev pub says : MemberState → ℕ → ℕ
says member id = if id == member.info.node_id then member.info.incarnation + 1 else 0

-- What some observations say of it.
unfoldable pub all_say : List MemberState → ℕ → ℕ
all_say [] id = 0
all_say (member ∷ rest) id = max (says member id) (all_say rest id)

height-merged :
    (old : Option MemberState) (member : MemberState)
    → height (some (merged old member)) ≡ max (height old) (member.info.incarnation + 1)
height-merged none member = omega arith
height-merged (some current) member = omega (arith, merge-incarnation current member)

-- An update takes the join with the observation.
pub level-update_member :
    (m : Membership) (member : MemberState) (id : ℕ)
    → level (update_member m member).0 id ≡ max (level m id) (says member id)
level-update_member m member id = elim (ℕ_discrete id member.info.node_id) [
  | yes same ↦
      rw (same, lookup-update_member_self m member, ==-refl member.info.node_id)
        (height-merged (lookup m member.info.node_id) member)
  | no other ↦ ap height (lookup-update_member_ne m member id other) ∙ ground (arith, other)
]

pub level-update_all :
    (m : Membership) (members : List MemberState) (id : ℕ)
    → level (update_all m members) id ≡ max (level m id) (all_say members id)
unfolding update_all all_say
level-update_all m [] id = omega arith
level-update_all m (x ∷ rest) id =
    omega (arith, level-update_all (update_member m x).0 rest id, level-update_member m x id)

-- The step of `all_say-values`: the entry of `q` stands before the others.
says_step :
    (q id : ℕ) (x : MemberState) (rest : BTreeMap ℕ MemberState) (n : ℕ)
    → Above q rest
    → x.info.node_id ≡ q
    → n ≡ height (get rest id)
    → max (says x id) n ≡ height (get ((q, x) ∷ rest) id)
says_step q id x rest n s own ih = elim (ℕ_discrete id q) [
  | yes same ↦
      let hit : get ((q, x) ∷ rest) id ≡ some x = rw same (get_head q x rest) in
      let alone : get rest id ≡ none = rw same (get-Above_self rest q s) in
      ground (arith, own, same, hit, alone, ih)
  | no other ↦
      let past : get ((q, x) ∷ rest) id ≡ get rest id =
        ground (arith, other, get-tail q x rest id s, nat_ord.eq_of_cmp id q) in
      ground (arith, own, other, past, ih)
]

-- The members of a map say what the map knows.
all_say-values :
    (xs : BTreeMap ℕ MemberState) (id : ℕ)
    → IsSorted xs
    → Keyed xs
    → all_say (values xs) id ≡ height (get xs id)
unfolding all_say get
all_say-values [] id s k = refl
all_say-values ((q, x) ∷ rest) id s (own, k) =
    says_step q id x rest (all_say (values rest) id) s own
      (all_say-values rest id (IsSorted-of_Above q rest s) k)

pub all_say-members :
    (m : Membership) (id : ℕ) → IsKeyed m → all_say (values m.members) id ≡ level m id
all_say-members m id k =
    all_say-values m.members id k.sorted (Keyed-of_get m.members k.sorted k.keyed)
