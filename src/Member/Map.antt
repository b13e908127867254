-- ===== src/Member/Map.antt =====
-- `Membership` as a map: what each operation does to every entry, and the invariant that each
-- member is stored under its own identifier.
use percas.Base.{
  ℕ, List, [], ◌∷◌, ◌≡◌, ◌≢◌, inl, inr, refl, sym, ◌∙◌, arith, Option, none, some, Option-cases,
  ℕ_discrete,
}
use percas.Ord.{nat_ord}
use percas.BTreeMap.{BTreeMap, get, insert}
use percas.BTreeMap.Keys.{get_of_tail}
use percas.BTreeMap.Order.{IsSorted, IsSorted-of_Above, insert-IsSorted, remove-IsSorted}
use percas.BTreeMap.Lookup.{
  get-insert_self, get-insert_ne, get-remove_self, get-remove_ne, get_head,
}
use percas.Member.{
  MemberState, Membership, merge, update_member, remove_member, update_all, default,
}

abbrev pub lookup : Membership → ℕ → Option MemberState
lookup m id = get m.members id

-- The map is sorted, and each member stands under its own identifier.
pub record IsKeyed (m : Membership) : Type 0 where
  pub sorted : IsSorted m.members
  pub keyed : (id : ℕ) (s : MemberState) → lookup m id ≡ some s → s.info.node_id ≡ id

-- The entry that an observation leaves where `old` stood.
abbrev pub merged : Option MemberState → MemberState → MemberState
merged none member = member
merged (some current) member = (merge current member).0

-- `update_member` writes one entry.
members-update_member :
    (m : Membership) (member : MemberState)
    → (update_member m member).0.members
      ≡ insert m.members member.info.node_id (merged (lookup m member.info.node_id) member)
unfolding update_member
members-update_member m member = elim (Option-cases (get m.members member.info.node_id)) [
  | inl e ↦ rw (e, update_member)
  | inr (current, e) ↦ rw (e, update_member)
]

pub lookup-update_member_self :
    (m : Membership) (member : MemberState)
    → lookup (update_member m member).0 member.info.node_id
      ≡ some (merged (lookup m member.info.node_id) member)
lookup-update_member_self m member =
    rw (members-update_member m member) (get-insert_self m.members member.info.node_id _)

pub lookup-update_member_ne :
    (m : Membership) (member : MemberState) (id : ℕ)
    → id ≢ member.info.node_id
    → lookup (update_member m member).0 id ≡ lookup m id
lookup-update_member_ne m member id ne =
    rw (members-update_member m member) (get-insert_ne m.members member.info.node_id _ id ne)

merge-node_id :
    (current member : MemberState)
    → current.info.node_id ≡ member.info.node_id
    → (merge current member).0.info.node_id ≡ member.info.node_id
unfolding merge
merge-node_id current member e = ground arith

merged-node_id :
    (m : Membership) (member : MemberState)
    → IsKeyed m
    → (merged (lookup m member.info.node_id) member).info.node_id ≡ member.info.node_id
merged-node_id m member k = elim (Option-cases (lookup m member.info.node_id)) [
  | inl e ↦ rw e refl
  | inr (current, e) ↦ rw e (merge-node_id current member (k.keyed member.info.node_id current e))
]

pub update_member-IsKeyed :
    (m : Membership) (member : MemberState) → IsKeyed m → IsKeyed (update_member m member).0
update_member-IsKeyed m member k = record {
  sorted =
      rw (members-update_member m member)
        (insert-IsSorted m.members member.info.node_id _ k.sorted);
  keyed = λ id s e. elim (ℕ_discrete id member.info.node_id) [
    | yes same ↦
        ground (arith, e, same, lookup-update_member_self m member, merged-node_id m member k)
    | no other ↦ k.keyed id s (sym (lookup-update_member_ne m member id other) ∙ e)
  ];
}

pub remove_member-IsKeyed : (m : Membership) (id : ℕ) → IsKeyed m → IsKeyed (remove_member m id)
unfolding remove_member
remove_member-IsKeyed m id k = record {
  sorted = remove-IsSorted m.members id k.sorted;
  keyed = λ q s e. elim (ℕ_discrete q id) [
    | yes same ↦ ground (arith, e, same, get-remove_self m.members id k.sorted)
    | no other ↦ k.keyed q s (sym (get-remove_ne m.members id q k.sorted other) ∙ e)
  ];
}

pub default-IsKeyed : IsKeyed default
unfolding default get
default-IsKeyed = record { sorted = tt; keyed = λ id s e. ground (arith, e) }

pub update_all-IsKeyed :
    (m : Membership) (members : List MemberState) → IsKeyed m → IsKeyed (update_all m members)
unfolding update_all
update_all-IsKeyed m [] k = k
update_all-IsKeyed m (x ∷ rest) k =
    update_all-IsKeyed (update_member m x).0 rest (update_member-IsKeyed m x k)

pub lookup-remove_member_self :
    (m : Membership) (id : ℕ) → IsKeyed m → lookup (remove_member m id) id ≡ none
unfolding remove_member
lookup-remove_member_self m id k = get-remove_self m.members id k.sorted

pub lookup-remove_member_ne :
    (m : Membership) (id q : ℕ) → IsKeyed m → q ≢ id → lookup (remove_member m id) q ≡ lookup m q
unfolding remove_member
lookup-remove_member_ne m id q k other = get-remove_ne m.members id q k.sorted other

-- Each entry of a list stands under the identifier of its member.
abbrev pub Keyed : BTreeMap ℕ MemberState → Type 0
Keyed [] = Unit {0}
Keyed ((id, m) ∷ rest) = (m.info.node_id ≡ id) × Keyed rest

pub Keyed-of_get :
    (xs : BTreeMap ℕ MemberState)
    → IsSorted xs
    → ((id : ℕ) (m : MemberState) → get xs id ≡ some m → m.info.node_id ≡ id)
    → Keyed xs
Keyed-of_get [] s k = tt
Keyed-of_get ((id, m) ∷ rest) s k = (
  k id m (get_head id m rest),
  Keyed-of_get rest (IsSorted-of_Above id rest s) (λ q n e. k q n (get_of_tail id m rest q n s e)),
)
