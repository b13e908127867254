-- ===== src/Member/Fresh.antt =====
-- How fresh the membership map is: no update forgets a member or goes back to an older incarnation,
-- and the result of `update_member` says exactly whether the map changed.
use percas.Base.{
  ℕ, List, [], ◌∷◌, ◌≤◌, ◌≡◌, ◌↔◌, inl, inr, sym, ◌∙◌, ap, true, false, arith, Option, none, some,
  Option-cases, ℕ_discrete, Member, here, there, some-injective, none-ne-some, true≢false,
}
use percas.Ord.{nat_ord}
use percas.BTreeMap.Lookup.{ext}
use percas.Member.{MemberState, Membership, merge, update_member, update_all}
use percas.Member.Merge.{merge-changed, merge-incarnation}
use percas.Member.Map.{
  lookup, merged, IsKeyed, lookup-update_member_self, lookup-update_member_ne,
  update_member-IsKeyed,
}

-- The map has an entry for `id` whose incarnation is at least `incarnation`.
abbrev pub Knows : Membership → ℕ → ℕ → Type 0
Knows m id incarnation =
    (s : MemberState) × (lookup m id ≡ some s) × (incarnation ≤ s.info.incarnation)

merged-incarnation :
    (old : Option MemberState) (member : MemberState)
    → member.info.incarnation ≤ (merged old member).info.incarnation
merged-incarnation none member = omega arith
merged-incarnation (some current) member = omega (arith, merge-incarnation current member)

-- An observation leaves an entry that is at least as fresh as the observation.
update_member-Knows_self :
    (m : Membership) (member : MemberState)
    → Knows (update_member m member).0 member.info.node_id member.info.incarnation
update_member-Knows_self m member = (
  merged (lookup m member.info.node_id) member,
  lookup-update_member_self m member,
  merged-incarnation (lookup m member.info.node_id) member,
)

pub update_member-Knows :
    (m : Membership) (member : MemberState) (id incarnation : ℕ)
    → Knows m id incarnation
    → Knows (update_member m member).0 id incarnation
update_member-Knows m member id incarnation (s, e, l) = elim (ℕ_discrete id member.info.node_id) [
  | no other ↦ (s, lookup-update_member_ne m member id other ∙ e, l)
  | yes same ↦
      let old : lookup m member.info.node_id ≡ some s = rw (← same) e in
      (
        merged (some s) member,
        rw same (lookup-update_member_self m member ∙ ap (λ o. some (merged o member)) old),
        omega (arith, merge-incarnation s member),
      )
]

-- Merging a list of observations forgets no member and takes none back to an older incarnation.
pub update_all-Knows_old :
    (m : Membership) (members : List MemberState) (id incarnation : ℕ)
    → Knows m id incarnation
    → Knows (update_all m members) id incarnation
unfolding update_all
update_all-Knows_old m [] id incarnation k = k
update_all-Knows_old m (x ∷ rest) id incarnation k =
    update_all-Knows_old (update_member m x).0 rest id incarnation
      (update_member-Knows m x id incarnation k)

-- Merging a list of observations leaves every observed member at least as fresh as each observation
-- of it.
pub update_all-Knows_new :
    (m : Membership) (members : List MemberState) (member : MemberState)
    → Member member members
    → Knows (update_all m members) member.info.node_id member.info.incarnation
unfolding update_all
update_all-Knows_new m [] member w = elim w [ ]
update_all-Knows_new m (x ∷ rest) member (here e) =
    update_all-Knows_old (update_member m x).0 rest member.info.node_id member.info.incarnation
      (rw e (update_member-Knows_self m x))
update_all-Knows_new m (x ∷ rest) member (there w) =
    update_all-Knows_new (update_member m x).0 rest member w

changed-none :
    (m : Membership) (member : MemberState)
    → lookup m member.info.node_id ≡ none
    → (update_member m member).1 ≡ true
unfolding update_member
changed-none m member e = rw (e, update_member)

changed-some :
    (m : Membership) (member current : MemberState)
    → lookup m member.info.node_id ≡ some current
    → (update_member m member).1 ≡ (merge current member).1
unfolding update_member
changed-some m member current e = rw (e, update_member)

same-lookup :
    (m : Membership) (member current : MemberState)
    → lookup m member.info.node_id ≡ some current
    → (merge current member).0 ≡ current
    → (q : ℕ) → lookup (update_member m member).0 q ≡ lookup m q
same-lookup m member current e same q = elim (ℕ_discrete q member.info.node_id) [
  | no other ↦ lookup-update_member_ne m member q other
  | yes hit ↦ rw hit (
      lookup-update_member_self m member
      ∙ ap (λ o. some (merged o member)) e
      ∙ ap some same
      ∙ sym e)
]

-- The result of `update_member` is `false` exactly when the map is left as it was.
pub update_member-changed :
    (m : Membership) (member : MemberState)
    → IsKeyed m
    → ((update_member m member).1 ≡ false) ↔ ((update_member m member).0 ≡ m)
update_member-changed m member k = elim (Option-cases (lookup m member.info.node_id)) [
  | inl e ↦ (
    (λ f. absurd (true≢false (sym (changed-none m member e) ∙ f))),
    λ f. absurd (
        none-ne-some (
          sym e
          ∙ ap (λ n. lookup n member.info.node_id) (sym f)
          ∙ lookup-update_member_self m member)),
  )
  | inr (current, e) ↦ (
    (λ f.
        kept current e
          ((merge-changed current member).0 (sym (changed-some m member current e) ∙ f))),
    λ f. changed-some m member current e ∙ (merge-changed current member).1 (entry current e f),
  )
]
  where
    kept :
        (current : MemberState)
        → lookup m member.info.node_id ≡ some current
        → (merge current member).0 ≡ current
        → (update_member m member).0 ≡ m
    kept current e same =
        let maps =
          ext (update_member m member).0.members m.members (update_member-IsKeyed m member k).sorted
            k.sorted (same-lookup m member current e same) in
        λ i. record { members = maps i }

    entry :
        (current : MemberState)
        → lookup m member.info.node_id ≡ some current
        → (update_member m member).0 ≡ m
        → (merge current member).0 ≡ current
    entry current e f = some-injective (
        ap (λ o. some (merged o member)) (sym e)
        ∙ sym (lookup-update_member_self m member)
        ∙ ap (λ n. lookup n member.info.node_id) f
        ∙ e)
