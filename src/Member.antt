-- ===== src/Member.antt =====
-- crates/gossip/src/member.rs: the membership map and the rules by which an observation of a member
-- is merged into it. Log lines leave no trace. A timestamp is the number of nanoseconds since the
-- least timestamp of the crate `jiff`, an identifier the 128-bit number of its bytes.
pub mod Merge
pub mod Map
pub mod Fresh
pub mod View
use percas.Base.{
  ℕ, ◌+◌, max, List, [], ◌∷◌, Option, none, some, Bool, true, false, ◌&&◌, ◌||◌, not, ltb, leb,
  ◌==◌, if◌then◌else◌,
}
use percas.Ord.{nat_ord}
use percas.BTreeMap.{BTreeMap, get, insert, remove}
use percas.Node.{NodeInfo}

pub data MemberStatus : Type 0 where
  alive dead : MemberStatus

-- The derived `PartialEq` of `MemberStatus`.
abbrev pub status_eq : MemberStatus → MemberStatus → Bool
status_eq alive alive = true
status_eq alive dead = false
status_eq dead alive = false
status_eq dead dead = true

-- Returns the status that is left in `self`.
unfoldable pub downgrade_to : MemberStatus → MemberStatus → MemberStatus
downgrade_to alive alive = alive
downgrade_to alive dead = dead
downgrade_to dead other = other

pub record MemberState : Type 0 where
  pub info : NodeInfo
  pub status : MemberStatus
  pub heartbeat : ℕ

pub record Membership : Type 0 where
  pub members : BTreeMap ℕ MemberState

unfoldable pub default : Membership
default = record { members = [] }

unfoldable pub is_dead : Membership → ℕ → Bool
is_dead m id = elim (get m.members id) [ none ↦ false | some member ↦ status_eq member.status dead ]

-- The arm `Entry::Occupied` of `update_member`: what is left in the entry, and the result.
unfoldable pub merge : MemberState → MemberState → MemberState × Bool
unfolding downgrade_to
merge current member =
    if ltb current.info.incarnation member.info.incarnation
    then (member, true)
    else if ltb member.info.incarnation current.info.incarnation
    then (current, false)
    else let heartbeat = max current.heartbeat member.heartbeat in
      let status =
        if leb current.heartbeat member.heartbeat && not (status_eq member.status current.status)
        then member.status
        else downgrade_to current.status member.status in
      (
        record current { status = status; heartbeat = heartbeat },
        not (status_eq status current.status) || not (heartbeat == current.heartbeat),
      )

unfoldable pub update_member : Membership → MemberState → Membership × Bool
unfolding merge
update_member m member = elim (get m.members member.info.node_id) [
  | none ↦ (record { members = insert m.members member.info.node_id member }, true)
  | some current ↦
      let (entry, changed) = merge current member in
      (record { members = insert m.members member.info.node_id entry }, changed)
]

unfoldable pub remove_member : Membership → ℕ → Membership
remove_member m id = record { members = remove m.members id }

-- The loop of `from_iter`, and of the arm `Sync` of `handle_message`.
unfoldable pub update_all : Membership → List MemberState → Membership
update_all m [] = m
update_all m (member ∷ rest) = update_all (update_member m member).0 rest

unfoldable pub from_iter : List MemberState → Membership
from_iter iter = update_all default iter
