-- ===== src/Member/Merge.antt =====
-- The merge rules of `Membership::update_member` for a member that is known already.
use percas.Base.{max, ◌<◌, ◌≡◌, ◌↔◌, ◌⊎◌, true, false, arith, ap}
use percas.Member.{MemberState, MemberStatus, status_eq, merge}

-- At equal incarnations the status of the observation is taken, however old its heartbeat is, and
-- the heartbeat is the later of the two; the rest of the entry stays.
pub merge-same_incarnation :
    (current member : MemberState)
    → current.info.incarnation ≡ member.info.incarnation
    → ((merge current member).0.status ≡ member.status)
      × ((merge current member).0.heartbeat ≡ max current.heartbeat member.heartbeat)
      × ((merge current member).0.info ≡ current.info)
unfolding merge
merge-same_incarnation current member e = ground arith

-- Every case of a merge: an observation with a higher incarnation replaces the entry; one with a lower
-- incarnation is ignored; at equal incarnations the entry takes the status of the observation and the
-- later heartbeat and keeps the rest.
pub merge-cases :
    (current member : MemberState)
    → ((current.info.incarnation < member.info.incarnation)
        × (merge current member ≡ (member, true)))
      ⊎ (((member.info.incarnation < current.info.incarnation)
            × (merge current member ≡ (current, false)))
          ⊎ ((current.info.incarnation ≡ member.info.incarnation)
              × ((merge current member).0 ≡ record current {
                status = member.status;
                heartbeat = max current.heartbeat member.heartbeat;
              })))
unfolding merge
merge-cases current member = ground arith

-- The incarnation that is left is the higher of the two.
pub merge-incarnation :
    (current member : MemberState)
    → (merge current member).0.info.incarnation
      ≡ max current.info.incarnation member.info.incarnation
unfolding merge
merge-incarnation current member = ground arith

status_eq_iff : (s t : MemberStatus) → (status_eq s t ≡ true) ↔ (s ≡ t)
status_eq_iff s t = ground arith

-- The result is `true` exactly when the entry changed.
pub merge-changed :
    (current member : MemberState)
    → ((merge current member).1 ≡ false) ↔ ((merge current member).0 ≡ current)
unfolding merge
merge-changed current member = (
  (λ e. ground arith),
  λ e. ground (
    arith,
    ap (λ (s : MemberState). s.status) e,
    ap (λ (s : MemberState). s.heartbeat) e,
    ap (λ (s : MemberState). s.info.incarnation) e,
  ),
)

-- Merging the same observation twice changes nothing the second time.
pub merge_idem :
    (current member : MemberState)
    → merge (merge current member).0 member ≡ ((merge current member).0, false)
unfolding merge
merge_idem current member = ground arith
