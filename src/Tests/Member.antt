-- ===== src/Tests/Member.antt =====
-- The merge rules of the membership on small inputs.
use percas.Base.{
  ℕ, max, List, [], ◌∷◌, Option, none, some, ◌≡◌, ◌↔◌, ◌⊎◌, inl, inr, refl, Bool, true, false, ◌<◌,
  ◌≤◌, arith,
}
use percas.Ord.{nat_ord}
use percas.Node.{NodeInfo, load, persist}
use percas.Node.Persist.{load-persist}
use percas.Member.{MemberState, Membership, alive, dead, merge, update_member, default}
use percas.Member.Merge.{merge-cases}
use percas.Member.Map.{update_member-IsKeyed, default-IsKeyed}
use percas.Member.Fresh.{update_member-changed}
use percas.Tests.Params.{toy_json, empty_disk}

abbrev pub peer : NodeInfo
peer = record {
  node_id = 3;
  cluster_id = "c";
  advertise_data_url = "http://b/";
  advertise_ctrl_url = "http://b:1/";
  incarnation = 4;
}

abbrev pub dead_at_nine : MemberState
dead_at_nine = record { info = peer; status = dead; heartbeat = 9 }

abbrev pub alive_at_two : MemberState
alive_at_two = record { info = peer; status = alive; heartbeat = 2 }

-- A stale observation brings a dead member back.
stale : merge dead_at_nine alive_at_two ≡ (record dead_at_nine { status = alive }, true)
unfolding merge
stale = refl

merge-cases_example :
    ((peer.incarnation < peer.incarnation)
      × (merge dead_at_nine alive_at_two ≡ (alive_at_two, true)))
    ⊎ (((peer.incarnation < peer.incarnation)
          × (merge dead_at_nine alive_at_two ≡ (dead_at_nine, false)))
        ⊎ ((peer.incarnation ≡ peer.incarnation)
            × ((merge dead_at_nine alive_at_two).0 ≡ record dead_at_nine { status = alive })))
merge-cases_example = merge-cases dead_at_nine alive_at_two

abbrev known : Membership
known = (update_member default dead_at_nine).0

update_member-changed_example :
    ((update_member known alive_at_two).1 ≡ false) ↔ ((update_member known alive_at_two).0 ≡ known)
update_member-changed_example =
    update_member-changed known alive_at_two
      (update_member-IsKeyed default dead_at_nine default-IsKeyed)

persisted : (persist empty_disk peer "p").1 ≡ percas.Base.returned tt
unfolding persist
persisted = refl

load-persist_example :
    load (persist empty_disk peer "p").0 "p" "http://d/" "http://e/"
    ≡ percas.Base.returned
        (some (record peer { advertise_data_url = "http://d/"; advertise_ctrl_url = "http://e/" }))
load-persist_example = load-persist empty_disk peer "p" "http://d/" "http://e/" persisted refl
