-- ===== src/Tests/Exchange.antt =====
-- Exchanges of views, retries, the removal and the bootstrap, from the nodes of the gossip tests.
use percas.Base.{
  ℕ, zero, suc, ◌≤◌, ◌<◌, max, [], ◌∷◌, Option, none, some, Bool, true, ◌≡◌, ◌≢◌, ◌⊎◌, refl, arith,
  returned, if◌then◌else◌, ◌==◌, or_else, Outcome,
}
use percas.Ord.{nat_ord}
use percas.Text.{Url, ◌<>◌}
use percas.BTreeMap.{get, insert, values}
use percas.Node.{NodeInfo}
use percas.Member.{
  MemberState, Membership, alive, dead, update_member, update_all, default, is_dead,
}
use percas.Member.Map.{lookup}
use percas.Member.View.{level, says, all_say, level-update_all}
use percas.Ring.Points.{Owns}
use percas.Gossip.{
  GossipMessage, ping, ack, sync, World, ◌>>◌, pure, handle_message, new, alive_at, GossipState,
}
use percas.Gossip.Tasks.{mark_dead, ping_request, start}
use percas.Gossip.Keeps.{mark_dead-IsSound}
use percas.Gossip.Invariant.{Inv}
use percas.Gossip.Run.{message, start_here, next_step, Reach-Inv}
use percas.Gossip.Removal.{expired}
use percas.Gossip.Exchange.{sync_exchange}
use percas.Gossip.Bootstrap.{start-true}
use percas.Gossip.Loops.{Answer, Join, Backon, Attempts, send, remove_turn}
use percas.Gossip.Loops as Loops
use percas.Gossip.Loops.Retry.{ping-cases}
use percas.Gossip.Loops.Expiry.{remove_turn-expired}
use percas.Tests.Params.{toy_mur3, nat_as_ref, toy_json, toy_jiff, empty_disk}
use percas.Tests.Member.{peer, dead_at_nine, alive_at_two}
use percas.Tests.Gossip.{started, heard, handled_ping, started-Inv}

level-update_all_example :
    level (update_all default (dead_at_nine ∷ alive_at_two ∷ [])) 3
    ≡ max (level default 3) (all_say (dead_at_nine ∷ alive_at_two ∷ []) 3)
level-update_all_example = level-update_all default (dead_at_nine ∷ alive_at_two ∷ []) 3

heard-Inv : Inv "d" 1 heard
heard-Inv =
    Reach-Inv "d" 1 started-Inv
      (next_step start_here (message 5 (ping peer) (some (ack _)) handled_ping))

-- The peer, which has heard of nobody.
abbrev alone : World
alone = record { state = new peer [] "e"; files = empty_disk }

abbrev told : World
told = (handle_message 6 (sync (values heard.state.membership.members)) alone).0

abbrev reply : GossipMessage
reply = sync (values told.state.membership.members)

abbrev answered : World
answered = (handle_message 7 reply heard).0

abbrev last : Option GossipMessage
last = some (sync (values answered.state.membership.members))

tells :
    handle_message 6 (sync (values heard.state.membership.members)) alone
    ≡ (told, returned (some reply))
unfolding handle_message is_dead get update_member update_all new default insert
tells = refl

answers : handle_message 7 reply heard ≡ (answered, returned last)
unfolding handle_message is_dead get update_member update_all new default insert
answers = refl

below : says (alive_at heard.state.current_node 7) 3 ≤ level heard.state.membership 3
unfolding handle_message get is_dead update_member new default insert
below = omega arith

sync_exchange_example :
    (level told.state.membership 3
      ≡ max
          (max (level alone.state.membership 3) (level heard.state.membership 3))
          (says (alive_at alone.state.current_node 6) 3))
    × (level answered.state.membership 3 ≡ level told.state.membership 3)
unfolding new default
sync_exchange_example =
    sync_exchange heard answered alone told 6 7 reply last 3 heard-Inv.sound.keyed
      percas.Member.Map.default-IsKeyed below tells answers

instance abbrev toy_join : Join
toy_join = record { join = λ url name. some (url <> name) }

-- The first success among the attempts from 0 to `times`.
tries : {A : Type 0} → ℕ → (ℕ → Option A) → Option A
tries zero attempt = attempt 0
tries (suc times) attempt = or_else (attempt 0) (tries times (λ i. attempt (suc i)))

tries-first :
    {A : Type 0} (times i : ℕ) (attempt : ℕ → Option A) (a : A)
    → i ≤ times
    → attempt i ≡ some a
    → ((j : ℕ) → j < i → attempt j ≡ none)
    → tries times attempt ≡ some a
unfolding tries
tries-first zero zero attempt a l e h = e
tries-first zero (suc i) attempt a l e h = absurd (omega (arith, l))
tries-first (suc times) zero attempt a l e h = rw e refl
tries-first (suc times) (suc i) attempt a l e h = rw (h 0 (omega arith)) (
    tries-first times i (λ j. attempt (suc j)) a (omega arith) e
      (λ j k. h (suc j) (omega (arith, k))))

tries-none :
    {A : Type 0} (times : ℕ) (attempt : ℕ → Option A)
    → ((j : ℕ) → j ≤ times → attempt j ≡ none)
    → tries times attempt ≡ none
unfolding tries
tries-none zero attempt h = h 0 (omega arith)
tries-none (suc times) attempt h =
    rw (h 0 (omega arith))
      (tries-none times (λ j. attempt (suc j)) (λ j k. h (suc j) (omega (arith, k))))

instance abbrev toy_backon : Backon
toy_backon = record { retry = tries; first_success = tries-first; all_fail = tries-none }

-- The second attempt brings an ack.
abbrev network : Attempts
network i url m = if i == 0 then none else some (record { status = 200; json = some (ack peer) })

ping-cases_example :
    (((i : ℕ) → i ≤ 3 → send (network i) peer.advertise_ctrl_url (ping_request heard.state) ≡ none)
      × (Loops.ping network 9 peer heard
          ≡ (record heard { state = mark_dead heard.state peer }, returned tt)))
    ⊎ ((i : ℕ) × (m : GossipMessage) × (i ≤ 3)
        × (send (network i) peer.advertise_ctrl_url (ping_request heard.state) ≡ some m)
        × ((k : ℕ)
            → k < i
            → send (network k) peer.advertise_ctrl_url (ping_request heard.state) ≡ none)
        × (((info : NodeInfo) × (m ≡ ack info)
              × (Loops.ping network 9 peer heard ≡ (handle_message 9 (ack info) >> pure tt) heard))
            ⊎ (((info : NodeInfo) → m ≢ ack info)
                × (Loops.ping network 9 peer heard
                    ≡ (record heard { state = mark_dead heard.state peer }, returned tt)))))
ping-cases_example = ping-cases network 9 peer heard

abbrev marked : GossipState
marked = mark_dead heard.state peer

abbrev cleaned : GossipState
cleaned = (remove_turn (λ _. 40_000_000_000) 50_000_000_000 marked).0

cleans : remove_turn (λ _. 40_000_000_000) 50_000_000_000 marked ≡ (cleaned, returned tt)
unfolding remove_turn mark_dead get handle_message is_dead update_member new default insert
cleans = refl

is_expired : expired 40_000_000_000 (lookup marked.membership 3) ≡ true
unfolding expired get mark_dead handle_message is_dead update_member new default insert
is_expired = refl

remove_turn-expired_example : (lookup cleaned.membership 3 ≡ none) × ¬ Owns cleaned.ring.nodes 77 3
unfolding mark_dead get handle_message is_dead update_member new default insert
remove_turn-expired_example =
    remove_turn-expired 40_000_000_000 50_000_000_000 marked cleaned 3 77
      (mark_dead-IsSound heard.state peer heard-Inv.sound) cleans is_expired (omega arith)

abbrev nobody : Url → GossipMessage → Option GossipMessage
nobody url m = none

abbrev ready : World × Outcome Bool
ready = start nobody (λ i. i) 5 started

starts : start nobody (λ i. i) 5 started ≡ (ready.0, returned true)
unfolding start new percas.Member.from_iter update_all update_member get default insert
starts = refl

start-true_example : true ≡ true
start-true_example = start-true nobody (λ i. i) 5 started ready.0 true starts
