-- ===== src/Gossip/Loops.antt =====
-- crates/gossip/src/gossip.rs: the transport, the retries of a ping and of a sync, and the bodies of the
-- four loops that `start` spawns, each seen as if nothing else ran while it waits.
pub mod Retry
pub mod Expiry
use percas.Base.{
  ℕ, ◌≤◌, ◌<◌, ◌≡◌, List, [], ◌∷◌, Option, none, some, Outcome, returned, panicked, ◌&&◌, leb,
  if◌then◌else◌,
}
use percas.Text.{String, Url}
use percas.Node.{NodeInfo, NodeJson}
use percas.Bytes.{AsRef, Mur3}
use percas.Gossip.{GossipMessage, GossipState, World, Exec}
use percas.Gossip.Tasks.{
  Jiff, ping_request, sync_request, ping_end, sync_end, fast_bootstrap, remove_dead_members,
  rebuild_ring, modify,
}
use percas.Gossip.Tick.{Rng, Tick, skip, contact, bootstrap, tick}

-- What `reqwest` answers to a POST: the status, and the message that the JSON of the body is.
pub record Answer : Type 0 where
  pub status : ℕ
  pub json : Option GossipMessage

-- `Url::join`; `none` is an error.
pub record Join : Type 0 where
  pub join : Url → String → Option Url

-- `StatusCode::is_success`.
abbrev pub is_success : ℕ → percas.Base.Bool
is_success status = leb 200 status && leb status 299

-- `Transport::send`, over a network that answers POST requests; `none` is an error.
unfoldable pub send :
    ⦃j : Join⦄ → (Url → GossipMessage → Option Answer) → Url → GossipMessage → Option GossipMessage
send ⦃j⦄ post url message = elim (j.join url "gossip") [
  | none ↦ none
  | some to ↦ elim (post to message) [
    | none ↦ none
    | some answer ↦ if is_success answer.status then answer.json else none
  ]
]

abbrev pub default_retries : ℕ
default_retries = 3

-- `Retryable::retry` of the crate `backon` with a constant delay: after the first attempt, numbered 0, as
-- many more as it is told, up to the first that succeeds.
pub record Backon : Type 1 where
  pub retry : {A : Type 0} → ℕ → (ℕ → Option A) → Option A
  pub first_success :
      {A : Type 0} (times i : ℕ) (attempt : ℕ → Option A) (a : A)
      → i ≤ times
      → attempt i ≡ some a
      → ((j : ℕ) → j < i → attempt j ≡ none)
      → retry times attempt ≡ some a
  pub all_fail :
      {A : Type 0} (times : ℕ) (attempt : ℕ → Option A)
      → ((j : ℕ) → j ≤ times → attempt j ≡ none)
      → retry times attempt ≡ none

-- The network at each attempt.
abbrev pub Attempts : Type 0
Attempts = ℕ → Url → GossipMessage → Option Answer

module _ ⦃json : NodeJson⦄ ⦃j : Join⦄ ⦃b : Backon⦄ where
  unfoldable pub ping : Attempts → ℕ → NodeInfo → Exec (Unit {0})
  unfolding send ping_end
  ping network now peer w =
      ping_end now peer
        (b.retry default_retries
          (λ i. send (network i) peer.advertise_ctrl_url (ping_request w.state)))
        w

  unfoldable pub sync : Attempts → ℕ → NodeInfo → Exec (Unit {0})
  unfolding send sync_end
  sync network now peer w =
      sync_end now peer
        (b.retry default_retries
          (λ i. send (network i) peer.advertise_ctrl_url (sync_request w.state)))
        w

module _ ⦃json : NodeJson⦄ ⦃j : Join⦄ ⦃b : Backon⦄ ⦃a : AsRef ℕ⦄ ⦃m : Mur3⦄ ⦃rng : Rng⦄ where
  -- What a tick of the ping or of the anti-entropy task does with its choice.
  abbrev pub act : (NodeInfo → Exec (Unit {0})) → Exec (Unit {0}) → Outcome Tick → Exec (Unit {0})
  act reach recover (returned skip) w = (w, returned tt)
  act reach recover (returned (contact info)) w = reach info w
  act reach recover (returned bootstrap) w = recover w
  act reach recover panicked w = (w, panicked)

  -- One turn of the loop of the ping task. `reply` and `clock` are for `fast_bootstrap`.
  unfoldable pub ping_turn :
      Attempts → ℕ → (Url → GossipMessage → Option GossipMessage) → (ℕ → ℕ) → Exec (Unit {0})
  unfolding ping tick fast_bootstrap
  ping_turn network now reply clock w =
      act (ping network now) (fast_bootstrap reply clock) (tick w.state.membership) w

  -- One turn of the loop of the anti-entropy task.
  unfoldable pub sync_turn :
      Attempts → ℕ → (Url → GossipMessage → Option GossipMessage) → (ℕ → ℕ) → Exec (Unit {0})
  unfolding sync tick fast_bootstrap
  sync_turn network now reply clock w =
      act (sync network now) (fast_bootstrap reply clock) (tick w.state.membership) w

module _ ⦃jiff : Jiff⦄ ⦃a : AsRef ℕ⦄ ⦃m : Mur3⦄ where
  -- Whether the ring is rebuilt after a removal.
  abbrev pub rebuild_after :
      ℕ → GossipState × Outcome (List NodeInfo) → GossipState × Outcome (Unit {0})
  rebuild_after now (g, panicked) = (g, panicked)
  rebuild_after now (g, returned []) = (g, returned tt)
  rebuild_after now (g, returned (x ∷ xs)) = (rebuild_ring now g, returned tt)

  -- One turn of the loop that removes dead members.
  unfoldable pub remove_turn : (ℕ → ℕ) → ℕ → GossipState → GossipState × Outcome (Unit {0})
  unfolding remove_dead_members rebuild_ring
  remove_turn clock now g = rebuild_after now (remove_dead_members clock g)
