-- ===== src/Gossip/Chain.antt =====
-- The calls of a bootstrap keep what a message and a rebuild of the ring keep.
use percas.Base.{returned, true, false, ap, ℕ, suc, List, [], ◌∷◌, Option, none, some, length, ◌*◌}
use percas.Member.{from_iter}
use percas.Text.{Url}
use percas.Node.{NodeJson}
use percas.Bytes.{AsRef, Mur3}
use percas.Exec.{Keeps, pure-Keeps, bind-Keeps}
use percas.Gossip.{
  GossipMessage, ping, ack, sync, World, ◌>>=◌, ◌>>◌, pure, alive_at, handle_message,
}
use percas.Gossip.Tasks.{
  bootstrap_ping_end, bootstrap_sync_end, bootstrap_pings, bootstrap_syncs, rebuild_ring,
  fast_bootstrap, ping_request, sync_request, modify, start,
}

module _ ⦃json : NodeJson⦄ (P : World → Type 0)
    (h : (now : ℕ) (message : GossipMessage) → Keeps P (handle_message now message)) where
  pub handled-Keeps :
      (now : ℕ) (received : GossipMessage) → Keeps P (handle_message now received >>= λ _. pure tt)
  handled-Keeps now received =
      bind-Keeps P (handle_message now received) (λ _. pure tt) (h now received)
        (λ _. pure-Keeps P tt)

  bootstrap_ping_end-Keeps :
      (now : ℕ) (answer : Option GossipMessage) → Keeps P (bootstrap_ping_end now answer)
  unfolding bootstrap_ping_end
  bootstrap_ping_end-Keeps now (some (ack info)) = handled-Keeps now (ack info)
  bootstrap_ping_end-Keeps now (some (ping info)) = pure-Keeps P tt
  bootstrap_ping_end-Keeps now (some (sync members)) = pure-Keeps P tt
  bootstrap_ping_end-Keeps now none = pure-Keeps P tt

  bootstrap_sync_end-Keeps :
      (now : ℕ) (answer : Option GossipMessage) → Keeps P (bootstrap_sync_end now answer)
  unfolding bootstrap_sync_end
  bootstrap_sync_end-Keeps now (some (sync members)) = handled-Keeps now (sync members)
  bootstrap_sync_end-Keeps now (some (ping info)) = pure-Keeps P tt
  bootstrap_sync_end-Keeps now (some (ack info)) = pure-Keeps P tt
  bootstrap_sync_end-Keeps now none = pure-Keeps P tt

  bootstrap_pings-Keeps :
      (reply : Url → GossipMessage → Option GossipMessage) (clock : ℕ → ℕ) (i : ℕ)
      (peers : List Url)
      → Keeps P (bootstrap_pings reply clock i peers)
  unfolding bootstrap_pings
  bootstrap_pings-Keeps reply clock i [] w = pure-Keeps P tt w
  bootstrap_pings-Keeps reply clock i (peer ∷ rest) w =
      bind-Keeps P (bootstrap_ping_end (clock i) (reply peer (ping_request w.state)))
        (λ _. bootstrap_pings reply clock (suc i) rest)
        (bootstrap_ping_end-Keeps (clock i) (reply peer (ping_request w.state)))
        (λ _. bootstrap_pings-Keeps reply clock (suc i) rest) w

  bootstrap_syncs-Keeps :
      (reply : Url → GossipMessage → Option GossipMessage) (clock : ℕ → ℕ) (i : ℕ)
      (peers : List Url)
      → Keeps P (bootstrap_syncs reply clock i peers)
  unfolding bootstrap_syncs
  bootstrap_syncs-Keeps reply clock i [] w = pure-Keeps P tt w
  bootstrap_syncs-Keeps reply clock i (peer ∷ rest) w =
      bind-Keeps P (bootstrap_sync_end (clock i) (reply peer (sync_request w.state)))
        (λ _. bootstrap_syncs reply clock (suc i) rest)
        (bootstrap_sync_end-Keeps (clock i) (reply peer (sync_request w.state)))
        (λ _. bootstrap_syncs-Keeps reply clock (suc i) rest) w

module _ ⦃json : NodeJson⦄ ⦃a : AsRef ℕ⦄ ⦃m : Mur3⦄ (P : World → Type 0)
    (h : (now : ℕ) (message : GossipMessage) → Keeps P (handle_message now message))
    (r : (now : ℕ) → Keeps P (modify (rebuild_ring now))) where
  pub fast_bootstrap-Keeps :
      (reply : Url → GossipMessage → Option GossipMessage) (clock : ℕ → ℕ)
      → Keeps P (fast_bootstrap reply clock)
  unfolding fast_bootstrap
  fast_bootstrap-Keeps reply clock w =
      let peers = w.state.initial_peers in
      bind-Keeps P (bootstrap_pings reply clock 0 peers)
        (λ _.
          bootstrap_syncs reply clock (length peers) peers
          >> modify (rebuild_ring (clock (2 * length peers))))
        (bootstrap_pings-Keeps P h reply clock 0 peers)
        (λ _.
          bind-Keeps P (bootstrap_syncs reply clock (length peers) peers)
            (λ _. modify (rebuild_ring (clock (2 * length peers))))
            (bootstrap_syncs-Keeps P h reply clock (length peers) peers)
            (λ _. r (clock (2 * length peers))))
        w

  -- The same of what `start` does before it spawns its tasks.
  pub start-Keeps :
      (reply : Url → GossipMessage → Option GossipMessage) (clock : ℕ → ℕ) (now : ℕ)
      → Keeps P
          (modify (λ g. record g { membership = from_iter (alive_at g.current_node now ∷ []) }))
      → Keeps P (start reply clock now)
  unfolding start
  start-Keeps reply clock now enter w =
      bind-Keeps P
        (modify (λ g. record g { membership = from_iter (alive_at g.current_node now ∷ []) }))
        (λ _. fast_bootstrap reply clock >>= λ _.
          (λ v. (v, returned (elim v.state.membership.members [ [] ↦ false | x ∷ xs ↦ true ]))))
        enter
        (λ _.
          bind-Keeps P (fast_bootstrap reply clock)
            (λ _.
              (λ v. (v, returned (elim v.state.membership.members [ [] ↦ false | x ∷ xs ↦ true ]))))
            (fast_bootstrap-Keeps reply clock) (λ _ v v' b k e. rw (← ap (λ p. p.0) e) k))
        w
