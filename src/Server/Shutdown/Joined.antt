-- ===== src/Server/Shutdown/Joined.antt =====
-- That a shutdown waits for what was started.
use percas.Base.{
  List, [], ◌∷◌, Result, ok, returned, ◌≡◌, ◌⊎◌, inl, inr, refl, ◌∙◌, Member, here, there,
}
use percas.Exec.{Call}
use percas.Server.Listen.{Process, Service}
use percas.Server.Serve.{ServerState}
use percas.Server.Shutdown.{Ends, stop, wait_for, each, join_until, await_shutdown}

-- The services of the list have been waited for between two states, and nothing was spawned.
record Waited (services : List Service) (s u : Process) : Type 0 where
  spawned : u.spawned ≡ s.spawned
  waited : (x : Service) → Member x services ⊎ Member x s.joined → Member x u.joined

-- A call that returns and has waited.
record Waits {A : Type 0} (services : List Service) (s : Process) (a : A) (m : Call Process A)
    : Type 0 where
  left : Process
  returns : m s ≡ (left, returned a)
  did : Waited services s left

Waited-there :
    (x : Service) (rest : List Service) (s u : Process)
    → Waited rest (record s { joined = x ∷ s.joined }) u
    → Waited (x ∷ rest) s u
Waited-there x rest s u w = record { spawned = w.spawned; waited = λ y m. w.waited y (at y m) }
  where
    at :
        (y : Service)
        → Member y (x ∷ rest) ⊎ Member y s.joined
        → Member y rest ⊎ Member y (x ∷ s.joined)
    at y (inl (here e)) = inr (here e)
    at y (inl (there m)) = inl m
    at y (inr m) = inr (there m)

each-stop-eq :
    (services : List Service) (s : Process)
    → (u : Process) × (each stop services s ≡ (u, returned tt))
      × (u.spawned ≡ s.spawned)
      × (u.joined ≡ s.joined)
unfolding each
each-stop-eq [] s = (s, refl, refl, refl)
each-stop-eq (x ∷ rest) s = each-stop-eq rest (record s { stopped = x ∷ s.stopped })

each_wait-Waits :
    (services : List Service) (s : Process) → Waits services s tt (each wait_for services)
unfolding each
each_wait-Waits [] s = record {
  left = s;
  returns = refl;
  did = record { spawned = refl; waited = λ x m. elim m [ inl k ↦ elim k [ ] | inr k ↦ k ] };
}
each_wait-Waits (x ∷ rest) s =
    let w = each_wait-Waits rest (record s { joined = x ∷ s.joined }) in
    record { left = w.left; returns = w.returns; did = Waited-there x rest s w.left w.did }

module _ ⦃e : Ends⦄ where
  join_until-Waits :
      (services : List Service) (s : Process)
      → ((x : Service) → Member x services → e.ends x ≡ ok (ok tt))
      → Waits services s (ok tt) (join_until services)
  join_until-Waits [] s h = record {
    left = s;
    returns = refl;
    did = record { spawned = refl; waited = λ x m. elim m [ inl k ↦ elim k [ ] | inr k ↦ k ] };
  }
  join_until-Waits (x ∷ rest) s h =
      let w = join_until-Waits rest (record s { joined = x ∷ s.joined }) (λ y m. h y (there m)) in
      record {
        left = w.left;
        returns = rw (h x (here refl)) w.returns;
        did = Waited-there x rest s w.left w.did;
      }

  -- The services that the state of a server has handles of.
  abbrev pub IsHeld : ServerState → Service → Type 0
  IsHeld server x =
      (x ≡ server.server_fut) ⊎ (Member x server.gossip_futs ⊎ Member x server.shutdown_tx_actions)

  -- Where the data server ends without a panic, the services of the gossip end with `Ok`, and each of them
  -- comes up among those that complete: the shutdown returns, and has waited for every service that the state
  -- of the server has a handle of. It spawns nothing.
  pub await_shutdown-joined :
      (server : ServerState) (s : Process) (r : Result (Unit {0}) (Unit {0}))
      → e.ends server.server_fut ≡ ok r
      → ((x : Service) → Member x (e.completes server.gossip_futs) → e.ends x ≡ ok (ok tt))
      → ((x : Service) → Member x server.gossip_futs → Member x (e.completes server.gossip_futs))
      → (u : Process) × (await_shutdown server s ≡ (u, returned tt))
        × (u.spawned ≡ s.spawned)
        × ((x : Service) → IsHeld server x → Member x u.joined)
  unfolding await_shutdown
  await_shutdown-joined server s r er eg all =
      let (s1, e1, same1, joined1) = each-stop-eq server.shutdown_tx_actions s in
      let w2 = each_wait-Waits server.shutdown_tx_actions s1 in
      let s3 : Process = record w2.left { joined = server.server_fut ∷ w2.left.joined } in
      let w4 = join_until-Waits (e.completes server.gossip_futs) s3 eg in
      (
        w4.left,
        rw (e1, await_shutdown, w2.returns, er, w4.returns) refl,
        w4.did.spawned ∙ w2.did.spawned ∙ same1,
        λ x held. elim held [
          | inl same ↦ w4.did.waited x (inr (here same))
          | inr (inl m) ↦ w4.did.waited x (inl (all x m))
          | inr (inr m) ↦ w4.did.waited x (inr (there (w2.did.waited x (inl m))))
        ],
      )
