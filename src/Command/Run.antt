-- ===== src/Command/Run.antt =====
-- cmd/percas/src/start.rs: a whole run of a node, from its start to the end of its shutdown.
use percas.Base.{
  ℕ, List, [], ◌∷◌, some, false, ok, returned, ◌≡◌, ◌⊎◌, inl, inr, refl, sym, ap, subst, ◌∙◌,
  Member, here, there,
}
use percas.Bytes.{AsRef, Mur3}
use percas.Config.{Config}
use percas.Node.{NodeJson}
use percas.Engine.Open.{FoyerBuilder}
use percas.Server.Listen.{
  Process, Service, Network, gossip_server, ping_task, anti_entropy_task, rebuild_ring_task,
  remove_dead_members_task, data_server, report_metrics, is_unspecified,
}
use percas.Server.Serve.{Bootstrap, ServerState}
use percas.Server.Shutdown.{Ends}
use percas.Server.Shutdown.Joined.{await_shutdown-joined}
use percas.Server.Serve.Established.{with_gossip}
use percas.Command.{Host, serve, run_server}
use percas.Command.Started.{serve-NodeStarted}

abbrev all_gossip : List Service
all_gossip =
    gossip_server ∷ ping_task ∷ anti_entropy_task ∷ rebuild_ring_task ∷ remove_dead_members_task
    ∷ []

-- Every service of a started node is one of its handles.
spawned-held :
    (x : Service)
    → Member x (report_metrics ∷ data_server ∷ with_gossip [])
    → (x ≡ data_server) ⊎ (Member x all_gossip ⊎ Member x (report_metrics ∷ []))
spawned-held x (here e) = inr (inr (here e))
spawned-held x (there (here e)) = inl e
spawned-held x (there (there m)) = inr (inl (gossip m))
  where
    gossip : Member x (with_gossip []) → Member x all_gossip
    gossip (here e) = there (there (there (there (here e))))
    gossip (there (here e)) = there (there (there (here e)))
    gossip (there (there (here e))) = there (there (here e))
    gossip (there (there (there (here e)))) = there (here e)
    gossip (there (there (there (there m)))) = elim m [ here e ↦ here e | there k ↦ elim k [ ] ]

module _ ⦃h : Host⦄ ⦃f : FoyerBuilder⦄ ⦃n : Network⦄ ⦃json : NodeJson⦄ ⦃a : AsRef ℕ⦄ ⦃m : Mur3⦄
    ⦃b : Bootstrap⦄ ⦃e : Ends⦄ where
  -- Where the local IP address of the machine, if it is known, is not the unspecified one: when a start from
  -- a process without services reaches the wait for the shutdown, each service ends with `Ok`, and each
  -- future of a list is among those that complete, then `run_server` returns `Ok`, and every service that it
  -- has spawned has been waited for.
  pub run_server-joined :
      (config : Config) (node_id : ℕ) (s w : Process) (server : ServerState)
      → ((ip : List ℕ) → n.local_ip ≡ some ip → is_unspecified ip ≡ false)
      → s.spawned ≡ []
      → serve config node_id s ≡ (w, returned (ok server))
      → ((x : Service) → e.ends x ≡ ok (ok tt))
      → ((services : List Service) (x : Service)
          → Member x services
          → Member x (e.completes services))
      → (u : Process) × (run_server config node_id s ≡ (u, returned (ok tt)))
        × ((x : Service) → Member x u.spawned → Member x u.joined)
  unfolding run_server
  run_server-joined config node_id s w server local none_yet started ends all =
      let services = (serve-NodeStarted config node_id s w server local started).services in
      let (u, eu, same, joined) =
        await_shutdown-joined server w (ok tt) (ends server.server_fut) (λ x k. ends x)
          (all server.gossip_futs) in
      let spawned =
        same
        ∙ ap (λ p. p.spawned) services.left
        ∙ ap (λ l. report_metrics ∷ data_server ∷ with_gossip l) none_yet in
      (
        u,
        rw (started, run_server, eu) refl,
        λ x k. joined x (
            subst (λ l. (x ≡ server.server_fut) ⊎ (Member x server.gossip_futs ⊎ Member x l))
              (sym services.actions)
              (subst (λ l. (x ≡ server.server_fut) ⊎ (Member x l ⊎ Member x (report_metrics ∷ [])))
                (sym services.gossip_futs)
                (subst (λ d. (x ≡ d) ⊎ (Member x all_gossip ⊎ Member x (report_metrics ∷ [])))
                  (sym services.server_fut) (spawned-held x (subst (Member x) spawned k))))),
      )
