-- ===== src/Command/Started.antt =====
-- cmd/percas/src/start.rs: what a start that reaches the wait for the shutdown has established.
use percas.Base.{
  ℕ, List, [], ◌∷◌, Option, some, true, false, ok, returned, ◌≡◌, sym, ap, subst, ◌∙◌,
  returned-injective, ok-injective, ok-ne-err, Bool-cases, inl, inr,
}
use percas.Text.{Url, FilePath}
use percas.Bytes.{AsRef, Mur3}
use percas.Config.{Config, SocketAddr}
use percas.Node.{NodeJson}
use percas.Gossip.Invariant.{Inv}
use percas.Engine.Open.{FoyerBuilder}
use percas.Gossip.Urls.{IsAt}
use percas.Exec.{◌>>=◌, unless_err, or_raise, ok-of_bind, ok-of_or_raise}
use percas.Server.Listen.{
  TcpAcceptor, Process, Network, gossip_server, ping_task, anti_entropy_task, rebuild_ring_task,
  remove_dead_members_task, data_server, report_metrics, is_unspecified,
  make_acceptor_and_advertise_url,
}
use percas.Server.Listen.Address.{Stands, make_acceptor-Stands}
use percas.Server.Serve.{Bootstrap, ServerState, start_gossip, start_server}
use percas.Server.Serve.Established.{with_gossip, start_gossip-GossipStarted, start_server-eq}
use percas.Command.{
  Host, create_dir, open_engine, set_handler, start_services, after_data, after_engine, after_dir,
  serve, failed_to_start_server, fatal_in_server_process,
}

module _ ⦃h : Host⦄ ⦃f : FoyerBuilder⦄ ⦃n : Network⦄ ⦃json : NodeJson⦄ ⦃a : AsRef ℕ⦄ ⦃m : Mur3⦄
    ⦃b : Bootstrap⦄ where
  -- A listener and its URL.
  pub record Listens (advertise : Option SocketAddr) (acceptor : TcpAcceptor) (url : Url)
      : Type 0 where
    pub local : SocketAddr
    pub bound_at : acceptor.local_addr ≡ some local
    pub stands : Stands local advertise url

  pub record ServicesStarted (config : Config) (s w : Process) (server : ServerState) : Type 0 where
    pub inv :
        Inv config.server.dir server.gossip_state.current_node.node_id
          (record { state = server.gossip_state; files = w.files })
    pub is_at :
        IsAt server.advertise_data_url server.advertise_ctrl_url server.gossip_state.current_node
    pub left : w ≡ record s {
      files = w.files;
      spawned = report_metrics ∷ data_server ∷ with_gossip s.spawned;
      handler = true;
    }
    pub server_fut : server.server_fut ≡ data_server
    pub gossip_futs :
        server.gossip_futs
        ≡ gossip_server ∷ ping_task ∷ anti_entropy_task ∷ rebuild_ring_task
          ∷ remove_dead_members_task ∷ []
    pub actions : server.shutdown_tx_actions ≡ report_metrics ∷ []

  set_handler-eq :
      (server server' : ServerState) (s w : Process)
      → set_handler server s ≡ (w, returned (ok server'))
      → (w ≡ record s { handler = true }) × (server' ≡ server)
  set_handler-eq server server' s w e = elim (Bool-cases h.set_handler) [
    | inl t ↦
        let r = rw t at e in
        (sym (ap (λ p. p.0) r), sym (ok-injective (returned-injective (ap (λ p. p.1) r))))
    | inr t ↦ absurd (ok-ne-err (sym (returned-injective (ap (λ p. p.1) (rw t at e)))))
  ]

  left_of :
      (s u w : Process)
      → w ≡ record u { spawned = report_metrics ∷ data_server ∷ u.spawned; handler = true }
      → u ≡ record s { files = u.files; spawned = with_gossip s.spawned }
      → w ≡ record s {
        files = w.files;
        spawned = report_metrics ∷ data_server ∷ with_gossip s.spawned;
        handler = true;
      }
  left_of s u w changed left =
      changed
      ∙ ap
          (λ (u : Process). record u {
            spawned = report_metrics ∷ data_server ∷ u.spawned;
            handler = true;
          })
          left
      ∙ ap
          (λ f. record s {
            files = f;
            spawned = report_metrics ∷ data_server ∷ with_gossip s.spawned;
            handler = true;
          })
          (sym (ap (λ p. p.files) changed))

  start_services-ServicesStarted :
      (config : Config) (node_id : ℕ) (data_acceptor ctrl_acceptor : TcpAcceptor)
      (data_url ctrl_url : Url) (s w : Process) (server : ServerState)
      → start_services config node_id (data_acceptor, data_url) (ctrl_acceptor, ctrl_url) s
        ≡ (w, returned (ok server))
      → ServicesStarted config s w server
        × (server.advertise_data_url ≡ data_url)
        × (server.advertise_ctrl_url ≡ ctrl_url)
  start_services-ServicesStarted config node_id data_acceptor ctrl_acceptor data_url ctrl_url s w
        server e =
      let (u, (g, futs), eu, e1) =
        ok-of_bind
          (or_raise failed_to_start_server
            (start_gossip config.server node_id ctrl_acceptor data_url ctrl_url))
          (λ (gossip_state, gossip_futs).
            or_raise fatal_in_server_process
              (start_server data_acceptor data_url ctrl_url gossip_state gossip_futs)
            >>= unless_err set_handler)
          s w server e in
      let gossip =
        start_gossip-GossipStarted config.server node_id ctrl_acceptor data_url ctrl_url s u g futs
          (ok-of_or_raise failed_to_start_server
            (start_gossip config.server node_id ctrl_acceptor data_url ctrl_url) s u (g, futs)
            eu) in
      let (v, made, ev, e2) =
        ok-of_bind
          (or_raise fatal_in_server_process (start_server data_acceptor data_url ctrl_url g futs))
          set_handler u w server e1 in
      let (left, same) = start_server-eq data_acceptor data_url ctrl_url g futs u v made (
        ok-of_or_raise fatal_in_server_process (start_server data_acceptor data_url ctrl_url g futs)
          u v made ev) in
      let (handled, final) = set_handler-eq made server v w e2 in
      let is_server = final ∙ same in
      let changed = handled ∙ ap (λ (v : Process). record v { handler = true }) left in
      (
        record {
          inv = rw (is_server, changed) gossip.inv;
          is_at = rw is_server gossip.is_at;
          left = left_of s u w changed gossip.left;
          server_fut = ap (λ r. r.server_fut) is_server;
          gossip_futs = ap (λ r. r.gossip_futs) is_server ∙ gossip.futures;
          actions = ap (λ r. r.shutdown_tx_actions) is_server;
        },
        ap (λ r. r.advertise_data_url) is_server,
        ap (λ r. r.advertise_ctrl_url) is_server,
      )

  -- What a start that waits for the shutdown has established.
  pub record NodeStarted (config : Config) (s w : Process) (server : ServerState) : Type 0 where
    pub data_acceptor : TcpAcceptor
    pub ctrl_acceptor : TcpAcceptor
    pub data_listens :
        Listens config.server.advertise_data_addr data_acceptor server.advertise_data_url
    pub ctrl_listens :
        Listens config.server.advertise_ctrl_addr ctrl_acceptor server.advertise_ctrl_url
    pub services :
        ServicesStarted config
          (record s { bound = ctrl_acceptor ∷ data_acceptor ∷ s.bound })
          w
          server

  bound_twice :
      (s u v w : Process) (d c : TcpAcceptor)
      → u ≡ s
      → v ≡ record u { bound = d ∷ u.bound }
      → w ≡ record v { bound = c ∷ v.bound }
      → w ≡ record s { bound = c ∷ d ∷ s.bound }
  bound_twice s u v w d c eu ev ew =
      ew
      ∙ ap (λ (v : Process). record v { bound = c ∷ v.bound })
          (ev ∙ ap (λ (u : Process). record u { bound = d ∷ u.bound }) eu)

  create_dir-eq :
      (dir : FilePath) (s u : Process) (o : Unit {0})
      → create_dir dir s ≡ (u, returned (ok o))
      → u ≡ s
  create_dir-eq dir s u o e = sym (ap (λ p. p.0) e)

  -- Where the local IP address of the machine, if it is known, is not the unspecified one: a start that
  -- reaches the wait for the shutdown has bound two listeners, and each URL that the node advertises is
  -- that of its configured address or of a specified address with the port of its listener. The gossip
  -- state that the servers share has the invariant of a running node; the node has these URLs, and its
  -- identity is on disk. The gossip server, its four tasks, the data server and the report of the
  -- metrics have been spawned in this order, the state of the server has the handle of each of them,
  -- and the handler of ctrl-c is set.
  pub serve-NodeStarted :
      (config : Config) (node_id : ℕ) (s w : Process) (server : ServerState)
      → ((ip : List ℕ) → n.local_ip ≡ some ip → is_unspecified ip ≡ false)
      → serve config node_id s ≡ (w, returned (ok server))
      → NodeStarted config s w server
  unfolding serve
  serve-NodeStarted config node_id s w server local e =
      let (s1, o, e1, k1) =
        ok-of_bind (create_dir config.server.dir) (after_dir config node_id) s w server e in
      let (s2, engine, e2, k2) =
        ok-of_bind (or_raise failed_to_start_server (open_engine config))
          (λ _. after_engine config node_id) s1 w server k1 in
      let (s3, (data_acceptor, data_url), e3, k3) =
        ok-of_bind
          (or_raise failed_to_start_server (
            make_acceptor_and_advertise_url config.server.listen_data_addr
              config.server.advertise_data_addr))
          (after_data config node_id) s2 w server k2 in
      let (s4, (ctrl_acceptor, ctrl_url), e4, k4) =
        ok-of_bind
          (or_raise failed_to_start_server (
            make_acceptor_and_advertise_url config.server.listen_ctrl_addr
              config.server.advertise_ctrl_addr))
          (start_services config node_id (data_acceptor, data_url)) s3 w server k3 in
      let (left3, (at3, bound3, stands3)) =
        make_acceptor-Stands config.server.listen_data_addr config.server.advertise_data_addr s2 s3
          data_acceptor data_url local
          (ok-of_or_raise failed_to_start_server
            (make_acceptor_and_advertise_url config.server.listen_data_addr
              config.server.advertise_data_addr)
            s2 s3 (data_acceptor, data_url) e3) in
      let (left4, (at4, bound4, stands4)) =
        make_acceptor-Stands config.server.listen_ctrl_addr config.server.advertise_ctrl_addr s3 s4
          ctrl_acceptor ctrl_url local
          (ok-of_or_raise failed_to_start_server
            (make_acceptor_and_advertise_url config.server.listen_ctrl_addr
              config.server.advertise_ctrl_addr)
            s3 s4 (ctrl_acceptor, ctrl_url) e4) in
      let (services, url3, url4) =
        start_services-ServicesStarted config node_id data_acceptor ctrl_acceptor data_url ctrl_url
          s4 w server k4 in
      let same2 = sym (
        ap (λ p. p.0)
          (ok-of_or_raise failed_to_start_server (open_engine config) s1 s2 engine e2)) in
      record {
        data_acceptor = data_acceptor;
        ctrl_acceptor = ctrl_acceptor;
        data_listens = record {
          local = at3;
          bound_at = bound3;
          stands = subst (Stands at3 config.server.advertise_data_addr) (sym url3) stands3;
        };
        ctrl_listens = record {
          local = at4;
          bound_at = bound4;
          stands = subst (Stands at4 config.server.advertise_ctrl_addr) (sym url4) stands4;
        };
        services =
            subst (λ x. ServicesStarted config x w server)
              (bound_twice s s2 s3 s4 data_acceptor ctrl_acceptor
                (same2 ∙ create_dir-eq config.server.dir s s1 o e1) left3 left4)
              services;
      }
