-- ===== src/Server/Serve/Established.antt =====
-- What a start of the gossip establishes.
use percas.Base.{
  ℕ, List, [], ◌∷◌, true, false, Bool, Result, ok, err, Outcome, returned, panicked, ◌≡◌, refl, sym,
  ap, ◌∙◌, not-returned, returned-injective, ok-injective, ok-ne-err,
}
use percas.Text.{Url, FilePath}
use percas.Bytes.{AsRef, Mur3}
use percas.Config.{ServerConfig, node_file_path}
use percas.FileSystem.{FileSystem}
use percas.Node.{NodeInfo, NodeJson, to_persistent}
use percas.Node.Persist.{Stores}
use percas.Gossip.{GossipState, World, new}
use percas.Gossip.Tasks.{start}
use percas.Gossip.Invariant.{Inv}
use percas.Gossip.Run.{stored-Inv, start-Keeps}
use percas.Gossip.Urls.{IsAt, StaysAt, start-StaysAt}
use percas.Exec.{Keeps, ◌>>=◌, ◌>>◌, returned-of_bind}
use percas.Server.Start.{current_node, current_node-Stores, current_node-IsAt}
use percas.Server.Listen.{
  TcpAcceptor, Process, Service, gossip_server, ping_task, anti_entropy_task, rebuild_ring_task,
  remove_dead_members_task, data_server, report_metrics,
}
use percas.Server.Serve.{
  Bootstrap, ServerState, ServerError, spawn, gossip_tasks, with_files, identify, started,
  bootstrap, with_tasks, start_gossip, start_server,
}

-- The services of the gossip on top of others, the last spawned first.
abbrev pub with_gossip : List Service → List Service
with_gossip rest =
    remove_dead_members_task ∷ rebuild_ring_task ∷ anti_entropy_task ∷ ping_task ∷ gossip_server
    ∷ rest

module _ ⦃json : NodeJson⦄ ⦃a : AsRef ℕ⦄ ⦃m : Mur3⦄ ⦃b : Bootstrap⦄ where
  identify-Stores :
      (config : ServerConfig) (node_id : ℕ) (data_url ctrl_url : Url) (s u : Process) (n : NodeInfo)
      → identify config node_id data_url ctrl_url s ≡ (u, returned n)
      → Stores u.files (node_file_path config.dir) (to_persistent n)
        × IsAt data_url ctrl_url n
        × (u ≡ record s { files = u.files })
  identify-Stores config node_id data_url ctrl_url s u n e =
      go (current_node s.files config.dir node_id config.cluster_id data_url ctrl_url) refl e
    where
      go :
          (r : FileSystem × Outcome NodeInfo)
          → current_node s.files config.dir node_id config.cluster_id data_url ctrl_url ≡ r
          → with_files s r ≡ (u, returned n)
          → Stores u.files (node_file_path config.dir) (to_persistent n)
            × IsAt data_url ctrl_url n
            × (u ≡ record s { files = u.files })
      go (files, panicked) er eu = absurd (not-returned (ap (λ p. p.1) eu))
      go (files, returned found) er eu =
          rw (← ap (λ p. p.0) eu, ← returned-injective (ap (λ p. p.1) eu))
            (
              current_node-Stores s.files config.dir node_id config.cluster_id data_url ctrl_url
                  files found er,
              current_node-IsAt s.files config.dir node_id config.cluster_id data_url ctrl_url files
                  found er,
              refl,
            )

  bootstrap-Keeps :
      (P : World → Type 0) (g g' : GossipState) (s u : Process)
      → Keeps P (start b.reply b.clock b.now)
      → P (record { state = g; files = s.files })
      → bootstrap g s ≡ (u, returned (ok g'))
      → P (record { state = g'; files = u.files }) × (u ≡ record s { files = u.files })
  bootstrap-Keeps P g g' s u k v e =
      go (start b.reply b.clock b.now (record { state = g; files = s.files })) refl e
    where
      go :
          (r : World × Outcome Bool)
          → start b.reply b.clock b.now (record { state = g; files = s.files }) ≡ r
          → started s r ≡ (u, returned (ok g'))
          → P (record { state = g'; files = u.files }) × (u ≡ record s { files = u.files })
      go (w, panicked) er eu = absurd (not-returned (ap (λ p. p.1) eu))
      go (w, returned true) er eu =
          rw (← ap (λ p. p.0) eu, ← ok-injective (returned-injective (ap (λ p. p.1) eu)))
            (k (record { state = g; files = s.files }) w true v er, refl)
      go (w, returned false) er eu =
          absurd (ok-ne-err (sym (returned-injective (ap (λ p. p.1) eu))))

  -- What a start of the gossip that returned has left: a node with the invariant whose identity is on disk,
  -- under its URLs, its five services, and no other change.
  pub record GossipStarted (dir : FilePath) (data_url ctrl_url : Url) (s u : Process)
      (g : GossipState) (futs : List Service) : Type 0 where
    pub is_at : IsAt data_url ctrl_url g.current_node
    pub inv : Inv dir g.current_node.node_id (record { state = g; files = u.files })
    pub left : u ≡ record s { files = u.files; spawned = with_gossip s.spawned }
    pub futures :
        futs
        ≡ gossip_server ∷ ping_task ∷ anti_entropy_task ∷ rebuild_ring_task
          ∷ remove_dead_members_task ∷ []

  with_tasks-eq :
      (r : Result GossipState ServerError) (u w : Process) (g : GossipState) (futs : List Service)
      → with_tasks r u ≡ (w, returned (ok (g, futs)))
      → (r ≡ ok g)
        × (w ≡ record u {
          spawned =
              remove_dead_members_task ∷ rebuild_ring_task ∷ anti_entropy_task ∷ ping_task
              ∷ u.spawned;
        })
        × (futs ≡ gossip_server ∷ gossip_tasks)
  with_tasks-eq (err x) u w g futs e =
      absurd (ok-ne-err (sym (returned-injective (ap (λ p. p.1) e))))
  with_tasks-eq (ok h) u w g futs e =
      let same = ok-injective (returned-injective (ap (λ p. p.1) e)) in
      (ap ok (ap (λ p. p.0) same), sym (ap (λ p. p.0) e), sym (ap (λ p. p.1) same))

  Inv-own :
      (dir : FilePath) (id : ℕ) (w : World) → Inv dir id w → Inv dir w.state.current_node.node_id w
  Inv-own dir id w v = record {
    sound = v.sound;
    dir_same = v.dir_same;
    id_same = refl;
    stored = v.stored;
  }

  left_of :
      (s u x w : Process)
      → u ≡ record s { files = u.files }
      → x ≡ record u { files = x.files; spawned = gossip_server ∷ u.spawned }
      → w ≡ record x {
        spawned =
            remove_dead_members_task ∷ rebuild_ring_task ∷ anti_entropy_task ∷ ping_task
            ∷ x.spawned;
      }
      → w ≡ record s { files = w.files; spawned = with_gossip s.spawned }
  left_of s u x w same changed left =
      left
      ∙ ap
          (λ (x : Process). record x {
            spawned =
                remove_dead_members_task ∷ rebuild_ring_task ∷ anti_entropy_task ∷ ping_task
                ∷ x.spawned;
          })
          (changed
            ∙ ap
                (λ (u : Process). record u { files = x.files; spawned = gossip_server ∷ u.spawned })
                same)
      ∙ ap (λ f. record s { files = f; spawned = with_gossip s.spawned })
          (sym (ap (λ p. p.files) left))

  pub start_gossip-GossipStarted :
      (config : ServerConfig) (node_id : ℕ) (acceptor : TcpAcceptor) (data_url ctrl_url : Url)
      (s w : Process) (g : GossipState) (futs : List Service)
      → start_gossip config node_id acceptor data_url ctrl_url s ≡ (w, returned (ok (g, futs)))
      → GossipStarted config.dir data_url ctrl_url s w g futs
  unfolding start_gossip new
  start_gossip-GossipStarted config node_id acceptor data_url ctrl_url s w g futs e =
      let (u, n, en, e1) =
        returned-of_bind (identify config node_id data_url ctrl_url)
          (λ node.
            spawn gossip_server
            >> (bootstrap (new node config.initial_peers config.dir) >>= with_tasks))
          s w (ok (g, futs)) e in
      let (stored, at, same) = identify-Stores config node_id data_url ctrl_url s u n en in
      let v : Process = record u { spawned = gossip_server ∷ u.spawned } in
      let (x, r, er, e2) =
        returned-of_bind (bootstrap (new n config.initial_peers config.dir)) with_tasks v w
          (ok (g, futs)) e1 in
      let (is_ok, left, futures) = with_tasks-eq r x w g futs e2 in
      let started_at = new n config.initial_peers config.dir in
      let booted = er ∙ ap (λ r. (x, returned r)) is_ok in
      let (inv, changed) =
        bootstrap-Keeps (Inv config.dir n.node_id) started_at g v x
          (start-Keeps config.dir n.node_id b.reply b.clock b.now)
          (stored-Inv u.files n config.initial_peers config.dir stored) booted in
      record {
        is_at =
            (bootstrap-Keeps (StaysAt data_url ctrl_url) started_at g v x
              (start-StaysAt data_url ctrl_url b.reply b.clock b.now) at booted).0;
        inv = rw left (Inv-own config.dir n.node_id (record { state = g; files = x.files }) inv);
        left = left_of s u x w same changed left;
        futures = futures;
      }

pub start_server-eq :
    (acceptor : TcpAcceptor) (data_url ctrl_url : Url) (g : GossipState) (futs : List Service)
    (s w : Process) (server : ServerState)
    → start_server acceptor data_url ctrl_url g futs s ≡ (w, returned (ok server))
    → (w ≡ record s { spawned = report_metrics ∷ data_server ∷ s.spawned })
      × (server ≡ record {
        advertise_data_url = data_url;
        advertise_ctrl_url = ctrl_url;
        server_fut = data_server;
        gossip_futs = futs;
        shutdown_tx_actions = report_metrics ∷ [];
        gossip_state = g;
      })
unfolding start_server
start_server-eq acceptor data_url ctrl_url g futs s w server e =
    (sym (ap (λ p. p.0) e), sym (ok-injective (returned-injective (ap (λ p. p.1) e))))
