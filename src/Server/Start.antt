-- ===== src/Server/Start.antt =====
-- crates/server/src/server.rs: the identity that `start_gossip` gives a node, from its file or new.
use percas.Base.{
  ℕ, ◌+◌, ◌%◌, ◌^◌, Option, none, some, false, Outcome, returned, panicked, ◌≡◌, refl, sym, ap, ◌∙◌,
  not-returned, returned-injective,
}
use percas.Text.{String, Url, FilePath}
use percas.Config.{node_file_path}
use percas.FileSystem.{FileSystem}
use percas.Node.{NodeInfo, NodeJson, to_persistent, new, load, persist, advance_incarnation}
use percas.Node.{PersistentNodeInfo, load_persistent, with_urls}
use percas.FileSystem.{IoError}
use percas.Gossip.Urls.{IsAt, advanced-IsAt}
use percas.Base.{Result, ok, err, none-ne-some, some-injective}
use percas.Node.Persist.{Stores, persist-Stores}
use percas.Bytes.{AsRef, Mur3}
use percas.Gossip.{World}
use percas.Gossip.Tasks.{Jiff}
use percas.Gossip.Invariant.{Inv}
use percas.Gossip.Run.{Reach, load-Reach}

module _ ⦃json : NodeJson⦄ where
  -- A node is persisted, and is the result if that returns.
  abbrev pub persisted : NodeInfo → FileSystem × Outcome (Unit {0}) → FileSystem × Outcome NodeInfo
  persisted node (files, returned u) = (files, returned node)
  persisted node (files, panicked) = (files, panicked)

  -- What `load` found.
  abbrev pub resumed :
      FileSystem → FilePath → NodeInfo → Outcome (Option NodeInfo) → FileSystem × Outcome NodeInfo
  resumed files path fresh panicked = (files, panicked)
  resumed files path fresh (returned none) = persisted fresh (persist files fresh path)
  resumed files path fresh (returned (some node)) =
      persisted (advance_incarnation node) (persist files (advance_incarnation node) path)

  unfoldable pub current_node :
      FileSystem → FilePath → ℕ → String → Url → Url → FileSystem × Outcome NodeInfo
  unfolding load persist advance_incarnation
  current_node files dir node_id cluster_id data_url ctrl_url =
      resumed files (node_file_path dir) (new node_id cluster_id data_url ctrl_url)
        (load files (node_file_path dir) data_url ctrl_url)

  persisted-inv :
      (node n : NodeInfo) (path : FilePath) (files files' : FileSystem)
      → persisted node (persist files node path) ≡ (files', returned n)
      → (n ≡ node) × Stores files' path (to_persistent node)
  persisted-inv node n path files files' e = go (persist files node path) refl e
    where
      go :
          (r : FileSystem × Outcome (Unit {0}))
          → persist files node path ≡ r
          → persisted node r ≡ (files', returned n)
          → (n ≡ node) × Stores files' path (to_persistent node)
      go (left, returned u) f g = (
        sym (returned-injective (ap (λ p. p.1) g)),
        rw (← ap (λ p. p.0) g, ← ap (λ p. p.0) f)
            (persist-Stores files node path (ap (λ p. p.1) f)),
      )
      go (left, panicked) f g = absurd (not-returned (ap (λ p. p.1) g))

  resumed-Stores :
      (files : FileSystem) (path : FilePath) (fresh : NodeInfo) (o : Outcome (Option NodeInfo))
      (files' : FileSystem) (n : NodeInfo)
      → resumed files path fresh o ≡ (files', returned n)
      → Stores files' path (to_persistent n)
  resumed-Stores files path fresh panicked files' n e = absurd (not-returned (ap (λ p. p.1) e))
  resumed-Stores files path fresh (returned none) files' n e =
      let (same, stored) = persisted-inv fresh n path files files' e in rw same stored
  resumed-Stores files path fresh (returned (some node)) files' n e =
      let (same, stored) = persisted-inv (advance_incarnation node) n path files files' e in
      rw same stored

  load-IsAt :
      (files : FileSystem) (path : FilePath) (data_url ctrl_url : Url) (n : NodeInfo)
      → load files path data_url ctrl_url ≡ returned (some n)
      → IsAt data_url ctrl_url n
  unfolding load
  load-IsAt files path data_url ctrl_url n e = go (load_persistent files path) e
    where
      go :
          (r : Result (Option PersistentNodeInfo) IoError)
          → elim r [
            | err x ↦ panicked
            | ok none ↦ returned none
            | ok (some info) ↦ returned (some (with_urls data_url ctrl_url info))
          ]
            ≡ returned (some n)
          → IsAt data_url ctrl_url n
      go (err x) f = absurd (not-returned f)
      go (ok none) f = absurd (none-ne-some (returned-injective f))
      go (ok (some info)) f =
          rw (← some-injective (returned-injective f))
            (record { data_same = refl; ctrl_same = refl })

  resumed-IsAt :
      (files : FileSystem) (path : FilePath) (data_url ctrl_url : Url) (fresh : NodeInfo)
      (o : Outcome (Option NodeInfo)) (files' : FileSystem) (n : NodeInfo)
      → IsAt data_url ctrl_url fresh
      → ((node : NodeInfo) → o ≡ returned (some node) → IsAt data_url ctrl_url node)
      → resumed files path fresh o ≡ (files', returned n)
      → IsAt data_url ctrl_url n
  resumed-IsAt files path data_url ctrl_url fresh panicked files' n hf hn e =
      absurd (not-returned (ap (λ p. p.1) e))
  resumed-IsAt files path data_url ctrl_url fresh (returned none) files' n hf hn e =
      rw (persisted-inv fresh n path files files' e).0 hf
  resumed-IsAt files path data_url ctrl_url fresh (returned (some node)) files' n hf hn e =
      rw (persisted-inv (advance_incarnation node) n path files files' e).0
        (advanced-IsAt data_url ctrl_url node (hn node refl))

  -- A node that starts has the URLs of this start.
  pub current_node-IsAt :
      (files : FileSystem) (dir : FilePath) (node_id : ℕ) (cluster_id : String)
      (data_url ctrl_url : Url) (files' : FileSystem) (n : NodeInfo)
      → current_node files dir node_id cluster_id data_url ctrl_url ≡ (files', returned n)
      → IsAt data_url ctrl_url n
  unfolding current_node new
  current_node-IsAt files dir node_id cluster_id data_url ctrl_url files' n e =
      resumed-IsAt files (node_file_path dir) data_url ctrl_url
        (new node_id cluster_id data_url ctrl_url)
        (load files (node_file_path dir) data_url ctrl_url) files' n
        (record { data_same = refl; ctrl_same = refl })
        (λ node f. load-IsAt files (node_file_path dir) data_url ctrl_url node f) e

  -- The identity of a node that starts is on disk.
  pub current_node-Stores :
      (files : FileSystem) (dir : FilePath) (node_id : ℕ) (cluster_id : String)
      (data_url ctrl_url : Url) (files' : FileSystem) (n : NodeInfo)
      → current_node files dir node_id cluster_id data_url ctrl_url ≡ (files', returned n)
      → Stores files' (node_file_path dir) (to_persistent n)
  unfolding current_node
  current_node-Stores files dir node_id cluster_id data_url ctrl_url files' n e =
      resumed-Stores files (node_file_path dir) (new node_id cluster_id data_url ctrl_url)
        (load files (node_file_path dir) data_url ctrl_url) files' n e

module _ ⦃json : NodeJson⦄ ⦃a : AsRef ℕ⦄ ⦃m : Mur3⦄ ⦃jiff : Jiff⦄ where
  -- A restart after any run, if it can read the file and it returns, gives the identity that the node had
  -- last under the URLs of the restart, with the next incarnation, and the file then holds it; the
  -- identifier and the cluster that the restart offers are not used.
  pub current_node-Reach :
      {w w' : World} (dir : FilePath) (id offered : ℕ) (cluster_id : String)
      (data_url ctrl_url : Url) (files : FileSystem) (n : NodeInfo)
      → Inv dir id w
      → Reach w w'
      → w'.files.read_fails (node_file_path dir) ≡ false
      → current_node w'.files dir offered cluster_id data_url ctrl_url ≡ (files, returned n)
      → (n ≡ record w'.state.current_node {
        advertise_data_url = data_url;
        advertise_ctrl_url = ctrl_url;
        incarnation = (w'.state.current_node.incarnation + 1) % 2 ^ 64;
      })
        × Stores files (node_file_path dir) (to_persistent n)
  unfolding current_node advance_incarnation
  current_node-Reach {w' = w'} dir id offered cluster_id data_url ctrl_url files n v r readable e =
      let found = load-Reach dir id data_url ctrl_url v r readable in
      let (same, stored) = persisted-inv _ n (node_file_path dir) w'.files files (
        ap (resumed w'.files (node_file_path dir) (new offered cluster_id data_url ctrl_url))
          (sym found)
        ∙ e) in
      (same, rw same stored)
