-- ===== src/Gossip/Run.antt =====
-- The runs of a node: the handlers and tasks in any order and with any answers from the network, as
-- a step relation. A run ends at a panic.
use percas.Base.{ℕ, List, [], ◌∷◌, Option, some, false, returned, ◌≡◌, refl}
use percas.Text.{Url, FilePath}
use percas.Config.{node_file_path}
use percas.FileSystem.{FileSystem}
use percas.Node.{NodeInfo, NodeJson, to_persistent, load, persist}
use percas.Node.Persist.{Stores, load-Stores, persist-Stores}
use percas.Member.{default, from_iter}
use percas.Member.Map.{default-IsKeyed, update_all-IsKeyed}
use percas.Ord.{nat_ord}
use percas.Bytes.{AsRef, Mur3}
use percas.Ring.Points.{empty-IsValid}
use percas.Ring
use percas.Gossip.{GossipMessage, World, alive_at, handle_message, new}
use percas.Gossip.Tasks.{
  Jiff, remove_dead_members, ping_end, sync_end, rebuild_ring, fast_bootstrap, start,
}
use percas.Gossip.Invariant.{Inv, Keeps, Inv-set_state, handle_message-Keeps}
use percas.Gossip.Chain.{start-Keeps as any_start-Keeps}
use percas.Gossip.Keeps.{
  remove_dead-IsSound, remove_dead-same, rebuild_ring-IsSound, rebuild_ring-same, ping_end-Keeps,
  sync_end-Keeps, fast_bootstrap-Keeps, modify-Keeps,
}

-- One step of a node: a message, the end of a ping or of a sync, a bootstrap, or one of the periodic
-- tasks.
pub data Step ⦃json : NodeJson⦄ ⦃a : AsRef ℕ⦄ ⦃m : Mur3⦄ ⦃jiff : Jiff⦄
    : World → World → Type 0 where
  message :
      {w w' : World} (now : ℕ) (received : GossipMessage) (reply : Option GossipMessage)
      → handle_message now received w ≡ (w', returned reply)
      → Step w w'
  pinged :
      {w w' : World} (now : ℕ) (peer : NodeInfo) (answer : Option GossipMessage)
      → ping_end now peer answer w ≡ (w', returned tt)
      → Step w w'
  synced :
      {w w' : World} (now : ℕ) (peer : NodeInfo) (answer : Option GossipMessage)
      → sync_end now peer answer w ≡ (w', returned tt)
      → Step w w'
  bootstrapped :
      {w w' : World} (reply : Url → GossipMessage → Option GossipMessage) (clock : ℕ → ℕ)
      → fast_bootstrap reply clock w ≡ (w', returned tt)
      → Step w w'
  removed :
      {w : World} (clock : ℕ → ℕ)
      → Step w (record w { state = (remove_dead_members clock w.state).0 })
  rebuilt : {w : World} (now : ℕ) → Step w (record w { state = rebuild_ring now w.state })

pub data Reach ⦃json : NodeJson⦄ ⦃a : AsRef ℕ⦄ ⦃m : Mur3⦄ ⦃jiff : Jiff⦄ (w : World)
    : World → Type 0 where
  start_here : Reach w w
  next_step : {u v : World} → Reach w u → Step u v → Reach w v

module _ ⦃json : NodeJson⦄ ⦃a : AsRef ℕ⦄ ⦃m : Mur3⦄ ⦃jiff : Jiff⦄ (dir : FilePath) (id : ℕ) where
  pub Step-Inv : {w w' : World} → Inv dir id w → Step w w' → Inv dir id w'
  Step-Inv {w} {w'} v (message now received reply e) =
      handle_message-Keeps dir id now received w w' reply v e
  Step-Inv {w} {w'} v (pinged now peer answer e) = ping_end-Keeps dir id now peer answer w w' tt v e
  Step-Inv {w} {w'} v (synced now peer answer e) = sync_end-Keeps dir id now peer answer w w' tt v e
  Step-Inv {w} {w'} v (bootstrapped reply clock e) =
      fast_bootstrap-Keeps dir id reply clock w w' tt v e
  Step-Inv {w} v (removed clock) =
      let same = remove_dead-same clock w.state in
      Inv-set_state dir id w (remove_dead_members clock w.state).0 v
        (remove_dead-IsSound clock w.state v.sound) same.0 same.1
  Step-Inv {w} v (rebuilt now) =
      let same = rebuild_ring-same now w.state in
      Inv-set_state dir id w (rebuild_ring now w.state) v (rebuild_ring-IsSound now w.state v.sound)
        same.0 same.1

  -- Every run keeps the invariant.
  pub Reach-Inv : {w w' : World} → Inv dir id w → Reach w w' → Inv dir id w'
  Reach-Inv v start_here = v
  Reach-Inv v (next_step r s) = Step-Inv (Reach-Inv v r) s

  -- After any run, a restart that can read the file of the node finds the identity and the incarnation
  -- that the node had last, under the URLs that it is given.
  pub load-Reach :
      {w w' : World} (data_url ctrl_url : Url)
      → Inv dir id w
      → Reach w w'
      → w'.files.read_fails (node_file_path dir) ≡ false
      → load w'.files (node_file_path dir) data_url ctrl_url
        ≡ returned (
            some (record w'.state.current_node {
              advertise_data_url = data_url;
              advertise_ctrl_url = ctrl_url;
            }))
  unfolding to_persistent
  load-Reach {w' = w'} data_url ctrl_url v r readable =
      load-Stores w'.files (node_file_path dir) (to_persistent w'.state.current_node) data_url
        ctrl_url (Reach-Inv v r).stored readable

module _ ⦃json : NodeJson⦄ where
  -- A node that starts with its identity on disk has the invariant.
  pub stored-Inv :
      (files : FileSystem) (n : NodeInfo) (peers : List Url) (dir : FilePath)
      → Stores files (node_file_path dir) (to_persistent n)
      → Inv dir n.node_id (record { state = new n peers dir; files = files })
  unfolding new Ring.default
  stored-Inv files n peers dir stored = record {
    sound = record { keyed = default-IsKeyed; ring = empty-IsValid };
    dir_same = refl;
    id_same = refl;
    stored = stored;
  }

  -- A node that starts, once its identity has been written, has the invariant.
  pub new-Inv :
      (files : FileSystem) (n : NodeInfo) (peers : List Url) (dir : FilePath)
      → (persist files n (node_file_path dir)).1 ≡ returned tt
      → Inv dir n.node_id
          (record { state = new n peers dir; files = (persist files n (node_file_path dir)).0 })
  new-Inv files n peers dir p =
      stored-Inv (persist files n (node_file_path dir)).0 n peers dir
        (persist-Stores files n (node_file_path dir) p)

module _ ⦃json : NodeJson⦄ ⦃a : AsRef ℕ⦄ ⦃m : Mur3⦄ (dir : FilePath) (id : ℕ) where
  -- What `start` does before it spawns the tasks keeps the invariant.
  pub start-Keeps :
      (reply : Url → GossipMessage → Option GossipMessage) (clock : ℕ → ℕ) (now : ℕ)
      → Keeps dir id (start reply clock now)
  unfolding start from_iter
  start-Keeps reply clock now =
      any_start-Keeps (Inv dir id) (handle_message-Keeps dir id)
        (λ now.
          modify-Keeps dir id (rebuild_ring now) (λ g s. rebuild_ring-IsSound now g s)
            (λ g. rebuild_ring-same now g))
        reply clock now
        (modify-Keeps dir id
          (λ g. record g { membership = from_iter (alive_at g.current_node now ∷ []) })
          (λ g s. record {
            keyed = update_all-IsKeyed default (alive_at g.current_node now ∷ []) default-IsKeyed;
            ring = s.ring;
          })
          (λ g. (refl, refl)))
