-- ===== src/Gossip/Invariant.antt =====
-- The invariant of a running node, and that every handler and every task keeps it: the membership is
-- keyed, the ring valid, and the file of the node holds its current identity.
use percas.Base.{
  ℕ, Bool-cases, Outcome, returned, panicked, not-returned, ◌≡◌, inl, inr, refl, sym, ap, ◌∙◌,
}
use percas.Text.{FilePath}
use percas.Config.{node_file_path}
use percas.FileSystem.{FileSystem}
use percas.Node.{NodeInfo, NodeJson, persist, to_persistent, advance_incarnation as advanced}
use percas.Node.Persist.{Stores, persist-Stores}
use percas.Member.{is_dead}
use percas.Member.Map.{IsKeyed, update_member-IsKeyed, update_all-IsKeyed}
use percas.Ord.{nat_ord}
use percas.Ring.Points.{IsValid}
use percas.Exec.{
  Keeps as StateKeeps, pure-Keeps as state_pure-Keeps, bind-Keeps as state_bind-Keeps,
}
use percas.Gossip.{
  GossipMessage, ping, ack, sync, GossipState, World, Exec, ◌>>=◌, pure, receive,
  advance_incarnation, handle_message, advance_end,
}

pub record IsSound (g : GossipState) : Type 0 where
  pub keyed : IsKeyed g.membership
  pub ring : IsValid g.ring.nodes

module _ ⦃json : NodeJson⦄ (dir : FilePath) (id : ℕ) where
  pub record Inv (w : World) : Type 0 where
    pub sound : IsSound w.state
    pub dir_same : w.state.dir ≡ dir
    pub id_same : w.state.current_node.node_id ≡ id
    pub stored : Stores w.files (node_file_path dir) (to_persistent w.state.current_node)

  -- A call that returns from a world with the invariant leaves one.
  abbrev pub Keeps : {A : Type 0} → Exec A → Type 0
  Keeps m = StateKeeps Inv m

receive-IsSound :
    (g : GossipState) (now : ℕ) (message : GossipMessage)
    → IsSound g
    → IsSound (receive g now message).0
unfolding receive
receive-IsSound g now (ping info) s = record {
  keyed = update_member-IsKeyed g.membership _ s.keyed;
  ring = s.ring;
}
receive-IsSound g now (ack info) s = record {
  keyed = update_member-IsKeyed g.membership _ s.keyed;
  ring = s.ring;
}
receive-IsSound g now (sync members) s = record {
  keyed = update_member-IsKeyed _ _ (update_all-IsKeyed g.membership members s.keyed);
  ring = s.ring;
}

-- A message changes the membership alone.
pub receive-same :
    (g : GossipState) (now : ℕ) (message : GossipMessage)
    → ((receive g now message).0.dir ≡ g.dir)
      × ((receive g now message).0.current_node ≡ g.current_node)
      × ((receive g now message).0.ring ≡ g.ring)
      × ((receive g now message).0.initial_peers ≡ g.initial_peers)
unfolding receive
receive-same g now (ping info) = (refl, refl, refl, refl)
receive-same g now (ack info) = (refl, refl, refl, refl)
receive-same g now (sync members) = (refl, refl, refl, refl)

module _ ⦃json : NodeJson⦄ where
  advance_end_inv :
      (w : World) (current : NodeInfo) (r : FileSystem × Outcome (Unit {0})) (w' : World)
      (a : Unit {0})
      → advance_end w current r ≡ (w', returned a)
      → (r.1 ≡ returned tt)
        × (w' ≡ record { state = record w.state { current_node = current }; files = r.0 })
  advance_end_inv w current (files, returned u) w' a e = (refl, sym (ap (λ p. p.0) e))
  advance_end_inv w current (files, panicked) w' a e = absurd (not-returned (ap (λ p. p.1) e))

  -- What `advance_incarnation` leaves when it returns: the next incarnation, in memory and on disk.
  pub advance_incarnation_inv :
      (w w' : World) (a : Unit {0})
      → advance_incarnation w ≡ (w', returned a)
      → (w'.state ≡ record w.state { current_node = advanced w.state.current_node })
        × Stores w'.files
            (node_file_path w.state.dir)
            (to_persistent (advanced w.state.current_node))
  unfolding advance_incarnation
  advance_incarnation_inv w w' a e =
      let n = advanced w.state.current_node in
      let path = node_file_path w.state.dir in
      let (p, same) = advance_end_inv w n (persist w.files n path) w' a e in
      (ap (λ v. v.state) same, rw same (persist-Stores w.files n path p))

advanced-node_id : (n : NodeInfo) → (advanced n).node_id ≡ n.node_id
unfolding advanced
advanced-node_id n = refl

module _ ⦃json : NodeJson⦄ (dir : FilePath) (id : ℕ) where
  -- Storing a new gossip state beside the same identity.
  pub Inv-set_state :
      (w : World) (g : GossipState)
      → Inv dir id w
      → IsSound g
      → g.dir ≡ w.state.dir
      → g.current_node ≡ w.state.current_node
      → Inv dir id (record w { state = g })
  Inv-set_state w g v s d c = record {
    sound = s;
    dir_same = d ∙ v.dir_same;
    id_same = ap (λ (n : NodeInfo). n.node_id) c ∙ v.id_same;
    stored = rw c v.stored;
  }

  advance-Keeps : Keeps dir id advance_incarnation
  advance-Keeps w w' a v e =
      let (s, stored) = advance_incarnation_inv w w' a e in
      record {
        sound = rw s (record { keyed = v.sound.keyed; ring = v.sound.ring });
        dir_same = rw s v.dir_same;
        id_same = rw s (advanced-node_id w.state.current_node ∙ v.id_same);
        stored = rw (s, ← v.dir_same) stored;
      }

  pub pure-Keeps : {A : Type 0} (a : A) → Keeps dir id (pure a)
  pure-Keeps a = state_pure-Keeps (Inv dir id) a

  pub bind-Keeps :
      {A B : Type 0} (m : Exec A) (f : A → Exec B)
      → Keeps dir id m
      → ((a : A) → Keeps dir id (f a))
      → Keeps dir id (m >>= f)
  bind-Keeps m f km kf = state_bind-Keeps (Inv dir id) m f km kf

  pub handle_message-Keeps :
      (now : ℕ) (message : GossipMessage) → Keeps dir id (handle_message now message)
  unfolding handle_message
  handle_message-Keeps now message w w' a v e =
      let g = (receive w.state now message).0 in
      let same = receive-same w.state now message in
      let v' : Inv dir id (record w { state = g }) =
        Inv-set_state w g v (receive-IsSound w.state now message v.sound) same.0 same.1 in
      elim (Bool-cases (is_dead g.membership g.current_node.node_id)) [
        | inl yes_dead ↦
            bind-Keeps advance_incarnation (λ _. pure _) advance-Keeps
              (λ _. pure-Keeps (receive w.state now message).1) (record w { state = g }) w' a v'
              (rw yes_dead at e)
        | inr alive ↦ rw (ap (λ p. p.0) (sym (rw alive at e))) v'
      ]
