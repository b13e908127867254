-- ===== src/Gossip/Total.antt =====
-- When a message does not end in a panic.
use percas.Base.{ℕ, some, false, Bool-cases, returned, ◌≡◌, inl, inr, refl, ap, ◌∙◌}
use percas.Ord.{nat_ord}
use percas.Text.{String, FilePath}
use percas.Config.{node_file_path}
use percas.FileSystem.{FileSystem, write}
use percas.Node.{
  NodeInfo, PersistentNodeInfo, NodeJson, persist, persist_info, to_persistent,
  advance_incarnation as advanced,
}
use percas.Member.{is_dead}
use percas.Gossip.{GossipMessage, World, receive, advance_incarnation, handle_message}
use percas.Gossip.Invariant.{receive-same}

module _ ⦃json : NodeJson⦄ where
  persist_returns :
      (fs : FileSystem) (n : NodeInfo) (path : FilePath) (text : String)
      → json.to_string_pretty (to_persistent n) ≡ some text
      → fs.write_fails path ≡ false
      → (left : FileSystem) × (persist fs n path ≡ (left, returned tt))
  unfolding persist
  persist_returns fs n path text e f =
      ((write fs path text).0, rw (e, persist, persist_info, f, write) refl)

  -- Where the file of the node can be written and every identity can be printed, handling a message
  -- returns.
  pub handle_message-returned :
      (w : World) (now : ℕ) (message : GossipMessage)
      → w.files.write_fails (node_file_path w.state.dir) ≡ false
      → ((info : PersistentNodeInfo) → (text : String) × (json.to_string_pretty info ≡ some text))
      → (w' : World) × (handle_message now message w
          ≡ (w', returned (receive w.state now message).1))
  unfolding handle_message advance_incarnation
  handle_message-returned w now message writable prints =
      let g = (receive w.state now message).0 in
      let n = advanced g.current_node in
      elim (Bool-cases (is_dead g.membership g.current_node.node_id)) [
        | inr d ↦ (record w { state = g }, rw d refl)
        | inl d ↦
            let (text, e) = prints (to_persistent n) in
            let (left, p) = persist_returns w.files n (node_file_path g.dir) text e (
              ap (λ dir. w.files.write_fails (node_file_path dir))
                (receive-same w.state now message).0
              ∙ writable) in
            (record { state = record g { current_node = n }; files = left }, rw (d, p) refl)
      ]
