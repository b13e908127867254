-- ===== src/Node.antt =====
-- crates/gossip/src/node.rs: the identity of a node, and the file in which it outlives a restart.
-- JSON is the crate `serde_json`: a parameter.
pub mod Persist
use percas.Base.{
  ℕ, ◌+◌, ◌%◌, ◌^◌, Option, none, some, Bool, true, false, if◌then◌else◌, Result, ok, err, Outcome,
  returned, panicked, ◌≡◌,
}
use percas.Text.{String, Url, FilePath}
use percas.FileSystem.{FileSystem, IoError, bad_json, exists, read_to_string, write}

pub record PersistentNodeInfo : Type 0 where
  pub node_id : ℕ
  pub cluster_id : String
  pub incarnation : ℕ

pub record NodeInfo : Type 0 where
  pub node_id : ℕ
  pub cluster_id : String
  pub advertise_data_url : Url
  pub advertise_ctrl_url : Url
  pub incarnation : ℕ

-- `serde_json` at this type: a text that it prints is read back. `none` is an error.
pub record NodeJson : Type 0 where
  pub to_string_pretty : PersistentNodeInfo → Option String
  pub from_str : String → Option PersistentNodeInfo
  pub from_str-to_string_pretty :
      (info : PersistentNodeInfo) (text : String)
      → to_string_pretty info ≡ some text
      → from_str text ≡ some info

-- `From<NodeInfo> for PersistentNodeInfo`.
unfoldable pub to_persistent : NodeInfo → PersistentNodeInfo
to_persistent n = record {
  node_id = n.node_id;
  cluster_id = n.cluster_id;
  incarnation = n.incarnation;
}

unfoldable pub new : ℕ → String → Url → Url → NodeInfo
new node_id cluster_id data_url ctrl_url = record {
  node_id = node_id;
  cluster_id = cluster_id;
  advertise_data_url = data_url;
  advertise_ctrl_url = ctrl_url;
  incarnation = 0;
}

-- `self.incarnation += 1` on a u64, in a release build.
unfoldable pub advance_incarnation : NodeInfo → NodeInfo
advance_incarnation n = record n { incarnation = (n.incarnation + 1) % 2 ^ 64 }

module _ ⦃json : NodeJson⦄ where
  -- `serde_json::from_str(&data)?` after a read.
  abbrev pub parsed : Result String IoError → Result (Option PersistentNodeInfo) IoError
  parsed (err e) = err e
  parsed (ok text) = elim (json.from_str text) [ none ↦ err bad_json | some info ↦ ok (some info) ]

  unfoldable pub load_persistent :
      FileSystem → FilePath → Result (Option PersistentNodeInfo) IoError
  unfolding read_to_string
  load_persistent fs path = if exists fs path then parsed (read_to_string fs path) else ok none

  unfoldable pub persist_info :
      FileSystem → PersistentNodeInfo → FilePath → FileSystem × Result (Unit {0}) IoError
  unfolding write
  persist_info fs info path = elim (json.to_string_pretty info) [
    | none ↦ (fs, err bad_json)
    | some text ↦ write fs path text
  ]

  abbrev pub with_urls : Url → Url → PersistentNodeInfo → NodeInfo
  with_urls data_url ctrl_url info = record {
    node_id = info.node_id;
    cluster_id = info.cluster_id;
    advertise_data_url = data_url;
    advertise_ctrl_url = ctrl_url;
    incarnation = info.incarnation;
  }

  unfoldable pub load : FileSystem → FilePath → Url → Url → Outcome (Option NodeInfo)
  unfolding load_persistent
  load fs path data_url ctrl_url = elim (load_persistent fs path) [
    | err e ↦ panicked
    | ok none ↦ returned none
    | ok (some info) ↦ returned (some (with_urls data_url ctrl_url info))
  ]

  unfoldable pub persist : FileSystem → NodeInfo → FilePath → FileSystem × Outcome (Unit {0})
  unfolding to_persistent persist_info
  persist fs n path =
      let (fs', result) = persist_info fs (to_persistent n) path in
      (fs', elim result [ ok u ↦ returned u | err e ↦ panicked ])
