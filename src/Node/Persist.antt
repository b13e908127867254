-- ===== src/Node/Persist.antt =====
-- What a restart reads back of the identity that was written.
use percas.Base.{some, false, ◌≡◌, inl, inr, refl, arith, returned, Option-cases, Bool-cases}
use percas.Text.{String, Url, FilePath}
use percas.FileSystem.{FileSystem, write, content-write}
use percas.Node.{NodeInfo, PersistentNodeInfo, NodeJson, load, persist, to_persistent, persist_info}

module _ ⦃json : NodeJson⦄ where
  -- What the file of a node holds: a text that reads back as the identity `info`.
  pub record Stores (fs : FileSystem) (path : FilePath) (info : PersistentNodeInfo) : Type 0 where
    pub text : String
    pub written : fs.content path ≡ some text
    pub reads : json.from_str text ≡ some info

  persist-some :
      (fs : FileSystem) (n : NodeInfo) (path : FilePath) (text : String)
      → json.to_string_pretty (to_persistent n) ≡ some text
      → (persist fs n path).0 ≡ (write fs path text).0
  unfolding persist
  persist-some fs n path text e = rw (e, persist, persist_info)

  persisted_text :
      (fs : FileSystem) (n : NodeInfo) (path : FilePath)
      → (persist fs n path).1 ≡ returned tt
      → (text : String) × (json.to_string_pretty (to_persistent n) ≡ some text)
        × (fs.write_fails path ≡ false)
  unfolding persist
  persisted_text fs n path p = elim (Option-cases (json.to_string_pretty (to_persistent n))) [
    | inl e ↦ absurd (ground (arith, e))
    | inr (text, e) ↦ (text, e, ground (arith, e))
  ]

  -- A `persist` that returned leaves the identity in the file.
  pub persist-Stores :
      (fs : FileSystem) (n : NodeInfo) (path : FilePath)
      → (persist fs n path).1 ≡ returned tt
      → Stores (persist fs n path).0 path (to_persistent n)
  persist-Stores fs n path p =
      let (text, e, w) = persisted_text fs n path p in
      record {
        text = text;
        written = rw (persist-some fs n path text e) (content-write fs path text w);
        reads = json.from_str-to_string_pretty (to_persistent n) text e;
      }

  -- A persist decides nothing about which reads fail.
  pub read_fails-persist :
      (fs : FileSystem) (n : NodeInfo) (path : FilePath)
      → (persist fs n path).0.read_fails ≡ fs.read_fails
  unfolding persist
  read_fails-persist fs n path = elim (Option-cases (json.to_string_pretty (to_persistent n))) [
    | inl e ↦ rw (e, persist, persist_info) refl
    | inr (text, e) ↦ rw (persist-some fs n path text e) (elim (Bool-cases (fs.write_fails path)) [
      | inl f ↦ rw (f, write) refl
      | inr f ↦ rw (f, write) refl
    ])
  ]

  pub load-Stores :
      (fs : FileSystem) (path : FilePath) (info : PersistentNodeInfo) (data_url ctrl_url : Url)
      → Stores fs path info
      → fs.read_fails path ≡ false
      → load fs path data_url ctrl_url
        ≡ returned (
            some (record {
              node_id = info.node_id;
              cluster_id = info.cluster_id;
              advertise_data_url = data_url;
              advertise_ctrl_url = ctrl_url;
              incarnation = info.incarnation;
            }))
  unfolding load
  load-Stores fs path info data_url ctrl_url s r = ground (arith, s.written, s.reads)

  -- Once `persist` returned, `load` of the same file returns the identity, the cluster and the
  -- incarnation that were written, under the URLs that it is given, if the file can be read.
  pub load-persist :
      (fs : FileSystem) (n : NodeInfo) (path : FilePath) (data_url ctrl_url : Url)
      → (persist fs n path).1 ≡ returned tt
      → fs.read_fails path ≡ false
      → load (persist fs n path).0 path data_url ctrl_url
        ≡ returned
            (some (record n { advertise_data_url = data_url; advertise_ctrl_url = ctrl_url }))
  unfolding to_persistent
  load-persist fs n path data_url ctrl_url p r =
      load-Stores (persist fs n path).0 path (to_persistent n) data_url ctrl_url
        (persist-Stores fs n path p) (rw (read_fails-persist fs n path) r)
