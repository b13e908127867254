-- ===== src/Ring.antt =====
-- crates/gossip/src/ring.rs: `HashRing<T>`, the consistent hash ring. A method that takes
-- `&mut self` returns the ring. A key is given by its bytes, which is what `key.as_ref()` is.
pub mod Points
pub mod Nodes
pub mod Nearest
pub mod Lookup
pub mod Stability
use percas.Base.{
  ℕ, zero, suc, ◌+◌, List, [], ◌∷◌, ◌++◌, Option, map, Bool, next, find, find_map, and_then,
  or_else, unwrap_or,
}
use percas.Ord.{Ord, nat_ord}
use percas.Bytes.{AsRef, Mur3, to_le_bytes}
use percas.BTreeMap.{BTreeMap, BTreeSet, get, insert, keys, range_from, range_to}

abbrev pub default_vnode_count : ℕ
default_vnode_count = 64

pub record HashRing {ℓ} (T : Type ℓ) : Type ℓ where
  pub vnodes : ℕ
  pub nodes : BTreeMap ℕ (BTreeSet T)

-- `start..start + count`.
unfoldable pub range : ℕ → ℕ → List ℕ
range start zero = []
range start (suc count) = start ∷ range (start + 1) count

unfoldable pub default {ℓ} : {T : Type ℓ} → HashRing T
default = record { vnodes = default_vnode_count; nodes = [] }

unfoldable pub new {ℓ} : {T : Type ℓ} → ℕ → HashRing T
new vnodes = record { vnodes = vnodes; nodes = [] }

unfoldable pub hash_key : ⦃m : Mur3⦄ → List ℕ → ℕ
hash_key ⦃m⦄ key = m.murmurhash3_x86_32 key 0

module _ {ℓ} {T : Type ℓ} ⦃a : AsRef T⦄ ⦃m : Mur3⦄ where
  unfoldable pub hash_node : T → ℕ → ℕ
  hash_node node vnode = m.murmurhash3_x86_32 (a.as_ref node ++ to_le_bytes vnode) 0

  unfoldable pub list_vnodes : HashRing T → T → List ℕ
  list_vnodes r node = map (hash_node node) (range 0 r.vnodes)

module _ {ℓ} {T : Type ℓ} ⦃o : Ord T⦄ where
  -- `self.nodes.entry(hash).or_default().insert(node.clone())`.
  unfoldable pub insert_at : BTreeMap ℕ (BTreeSet T) → ℕ → T → BTreeMap ℕ (BTreeSet T)
  insert_at nodes hash node = insert nodes hash (insert (unwrap_or (get nodes hash) []) node tt)

-- The first key of the bucket, `node.iter().next().cloned()`.
abbrev pub first_node {ℓ} : {T : Type ℓ} → ℕ × BTreeSet T → Option T
first_node e = next (keys e.1)

-- `node.iter().find(|v| predicate(*v)).cloned()`.
abbrev pub find_node {ℓ} : {T : Type ℓ} → (T → Bool) → ℕ × BTreeSet T → Option T
find_node predicate e = find predicate (keys e.1)

module _ {ℓ} {T : Type ℓ} ⦃m : Mur3⦄ where
  unfoldable pub lookup : HashRing T → List ℕ → Option T
  unfolding hash_key
  lookup r key =
      let digest = hash_key key in
      or_else (and_then (next (range_from r.nodes digest)) first_node)
        (and_then (next r.nodes) first_node)

  unfoldable pub lookup_until : HashRing T → List ℕ → (T → Bool) → Option T
  unfolding hash_key
  lookup_until r key predicate =
      let hash = hash_key key in
      or_else (find_map (find_node predicate) (range_from r.nodes hash))
        (find_map (find_node predicate) (range_to r.nodes hash))

module _ {ℓ} {T : Type ℓ} ⦃o : Ord T⦄ ⦃a : AsRef T⦄ ⦃m : Mur3⦄ where
  -- The body of the loop of `add_node`, over the vnodes that are left.
  unfoldable pub add_vnodes : T → List ℕ → BTreeMap ℕ (BTreeSet T) → BTreeMap ℕ (BTreeSet T)
  add_vnodes node [] nodes = nodes
  add_vnodes node (i ∷ rest) nodes = add_vnodes node rest (insert_at nodes (hash_node node i) node)

  unfoldable pub add_node : HashRing T → T → HashRing T
  unfolding range add_vnodes
  add_node r node = record r { nodes = add_vnodes node (range 0 r.vnodes) r.nodes }

  unfoldable pub add_nodes : HashRing T → List T → HashRing T
  add_nodes r [] = r
  add_nodes r (node ∷ rest) = add_nodes (add_node r node) rest

  -- `HashRing::from`.
  unfoldable pub from : List T → HashRing T
  unfolding add_nodes default
  from iter = add_nodes default iter
