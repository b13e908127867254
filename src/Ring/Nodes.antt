-- ===== src/Ring/Nodes.antt =====
-- Adding nodes to the ring: which points a ring made from nodes has, and that it does not depend on
-- the order or the repetitions in the list of nodes.
use percas.Base.{
  ℕ, zero, suc, ◌+◌, ◌≤◌, ◌<◌, ◌^◌, List, [], ◌∷◌, ◌≡◌, ◌↔◌, ◌⊎◌, inl, inr, refl, sym, ap, ◌∙◌,
  arith, Member, here, there, ℕ_discrete,
}
use percas.Ord.{Ord, nat_ord}
use percas.Bytes.{AsRef, Mur3}
use percas.BTreeMap.{BTreeMap, BTreeSet}
use percas.Ring.{
  HashRing, range, hash_node, insert_at, add_vnodes, add_node, add_nodes, from, default,
  default_vnode_count,
}
use percas.Ring.Points.{
  Owns, IsValid, insert_at-IsValid, Owns-insert_at, empty-IsValid, not-Owns-empty, points_ext,
}

-- `i` runs through `start..start + count`.
pub Member-range :
    (start count i : ℕ) → start ≤ i → i < start + count → Member i (range start count)
unfolding range
Member-range start zero i h k = absurd (omega arith)
Member-range start (suc count) i h k = elim (ℕ_discrete i start) [
  | yes e ↦ here e
  | no ne ↦ there (Member-range (start + 1) count i (omega arith) (omega arith))
]

pub range_bounds :
    (start count i : ℕ) → Member i (range start count) → (start ≤ i) × (i < start + count)
unfolding range
range_bounds start zero i h = elim h [ ]
range_bounds start (suc count) i (here e) = omega arith
range_bounds start (suc count) i (there m) = omega (arith, range_bounds (start + 1) count i m)

module _ {ℓ} {T : Type ℓ} ⦃o : Ord T⦄ ⦃a : AsRef T⦄ ⦃m : Mur3⦄ where
  hash_node-lt : (node : T) (i : ℕ) → hash_node node i < 2 ^ 32
  unfolding hash_node
  hash_node-lt node i = m.hash_lt _ 0

  add_vnodes-IsValid :
      (node : T) (vnodes : List ℕ) (nodes : BTreeMap ℕ (BTreeSet T))
      → IsValid nodes
      → IsValid (add_vnodes node vnodes nodes)
  unfolding add_vnodes
  add_vnodes-IsValid node [] nodes v = v
  add_vnodes-IsValid node (i ∷ rest) nodes v =
      add_vnodes-IsValid node rest (insert_at nodes (hash_node node i) node)
        (insert_at-IsValid nodes (hash_node node i) node (hash_node-lt node i) v)

  -- One of the listed vnodes of `n` hashes to `q`.
  abbrev pub Hashes : T → List ℕ → ℕ → Type 0
  Hashes n vnodes q = (i : ℕ) × Member i vnodes × (hash_node n i ≡ q)

  add_vnodes_keeps :
      (node : T) (vnodes : List ℕ) (nodes : BTreeMap ℕ (BTreeSet T)) (q : ℕ) (n : T)
      → Owns nodes q n
      → Owns (add_vnodes node vnodes nodes) q n
  unfolding add_vnodes
  add_vnodes_keeps node [] nodes q n w = w
  add_vnodes_keeps node (i ∷ rest) nodes q n w =
      add_vnodes_keeps node rest _ q n
        ((Owns-insert_at nodes (hash_node node i) node q n).1 (inl w))

  add_vnodes_adds :
      (node : T) (vnodes : List ℕ) (nodes : BTreeMap ℕ (BTreeSet T)) (i : ℕ)
      → Member i vnodes
      → Owns (add_vnodes node vnodes nodes) (hash_node node i) node
  unfolding add_vnodes
  add_vnodes_adds node [] nodes i h = elim h [ ]
  add_vnodes_adds node (j ∷ rest) nodes i (here e) =
      add_vnodes_keeps node rest _ (hash_node node i) node (
        (Owns-insert_at nodes (hash_node node j) node (hash_node node i) node).1
          (inr (ap (hash_node node) (sym e), refl)))
  add_vnodes_adds node (j ∷ rest) nodes i (there w) = add_vnodes_adds node rest _ i w

  add_vnodes_only :
      (node : T) (vnodes : List ℕ) (nodes : BTreeMap ℕ (BTreeSet T)) (q : ℕ) (n : T)
      → Owns (add_vnodes node vnodes nodes) q n
      → Owns nodes q n ⊎ ((n ≡ node) × Hashes node vnodes q)
  unfolding add_vnodes
  add_vnodes_only node [] nodes q n w = inl w
  add_vnodes_only node (i ∷ rest) nodes q n w = elim (add_vnodes_only node rest _ q n w) [
    | inr (e, h) ↦ inr (e, (h.0, there h.1, h.2))
    | inl v ↦ elim ((Owns-insert_at nodes (hash_node node i) node q n).0 v) [
      | inl u ↦ inl u
      | inr (h, e) ↦ inr (e, (i, here refl, h))
    ]
  ]

  -- Some vnode of `n` among the first `vnodes` hashes to `q`.
  abbrev pub Placed : ℕ → T → ℕ → Type 0
  Placed vnodes n q = (i : ℕ) × (i < vnodes) × (hash_node n i ≡ q)

  pub add_node-IsValid : (r : HashRing T) (n : T) → IsValid r.nodes → IsValid (add_node r n).nodes
  unfolding add_node
  add_node-IsValid r n v = add_vnodes-IsValid n (range 0 r.vnodes) r.nodes v

  -- Adding a node adds the points of its vnodes and no other.
  pub Owns-add_node :
      (r : HashRing T) (node : T) (q : ℕ) (n : T)
      → Owns (add_node r node).nodes q n
        ↔ (Owns r.nodes q n ⊎ ((n ≡ node) × Placed r.vnodes node q))
  unfolding add_node
  Owns-add_node r node q n = (
    only,
    λ w. elim w [
      | inl w ↦ add_vnodes_keeps node (range 0 r.vnodes) r.nodes q n w
      | inr w ↦ placed w.0 w.1
    ],
  )
    where
      only :
          Owns (add_vnodes node (range 0 r.vnodes) r.nodes) q n
          → Owns r.nodes q n ⊎ ((n ≡ node) × Placed r.vnodes node q)
      only w = elim (add_vnodes_only node (range 0 r.vnodes) r.nodes q n w) [
        | inl u ↦ inl u
        | inr (e, h) ↦ inr (e, (h.0, omega (arith, range_bounds 0 r.vnodes h.0 h.1), h.2))
      ]

      placed :
          n ≡ node → Placed r.vnodes node q → Owns (add_vnodes node (range 0 r.vnodes) r.nodes) q n
      placed e (i, l, h) =
          rw (e, ← h)
            (add_vnodes_adds node (range 0 r.vnodes) r.nodes i
              (Member-range 0 r.vnodes i (omega arith) (omega arith)))

  vnodes-add_nodes : (r : HashRing T) (ns : List T) → (add_nodes r ns).vnodes ≡ r.vnodes
  unfolding add_nodes add_node
  vnodes-add_nodes r [] = refl
  vnodes-add_nodes r (n ∷ ns) = vnodes-add_nodes (add_node r n) ns

  add_nodes-IsValid :
      (r : HashRing T) (ns : List T) → IsValid r.nodes → IsValid (add_nodes r ns).nodes
  unfolding add_nodes
  add_nodes-IsValid r [] v = v
  add_nodes-IsValid r (n ∷ ns) v = add_nodes-IsValid (add_node r n) ns (add_node-IsValid r n v)

  add_nodes_keeps :
      (r : HashRing T) (ns : List T) (q : ℕ) (n : T)
      → Owns r.nodes q n
      → Owns (add_nodes r ns).nodes q n
  unfolding add_nodes
  add_nodes_keeps r [] q n w = w
  add_nodes_keeps r (x ∷ ns) q n w =
      add_nodes_keeps (add_node r x) ns q n ((Owns-add_node r x q n).1 (inl w))

  add_nodes_adds :
      (r : HashRing T) (ns : List T) (q : ℕ) (n : T)
      → Member n ns
      → Placed r.vnodes n q
      → Owns (add_nodes r ns).nodes q n
  unfolding add_nodes
  add_nodes_adds r [] q n h p = elim h [ ]
  add_nodes_adds r (x ∷ ns) q n (here e) p =
      add_nodes_keeps (add_node r x) ns q n ((Owns-add_node r x q n).1 (inr (e, rw (← e) p)))
  add_nodes_adds r (x ∷ ns) q n (there w) p =
      add_nodes_adds (add_node r x) ns q n w (rw (vnodes-add_nodes r (x ∷ [])) p)

  add_nodes_only :
      (r : HashRing T) (ns : List T) (q : ℕ) (n : T)
      → Owns (add_nodes r ns).nodes q n
      → Owns r.nodes q n ⊎ (Member n ns × Placed r.vnodes n q)
  unfolding add_nodes add_node
  add_nodes_only r [] q n w = inl w
  add_nodes_only r (x ∷ ns) q n w = elim (add_nodes_only (add_node r x) ns q n w) [
    | inr (e, p) ↦ inr (there e, p)
    | inl v ↦ elim ((Owns-add_node r x q n).0 v) [
      | inl u ↦ inl u
      | inr (e, p) ↦ inr (here e, rw e p)
    ]
  ]

  pub from-IsValid : (ns : List T) → IsValid (from ns).nodes
  unfolding from
  from-IsValid ns = add_nodes-IsValid default ns empty-IsValid

  -- The points of a ring made from a list of nodes: the 64 vnodes of each node, and no other.
  pub Owns-from :
      (ns : List T) (q : ℕ) (n : T)
      → Owns (from ns).nodes q n ↔ (Member n ns × Placed default_vnode_count n q)
  unfolding from
  Owns-from ns q n = (only, λ w. add_nodes_adds default ns q n w.0 w.1)
    where
      only : Owns (add_nodes default ns).nodes q n → Member n ns × Placed default_vnode_count n q
      only w = elim (add_nodes_only default ns q n w) [
        | inl u ↦ absurd (not-Owns-empty q n u)
        | inr p ↦ p
      ]

  pub vnodes-from : (ns : List T) → (from ns).vnodes ≡ default_vnode_count
  unfolding from
  vnodes-from ns = vnodes-add_nodes default ns

  ring-eq : (r s : HashRing T) → r.vnodes ≡ s.vnodes → r.nodes ≡ s.nodes → r ≡ s
  ring-eq r s e f = λ i. record { vnodes = e i; nodes = f i }

  -- Two lists with the same nodes make the same ring, whatever their order and repetitions.
  pub from-eq_of_same_nodes :
      (xs ys : List T) → ((n : T) → Member n xs ↔ Member n ys) → from xs ≡ from ys
  from-eq_of_same_nodes xs ys same =
      ring-eq (from xs) (from ys) (vnodes-from xs ∙ sym (vnodes-from ys))
        (points_ext (from xs).nodes (from ys).nodes (from-IsValid xs) (from-IsValid ys) points)
    where
      points : (q : ℕ) (n : T) → Owns (from xs).nodes q n ↔ Owns (from ys).nodes q n
      points q n = (
        (λ w. let (e, p) = (Owns-from xs q n).0 w in (Owns-from ys q n).1 ((same n).0 e, p)),
        λ w. let (e, p) = (Owns-from ys q n).0 w in (Owns-from xs q n).1 ((same n).1 e, p),
      )
