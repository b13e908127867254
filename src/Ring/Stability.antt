-- ===== src/Ring/Stability.antt =====
-- What makes the hash ring consistent: how the answers move when a node joins or when the predicate
-- stops accepting a node, and that plain `lookup` is `lookup_until` with a predicate that accepts
-- all.
use percas.Base.{
  ℕ, List, [], ◌∷◌, some, and_then, ◌≡◌, ◌⊎◌, inl, inr, refl, sym, ap, ◌∙◌, arith, Bool, true,
  Option-cases, find, find_map, or_else, next, true≢false, Member,
}
use percas.Ord.{Ord, nat_ord}
use percas.Bytes.{AsRef, Mur3}
use percas.BTreeMap.{BTreeMap, BTreeSet, get, range_from, range_to}
use percas.Ring.{
  HashRing, hash_key, hash_node, add_node, lookup, lookup_until, find_node, first_node, from,
}
use percas.Ring.Points.{Owns, IsValid}
use percas.Ring.Nodes.{Owns-add_node, add_node-IsValid, Owns-from, from-IsValid}
use percas.Ring.Nearest.{range_from-IsValid, range_to-IsValid}
use percas.Ring.Lookup.{lookup_until-none, lookup_until-IsNearest}

module _ {ℓ} {T : Type ℓ} ⦃o : Ord T⦄ ⦃a : AsRef T⦄ ⦃m : Mur3⦄ where
  -- Adding a node to the ring changes the answer for a key only to the new node.
  pub lookup_until-add_node :
      (r : HashRing T) (node : T) (key : List ℕ) (accepts : T → Bool)
      → IsValid r.nodes
      → (lookup_until (add_node r node) key accepts ≡ lookup_until r key accepts)
        ⊎ (lookup_until (add_node r node) key accepts ≡ some node)
  lookup_until-add_node r node key accepts v =
      elim (Option-cases (lookup_until (add_node r node) key accepts)) [
        | inl e ↦ inl (
            e
            ∙ sym (
                (lookup_until-none r key accepts v).1 (λ q x w.
                  (lookup_until-none (add_node r node) key accepts valid).0 e q x (old q x w))))
        | inr (n, e) ↦
            let (p, near) = (lookup_until-IsNearest (add_node r node) key accepts n valid).0 e in
            elim ((Owns-add_node r node p n).0 near.owns) [
              | inr (same, _) ↦ inr (e ∙ ap some same)
              | inl w ↦ inl (
                  e
                  ∙ sym (
                      (lookup_until-IsNearest r key accepts n v).1 (
                        p,
                        record {
                          owns = w;
                          accepted = near.accepted;
                          nearest = λ q x u. near.nearest q x (old q x u);
                        },
                      )))
            ]
      ]
    where
      valid : IsValid (add_node r node).nodes
      valid = add_node-IsValid r node v

      old : (q : ℕ) (x : T) → Owns r.nodes q x → Owns (add_node r node).nodes q x
      old q x w = (Owns-add_node r node q x).1 (inl w)

  -- When the predicate is narrowed, a key whose node is still accepted keeps its node.
  pub lookup_until-narrow :
      (r : HashRing T) (key : List ℕ) (accepts narrower : T → Bool) (n : T)
      → IsValid r.nodes
      → ((x : T) → narrower x ≡ true → accepts x ≡ true)
      → lookup_until r key accepts ≡ some n
      → narrower n ≡ true
      → lookup_until r key narrower ≡ some n
  lookup_until-narrow r key accepts narrower n v sub e ok =
      let (p, near) = (lookup_until-IsNearest r key accepts n v).0 e in
      (lookup_until-IsNearest r key narrower n v).1 (
        p,
        record {
          owns = near.owns;
          accepted = ok;
          nearest = λ q x w k. near.nearest q x w (sub x k);
        },
      )

  -- On a ring made from a list of nodes, `lookup_until` returns a node whenever the predicate
  -- accepts some node of the list, and the node is one of the list that it accepts.
  pub lookup_until-from :
      (ns : List T) (key : List ℕ) (accepts : T → Bool) (n : T)
      → Member n ns
      → accepts n ≡ true
      → (x : T) × (lookup_until (from ns) key accepts ≡ some x) × Member x ns × (accepts x ≡ true)
  lookup_until-from ns key accepts n i ok =
      elim (Option-cases (lookup_until (from ns) key accepts)) [
        | inl e ↦ absurd (
            true≢false (
              sym ok
              ∙ (lookup_until-none (from ns) key accepts (from-IsValid ns)).0 e (hash_node n 0) n
                  ((Owns-from ns (hash_node n 0) n).1 (i, (0, omega arith, refl)))))
        | inr (x, e) ↦
            let (p, near) =
              (lookup_until-IsNearest (from ns) key accepts x (from-IsValid ns)).0 e in
            (x, e, ((Owns-from ns p x).0 near.owns).0, near.accepted)
      ]

module _ {ℓ κ} {K : Type ℓ} {V : Type κ} ⦃o : Ord K⦄ where
  -- A map with no key from `h` up is its own part up to `h`.
  range_to_whole : (m : BTreeMap K V) (h : K) → range_from m h ≡ [] → range_to m h ≡ m
  unfolding range_from range_to
  range_to_whole [] h e = refl
  range_to_whole ((k, v) ∷ m) h e = ground (arith, range_to_whole m h)

abbrev all {ℓ} : {T : Type ℓ} → T → Bool
all x = true

module _ {ℓ} {T : Type ℓ} ⦃o : Ord T⦄ where
  -- With no bucket empty, a search that accepts all nodes stops in the first bucket.
  search-all :
      (part : BTreeMap ℕ (BTreeSet T))
      → IsValid part
      → find_map (find_node all) part ≡ and_then (next part) first_node
  unfolding find_map find get
  search-all [] v = refl
  search-all ((q, []) ∷ rest) v =
      absurd ((v.buckets q [] (ground (arith, nat_ord.cmp_self q))).nonempty refl)
  search-all ((q, (k, u) ∷ s) ∷ rest) v = refl

  first_node-some :
      (q : ℕ) (s : BTreeSet T) (rest part : BTreeMap ℕ (BTreeSet T))
      → IsValid part
      → part ≡ (q, s) ∷ rest
      → (n : T) × (first_node (q, s) ≡ some n)
  unfolding get
  first_node-some q [] rest part v e =
      absurd ((v.buckets q [] (rw e (ground (arith, nat_ord.cmp_self q)))).nonempty refl)
  first_node-some q ((k, u) ∷ s) rest part v e = (k, refl)

module _ {ℓ} {T : Type ℓ} ⦃o : Ord T⦄ ⦃m : Mur3⦄ where
  -- On a valid ring `lookup` is `lookup_until` with the predicate that accepts every node.
  pub lookup-eq-lookup_until :
      (r : HashRing T) (key : List ℕ)
      → IsValid r.nodes
      → lookup r key ≡ lookup_until r key (λ _. true)
  unfolding lookup lookup_until
  lookup-eq-lookup_until r key v =
      rw
        (
          search-all (range_from r.nodes h) (range_from-IsValid r.nodes h v),
          search-all (range_to r.nodes h) (range_to-IsValid r.nodes h v),
        )
        (go (range_from r.nodes h) refl)
    where
      h : ℕ
      h = hash_key key

      go :
          (part : BTreeMap ℕ (BTreeSet T))
          → range_from r.nodes h ≡ part
          → or_else
              (and_then (next (range_from r.nodes h)) first_node)
              (and_then (next r.nodes) first_node)
            ≡ or_else
                (and_then (next (range_from r.nodes h)) first_node)
                (and_then (next (range_to r.nodes h)) first_node)
      go [] e = rw (range_to_whole r.nodes h e)
      go ((q, s) ∷ rest) e =
          let (n, hit) =
            first_node-some q s rest (range_from r.nodes h) (range_from-IsValid r.nodes h v) e in
          rw (e, hit) refl
