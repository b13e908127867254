-- ===== src/Ring/Lookup.antt =====
-- `HashRing::lookup` and `HashRing::lookup_until` against their specification, the nearest point.
use percas.Base.{
  ℕ, ◌^◌, ◌<◌, List, none, some, ◌≡◌, ◌≢◌, ◌↔◌, ◌⊎◌, inl, inr, refl, sym, ap, ◌∙◌, arith, Bool,
  false, Option-cases, true≢false, gt,
}
use percas.Ord.{Ord, nat_ord, cmp-cases}
use percas.Bytes.{Mur3}
use percas.BTreeMap.{BTreeMap, BTreeSet}
use percas.Ring.{HashRing, hash_key, lookup_until}
use percas.Ring.Points.{Owns, IsValid}
use percas.Ring.Nearest.{IsNearest, distance, around, around-IsNearest, around-none}

hash_key-lt : ⦃m : Mur3⦄ (key : List ℕ) → hash_key key < 2 ^ 32
unfolding hash_key
hash_key-lt ⦃m⦄ key = m.hash_lt key 0

module _ {ℓ} {T : Type ℓ} ⦃o : Ord T⦄ where
  cmp-antisym : (a b : T) → o.cmp a b ≢ gt → o.cmp b a ≢ gt → a ≡ b
  cmp-antisym a b h k = ground (arith, cmp-cases a b, o.cmp_swap a b, o.eq_of_cmp a b)

  pub IsNearest-unique :
      (nodes : BTreeMap ℕ (BTreeSet T)) (h : ℕ) (accepts : T → Bool) (p q : ℕ) (n x : T)
      → IsNearest nodes h accepts p n
      → IsNearest nodes h accepts q x
      → n ≡ x
  IsNearest-unique nodes h accepts p q n x a b =
      order (a.nearest q x b.owns b.accepted) (b.nearest p n a.owns a.accepted)
    where
      order :
          (distance h p < distance h q) ⊎ ((p ≡ q) × (o.cmp n x ≢ gt))
          → (distance h q < distance h p) ⊎ ((q ≡ p) × (o.cmp x n ≢ gt))
          → n ≡ x
      order (inl l) (inl k) = absurd (omega arith)
      order (inl l) (inr k) = absurd (omega (arith, ap (distance h) k.0))
      order (inr l) (inl k) = absurd (omega (arith, ap (distance h) l.0))
      order (inr l) (inr k) = cmp-antisym n x l.1 k.1

module _ {ℓ} {T : Type ℓ} ⦃o : Ord T⦄ ⦃m : Mur3⦄ where
  lookup_until-around :
      (r : HashRing T) (key : List ℕ) (accepts : T → Bool)
      → lookup_until r key accepts ≡ around r.nodes (hash_key key) accepts
  unfolding lookup_until
  lookup_until-around r key accepts = refl

  -- `lookup_until` finds no node exactly when the predicate rejects every node of the ring.
  pub lookup_until-none :
      (r : HashRing T) (key : List ℕ) (accepts : T → Bool)
      → IsValid r.nodes
      → (lookup_until r key accepts ≡ none)
        ↔ ((q : ℕ) (x : T) → Owns r.nodes q x → accepts x ≡ false)
  lookup_until-none r key accepts v = (
    (λ e q x w.
        around-none r.nodes (hash_key key) accepts q x v
          (sym (lookup_until-around r key accepts) ∙ e) w),
    rejected,
  )
    where
      rejected :
          ((q : ℕ) (x : T) → Owns r.nodes q x → accepts x ≡ false)
          → lookup_until r key accepts ≡ none
      rejected all = elim (Option-cases (lookup_until r key accepts)) [
        | inl e ↦ e
        | inr (n, e) ↦
            let (p, near) =
              around-IsNearest r.nodes (hash_key key) accepts n (hash_key-lt key) v
                (sym (lookup_until-around r key accepts) ∙ e) in
            absurd (true≢false (sym near.accepted ∙ all p n near.owns))
      ]

  -- `lookup_until` returns a node exactly when that node owns, among the nodes which the predicate
  -- accepts, the point nearest to the key's hash going up and round through 2^32; of the nodes at
  -- one point it is the smallest.
  pub lookup_until-IsNearest :
      (r : HashRing T) (key : List ℕ) (accepts : T → Bool) (n : T)
      → IsValid r.nodes
      → (lookup_until r key accepts ≡ some n)
        ↔ ((p : ℕ) × IsNearest r.nodes (hash_key key) accepts p n)
  lookup_until-IsNearest r key accepts n v = (to n, from_nearest)
    where
      to :
          (n : T)
          → lookup_until r key accepts ≡ some n
          → (p : ℕ) × IsNearest r.nodes (hash_key key) accepts p n
      to n e =
          around-IsNearest r.nodes (hash_key key) accepts n (hash_key-lt key) v
            (sym (lookup_until-around r key accepts) ∙ e)

      from_nearest :
          ((p : ℕ) × IsNearest r.nodes (hash_key key) accepts p n)
          → lookup_until r key accepts ≡ some n
      from_nearest (p, near) = elim (Option-cases (lookup_until r key accepts)) [
        | inl e ↦
            absurd (
              true≢false
                (sym near.accepted ∙ (lookup_until-none r key accepts v).0 e p n near.owns))
        | inr (x, e) ↦
            let (q, other) = to x e in
            e ∙ ap some (IsNearest-unique r.nodes (hash_key key) accepts q p x n other near)
      ]
