-- ===== src/Ring/Nearest.antt =====
-- What `lookup_until` and `lookup` return: the node that owns the nearest point clockwise from the
-- key's hash, among the nodes that the predicate accepts.
use percas.Base.{
  ℕ, true≢false, dec_le, none-ne-some, some-injective, ◌+◌, ◌-◌, ◌%◌, ◌≤◌, ◌<◌, ◌^◌, Option, none,
  some, ◌≡◌, ◌≢◌, ◌↔◌, ◌⊎◌, inl, inr, refl, sym, ap, ◌∙◌, gt, arith, Bool, true, false,
  Option-cases, find_map, or_else,
}
use percas.Ord.{Ord, nat_ord, cmp-cases, lt_of_gt}
use percas.BTreeMap.{BTreeMap, BTreeSet, get, range_from, range_to}
use percas.BTreeMap.Order.{IsSorted}
use percas.BTreeMap.Range.{get-range_from, get-range_to, range_from-IsSorted, range_to-IsSorted}
use percas.BTreeMap.Search.{
  FirstHit, FirstKey, find_map-FirstHit, find_map-none, find-FirstKey, find-none,
}
use percas.Ring.{find_node}
use percas.Ring.Points.{Owns, IsValid, Owns_of_get, point_bucket}

-- How far the point `p` lies from the hash `h`, walking up and round through 2^32.
unfoldable pub distance : ℕ → ℕ → ℕ
distance h p = (p + 2 ^ 32 - h) % 2 ^ 32

distance-injective :
    (h p q : ℕ) → h < 2 ^ 32 → p < 2 ^ 32 → q < 2 ^ 32 → distance h p ≡ distance h q → p ≡ q
unfolding distance
distance-injective h p q a b c e = omega arith

distance_ahead : (h p q : ℕ) → h ≤ p → p < q → q < 2 ^ 32 → distance h p < distance h q
unfolding distance
distance_ahead h p q a b c = omega arith

distance_wraps : (h p q : ℕ) → h ≤ p → q < h → p < 2 ^ 32 → distance h p < distance h q
unfolding distance
distance_wraps h p q a b c = omega arith

distance_behind : (h p q : ℕ) → h < 2 ^ 32 → p < q → q < h → distance h p < distance h q
unfolding distance
distance_behind h p q a b c = omega arith

module _ {ℓ} {T : Type ℓ} ⦃o : Ord T⦄ where
  Owns-lt :
      (nodes : BTreeMap ℕ (BTreeSet T)) (q : ℕ) (x : T)
      → IsValid nodes
      → Owns nodes q x
      → q < 2 ^ 32
  Owns-lt nodes q x v w = let (s, e, held) = point_bucket nodes q x w in (v.buckets q s e).in_range

  -- `n` owns the accepted point that is nearest to `h` clockwise; of two nodes at one point it is
  -- the smaller.
  pub record IsNearest (nodes : BTreeMap ℕ (BTreeSet T)) (h : ℕ) (accepts : T → Bool) (p : ℕ)
      (n : T) : Type ℓ where
    pub owns : Owns nodes p n
    pub accepted : accepts n ≡ true
    pub nearest :
        (q : ℕ) (x : T)
        → Owns nodes q x
        → accepts x ≡ true
        → (distance h p < distance h q) ⊎ ((p ≡ q) × (o.cmp n x ≢ gt))

  -- The first accepted point of some buckets, in their order.
  record First (part : BTreeMap ℕ (BTreeSet T)) (accepts : T → Bool) (p : ℕ) (n : T) : Type ℓ where
    owns : Owns part p n
    accepted : accepts n ≡ true
    before :
        (q : ℕ) (x : T) → Owns part q x → accepts x ≡ true → (p < q) ⊎ ((p ≡ q) × (o.cmp n x ≢ gt))

  before-FirstHit :
      (part : BTreeMap ℕ (BTreeSet T)) (accepts : T → Bool) (n : T) (p : ℕ) (s : BTreeSet T)
      → FirstHit part (find_node accepts) n p s
      → FirstKey s accepts n
      → (q : ℕ) (x : T) → Owns part q x
      → accepts x ≡ true
      → (p < q) ⊎ ((p ≡ q) × (o.cmp n x ≢ gt))
  before-FirstHit part accepts n p s hit key q x w ok =
      let (t, e, held) = point_bucket part q x w in
      elim (cmp-cases q p) [
        | inl c ↦ absurd (true≢false (sym ok ∙ find-none t accepts x (hit.first q t e c) held))
        | inr (inr c) ↦ inl (ground (arith, c))
        | inr (inl c) ↦
            let same : q ≡ p = ground (arith, c) in
            let bucket : t ≡ s = some-injective (sym e ∙ ap (get part) same ∙ hit.held) in
            inr (
              sym same,
              λ g. true≢false (sym ok ∙ key.least x (rw bucket at held) (lt_of_gt n x g)),
            )
      ]

  search-First :
      (part : BTreeMap ℕ (BTreeSet T)) (accepts : T → Bool) (n : T)
      → IsValid part
      → find_map (find_node accepts) part ≡ some n
      → (p : ℕ) × First part accepts p n
  search-First part accepts n v e =
      let (p, s, hit) = find_map-FirstHit part (find_node accepts) n v.sorted e in
      let key = find-FirstKey s accepts n (v.buckets p s hit.held).sorted hit.hit in
      (
        p,
        record {
          owns = Owns_of_get part p s n hit.held ∙ key.held;
          accepted = key.passes;
          before = before-FirstHit part accepts n p s hit key;
        },
      )

  pub search-none :
      (part : BTreeMap ℕ (BTreeSet T)) (accepts : T → Bool) (q : ℕ) (x : T)
      → find_map (find_node accepts) part ≡ none
      → Owns part q x
      → accepts x ≡ false
  search-none part accepts q x e w =
      let (t, f, held) = point_bucket part q x w in
      find-none t accepts x (find_map-none part (find_node accepts) q t e f) held

  get-range_from-some :
      (nodes : BTreeMap ℕ (BTreeSet T)) (h q : ℕ) (s : BTreeSet T)
      → IsSorted nodes
      → get (range_from nodes h) q ≡ some s
      → (get nodes q ≡ some s) × (h ≤ q)
  get-range_from-some nodes h q s v e = ground (arith, get-range_from nodes h q v)

  get-range_to-some :
      (nodes : BTreeMap ℕ (BTreeSet T)) (h q : ℕ) (s : BTreeSet T)
      → IsSorted nodes
      → get (range_to nodes h) q ≡ some s
      → (get nodes q ≡ some s) × (q ≤ h)
  get-range_to-some nodes h q s v e = ground (arith, get-range_to nodes h q v)

  pub range_from-IsValid :
      (nodes : BTreeMap ℕ (BTreeSet T)) (h : ℕ) → IsValid nodes → IsValid (range_from nodes h)
  range_from-IsValid nodes h v = record {
    sorted = range_from-IsSorted nodes h v.sorted;
    buckets = λ q s e. v.buckets q s (get-range_from-some nodes h q s v.sorted e).0;
  }

  pub range_to-IsValid :
      (nodes : BTreeMap ℕ (BTreeSet T)) (h : ℕ) → IsValid nodes → IsValid (range_to nodes h)
  range_to-IsValid nodes h v = record {
    sorted = range_to-IsSorted nodes h v.sorted;
    buckets = λ q s e. v.buckets q s (get-range_to-some nodes h q s v.sorted e).0;
  }

  Owns-range_from :
      (nodes : BTreeMap ℕ (BTreeSet T)) (h q : ℕ) (x : T)
      → IsSorted nodes
      → Owns (range_from nodes h) q x ↔ (Owns nodes q x × (h ≤ q))
  Owns-range_from nodes h q x v = (
    inside,
    λ w.
        let (s, e, held) = point_bucket nodes q x w.0 in
        Owns_of_get (range_from nodes h) q s x (ground (arith, get-range_from nodes h q v)) ∙ held,
  )
    where
      inside : Owns (range_from nodes h) q x → Owns nodes q x × (h ≤ q)
      inside w =
          let (s, e, held) = point_bucket (range_from nodes h) q x w in
          let (f, l) = get-range_from-some nodes h q s v e in (Owns_of_get nodes q s x f ∙ held, l)

  Owns-range_to :
      (nodes : BTreeMap ℕ (BTreeSet T)) (h q : ℕ) (x : T)
      → IsSorted nodes
      → Owns (range_to nodes h) q x ↔ (Owns nodes q x × (q ≤ h))
  Owns-range_to nodes h q x v = (
    inside,
    λ w.
        let (s, e, held) = point_bucket nodes q x w.0 in
        Owns_of_get (range_to nodes h) q s x (ground (arith, get-range_to nodes h q v)) ∙ held,
  )
    where
      inside : Owns (range_to nodes h) q x → Owns nodes q x × (q ≤ h)
      inside w =
          let (s, e, held) = point_bucket (range_to nodes h) q x w in
          let (f, l) = get-range_to-some nodes h q s v e in (Owns_of_get nodes q s x f ∙ held, l)

  -- What a search clockwise from `h` gives, whichever of its two ranges has the hit.
  abbrev pub around : BTreeMap ℕ (BTreeSet T) → ℕ → (T → Bool) → Option T
  around nodes h accepts =
      or_else (find_map (find_node accepts) (range_from nodes h))
        (find_map (find_node accepts) (range_to nodes h))

  ahead-IsNearest :
      (nodes : BTreeMap ℕ (BTreeSet T)) (h : ℕ) (accepts : T → Bool) (p : ℕ) (n : T)
      → h < 2 ^ 32
      → IsValid nodes
      → First (range_from nodes h) accepts p n
      → IsNearest nodes h accepts p n
  ahead-IsNearest nodes h accepts p n l v f = record {
    owns = here_p.0;
    accepted = f.accepted;
    nearest = λ q x w ok. elim (dec_le h q) [
      | yes up ↦ elim (f.before q x ((Owns-range_from nodes h q x v.sorted).1 (w, up)) ok) [
        | inl less ↦ inl (distance_ahead h p q here_p.1 less (Owns-lt nodes q x v w))
        | inr same ↦ inr same
      ]
      | no down ↦ inl (distance_wraps h p q here_p.1 (omega arith) (Owns-lt nodes p n v here_p.0))
    ];
  }
    where
      here_p : Owns nodes p n × (h ≤ p)
      here_p = (Owns-range_from nodes h p n v.sorted).0 f.owns

  behind-IsNearest :
      (nodes : BTreeMap ℕ (BTreeSet T)) (h : ℕ) (accepts : T → Bool) (p : ℕ) (n : T)
      → h < 2 ^ 32
      → IsValid nodes
      → find_map (find_node accepts) (range_from nodes h) ≡ none
      → First (range_to nodes h) accepts p n
      → IsNearest nodes h accepts p n
  behind-IsNearest nodes h accepts p n l v e f = record {
    owns = at_p.0;
    accepted = f.accepted;
    nearest = λ q x w ok. elim (dec_le h q) [
      | yes up ↦ absurd (
          true≢false (
            sym ok
            ∙ search-none (range_from nodes h) accepts q x e
                ((Owns-range_from nodes h q x v.sorted).1 (w, up))))
      | no down ↦ elim (f.before q x ((Owns-range_to nodes h q x v.sorted).1 (w, omega arith)) ok) [
        | inl less ↦ inl (distance_behind h p q l less (omega arith))
        | inr same ↦ inr same
      ]
    ];
  }
    where
      at_p : Owns nodes p n × (p ≤ h)
      at_p = (Owns-range_to nodes h p n v.sorted).0 f.owns

  pub around-IsNearest :
      (nodes : BTreeMap ℕ (BTreeSet T)) (h : ℕ) (accepts : T → Bool) (n : T)
      → h < 2 ^ 32
      → IsValid nodes
      → around nodes h accepts ≡ some n
      → (p : ℕ) × IsNearest nodes h accepts p n
  around-IsNearest nodes h accepts n l v e =
      elim (Option-cases (find_map (find_node accepts) (range_from nodes h))) [
        | inr (m, hit) ↦
            let same : m ≡ n = some-injective (rw hit at e) in
            let (p, f) =
              search-First (range_from nodes h) accepts n (range_from-IsValid nodes h v)
                (hit ∙ ap some same) in
            (p, ahead-IsNearest nodes h accepts p n l v f)
        | inl miss ↦
            let (p, f) =
              search-First (range_to nodes h) accepts n (range_to-IsValid nodes h v)
                (rw miss at e) in
            (p, behind-IsNearest nodes h accepts p n l v miss f)
      ]

  pub or_else-none : (x y : Option T) → or_else x y ≡ none → (x ≡ none) × (y ≡ none)
  or_else-none none y e = (refl, e)
  or_else-none (some a) y e = absurd (none-ne-some (sym e))

  pub around-none :
      (nodes : BTreeMap ℕ (BTreeSet T)) (h : ℕ) (accepts : T → Bool) (q : ℕ) (x : T)
      → IsValid nodes
      → around nodes h accepts ≡ none
      → Owns nodes q x
      → accepts x ≡ false
  around-none nodes h accepts q x v e w =
      let (up, down) = or_else-none _ _ e in
      elim (dec_le h q) [
        | yes l ↦
            search-none (range_from nodes h) accepts q x up
              ((Owns-range_from nodes h q x v.sorted).1 (w, l))
        | no l ↦
            search-none (range_to nodes h) accepts q x down
              ((Owns-range_to nodes h q x v.sorted).1 (w, omega arith))
      ]
