-- ===== src/BTreeMap/Values.antt =====
-- Changing the values of a `BTreeMap` and leaving its keys, and the entries that an insertion leaves.
use percas.Base.{
  List, [], ◌∷◌, Option, none, some, ◌≡◌, ◌⊎◌, inl, inr, refl, sym, ap, arith, lt, eq, gt, Member,
  here, there, map,
}
use percas.Ord.{Ord, cmp-cases}
use percas.BTreeMap.{BTreeMap, get, insert, range_from, keys, values}
use percas.BTreeMap.Order.{IsSorted, IsSorted-of_Above}
use percas.BTreeMap.Keys.{get_of_tail}

-- `Option::map`.
abbrev pub map_option {κ ν} : {V : Type κ} {W : Type ν} → (V → W) → Option V → Option W
map_option f none = none
map_option f (some v) = some (f v)

module _ {ℓ κ ν} {K : Type ℓ} {V : Type κ} {W : Type ν} where
  unfoldable pub map_values : (V → W) → BTreeMap K V → BTreeMap K W
  map_values f [] = []
  map_values f ((k, v) ∷ m) = (k, f v) ∷ map_values f m

module _ {ℓ κ ν} {K : Type ℓ} {V : Type κ} {W : Type ν} ⦃o : Ord K⦄ (f : V → W) where
  pub get-map_values : (m : BTreeMap K V) (q : K) → get (map_values f m) q ≡ map_option f (get m q)
  unfolding get map_values
  get-map_values [] q = refl
  get-map_values ((k, v) ∷ m) q = elim (cmp-cases q k) [
    | inl c ↦ rw (c, get) refl
    | inr (inl c) ↦ rw (c, get) refl
    | inr (inr c) ↦ rw (c, get) (get-map_values m q)
  ]

  pub insert-map_values :
      (m : BTreeMap K V) (q : K) (v : V)
      → map_values f (insert m q v) ≡ insert (map_values f m) q (f v)
  unfolding insert map_values
  insert-map_values [] q v = refl
  insert-map_values ((k, u) ∷ m) q v = elim (cmp-cases q k) [
    | inl c ↦ rw (c, insert) refl
    | inr (inl c) ↦ rw (c, insert) refl
    | inr (inr c) ↦ rw (c, insert) (ap (λ r. (k, f u) ∷ r) (insert-map_values m q v))
  ]

  pub range_from-map_values :
      (m : BTreeMap K V) (q : K) → map_values f (range_from m q) ≡ range_from (map_values f m) q
  unfolding range_from map_values
  range_from-map_values [] q = refl
  range_from-map_values ((k, u) ∷ m) q = elim (cmp-cases k q) [
    | inl c ↦ rw (c, range_from) (range_from-map_values m q)
    | inr (inl c) ↦ rw (c, range_from) refl
    | inr (inr c) ↦ rw (c, range_from) refl
  ]

module _ {ℓ κ} {K : Type ℓ} {V : Type κ} ⦃o : Ord K⦄ where
  -- An entry after an insertion is the new one or an old one.
  pub Member-insert :
      (m : BTreeMap K V) (q : K) (v : V) (e : K × V)
      → Member e (insert m q v)
      → (e ≡ (q, v)) ⊎ Member e m
  unfolding insert
  Member-insert [] q v e (here h) = inl h
  Member-insert [] q v e (there w) = elim w [ ]
  Member-insert ((k, u) ∷ m) q v e w = elim (cmp-cases q k) [
    | inl c ↦ elim (rw (c, insert) at w) [ here h ↦ inl h | there x ↦ inr x ]
    | inr (inl c) ↦ elim (rw (c, insert) at w) [
      | here h ↦ inl (rw (o.eq_of_cmp q k c) h)
      | there x ↦ inr (there x)
    ]
    | inr (inr c) ↦ elim (rw (c, insert) at w) [
      | here h ↦ inr (here h)
      | there x ↦ elim (Member-insert m q v e x) [ inl h ↦ inl h | inr y ↦ inr (there y) ]
    ]
  ]

  pub Member_of_range_from :
      (m : BTreeMap K V) (q : K) (e : K × V) → Member e (range_from m q) → Member e m
  unfolding range_from
  Member_of_range_from [] q e w = w
  Member_of_range_from ((k, u) ∷ m) q e w = elim (cmp-cases k q) [
    | inl c ↦ there (Member_of_range_from m q e (rw (c, range_from) at w))
    | inr (inl c) ↦ (rw (c, range_from) at w)
    | inr (inr c) ↦ (rw (c, range_from) at w)
  ]

  pub Member_of_get : (m : BTreeMap K V) (q : K) (v : V) → get m q ≡ some v → Member (q, v) m
  unfolding get
  Member_of_get [] q v e = absurd (percas.Base.none-ne-some e)
  Member_of_get ((k, u) ∷ m) q v e = elim (cmp-cases q k) [
    | inl c ↦ absurd (percas.Base.none-ne-some (rw (c, get) at e))
    | inr (inl c) ↦
        here (λ i. (o.eq_of_cmp q k c i, percas.Base.some-injective (sym (rw (c, get) at e)) i))
    | inr (inr c) ↦ there (Member_of_get m q v (rw (c, get) at e))
  ]

  pub get_of_entry :
      (m : BTreeMap K V) (q : K) (v : V) → IsSorted m → Member (q, v) m → get m q ≡ some v
  unfolding get
  get_of_entry [] q v s w = elim w [ ]
  get_of_entry ((k, u) ∷ m) q v s (here e) =
      rw (ap (λ x. x.0) e, ap (λ x. x.1) e, o.cmp_self k, get) refl
  get_of_entry ((k, u) ∷ m) q v s (there w) =
      get_of_tail k u m q v s (get_of_entry m q v (IsSorted-of_Above k m s) w)

  pub Member-values : (m : BTreeMap K V) (v : V) → Member v (values m) → (k : K) × Member (k, v) m
  Member-values [] v w = elim w [ ]
  Member-values ((k, u) ∷ m) v (here e) = (k, here (ap (λ x. (k, x)) e))
  Member-values ((k, u) ∷ m) v (there w) = let (q, x) = Member-values m v w in (q, there x)

  -- Where a function of the values gives the keys back, it lists the keys.
  pub map-values_eq_keys :
      (f : V → K) (m : BTreeMap K V)
      → ((k : K) (v : V) → Member (k, v) m → f v ≡ k)
      → map f (values m) ≡ keys m
  map-values_eq_keys f [] h = refl
  map-values_eq_keys f ((k, v) ∷ m) h =
      rw (h k v (here refl), map-values_eq_keys f m (λ q u w. h q u (there w))) refl
