-- ===== src/BTreeMap/Search.antt =====
-- The first hit of a search through a map in the order of its keys: `find_map` over the entries,
-- `find` over the keys of a set.
use percas.Base.{
  [], ◌∷◌, Option, none, some, ◌≡◌, refl, arith, Bool, true, false, ◌∙◌, sym, find, find_map,
  Option-cases, inl, inr, if◌then◌else◌,
}
use percas.Ord.{Ord, ◌≺◌}
use percas.BTreeMap.{BTreeMap, BTreeSet, get, keys}
use percas.BTreeMap.Order.{Above, IsSorted, IsSorted-of_Above}
use percas.BTreeMap.Lookup.{get-Above, get-Above_self}

module _ {ℓ κ μ} {K : Type ℓ} {V : Type κ} {B : Type μ} ⦃o : Ord K⦄ where
  -- `k` holds `v`, which gives `b`, and no smaller key gives anything.
  pub record FirstHit (m : BTreeMap K V) (f : K × V → Option B) (b : B) (k : K) (v : V)
      : Type (ℓ ⊔ κ ⊔ μ) where
    pub held : get m k ≡ some v
    pub hit : f (k, v) ≡ some b
    pub first : (q : K) (t : V) → get m q ≡ some t → q ≺ k → f (q, t) ≡ none

  skip-FirstHit :
      (m : BTreeMap K V) (f : K × V → Option B) (b : B) (j k : K) (u v : V)
      → Above j m
      → f (j, u) ≡ none
      → FirstHit m f b k v
      → FirstHit ((j, u) ∷ m) f b k v
  unfolding get
  skip-FirstHit m f b j k u v s miss h = record {
    held = ground (arith, h.held, get-Above m j k s, get-Above_self m j s, o.eq_of_cmp k j);
    hit = h.hit;
    first = λ q t e l. ground (arith, h.first q t, o.eq_of_cmp q j);
  }

  pub find_map-FirstHit :
      (m : BTreeMap K V) (f : K × V → Option B) (b : B)
      → IsSorted m
      → find_map f m ≡ some b
      → (k : K) × (v : V) × FirstHit m f b k v
  unfolding find_map get
  find_map-FirstHit [] f b s e = cc
  find_map-FirstHit ((j, u) ∷ m) f b s e = elim (Option-cases (f (j, u))) [
    | inr (c, hit) ↦ (
      j,
      u,
      record {
        held = ground (arith, o.cmp_self j);
        hit = ground arith;
        first = λ q t r l. ground arith;
      },
    )
    | inl miss ↦
        let (k, v, h) = find_map-FirstHit m f b (IsSorted-of_Above j m s) (rw miss at e) in
        (k, v, skip-FirstHit m f b j k u v s miss h)
  ]

  pub find_map-none :
      (m : BTreeMap K V) (f : K × V → Option B) (q : K) (t : V)
      → find_map f m ≡ none
      → get m q ≡ some t
      → f (q, t) ≡ none
  unfolding find_map get
  find_map-none [] f q t e h = cc
  find_map-none ((j, u) ∷ m) f q t e h = ground (arith, find_map-none m f q t, o.eq_of_cmp q j)

module _ {ℓ} {K : Type ℓ} ⦃o : Ord K⦄ where
  abbrev pick : (K → Bool) → K × Unit {0} → Option K
  pick p e = if p e.0 then some e.0 else none

  find-keys : (p : K → Bool) (s : BTreeSet K) → find p (keys s) ≡ find_map (pick p) s
  unfolding find find_map
  find-keys p [] = refl
  find-keys p ((k, u) ∷ s) = ground (arith, find-keys p s)

  -- `n` is in the set and passes `p`, and no smaller key does.
  pub record FirstKey (s : BTreeSet K) (p : K → Bool) (n : K) : Type ℓ where
    pub held : get s n ≡ some tt
    pub passes : p n ≡ true
    pub least : (q : K) → get s q ≡ some tt → q ≺ n → p q ≡ false

  FirstHit-FirstKey :
      (s : BTreeSet K) (p : K → Bool) (n k : K) (u : Unit {0})
      → FirstHit s (pick p) n k u
      → FirstKey s p n
  FirstHit-FirstKey s p n k tt h =
      let same : k ≡ n = ground (arith, h.hit) in
      record {
        held = rw same at h.held;
        passes = ground (arith, h.hit);
        least = λ q e l. ground (arith, h.first q tt e, same);
      }

  pub find-FirstKey :
      (s : BTreeSet K) (p : K → Bool) (n : K)
      → IsSorted s
      → find p (keys s) ≡ some n
      → FirstKey s p n
  find-FirstKey s p n sorted e =
      let (k, u, h) = find_map-FirstHit s (pick p) n sorted (sym (find-keys p s) ∙ e) in
      FirstHit-FirstKey s p n k u h

  pub find-none :
      (s : BTreeSet K) (p : K → Bool) (q : K)
      → find p (keys s) ≡ none
      → get s q ≡ some tt
      → p q ≡ false
  find-none s p q e h = ground (arith, find_map-none s (pick p) q tt (sym (find-keys p s) ∙ e) h)
