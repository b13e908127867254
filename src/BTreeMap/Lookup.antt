-- ===== src/BTreeMap/Lookup.antt =====
-- `get` after the writes, and that a sorted map is determined by what `get` returns.
use percas.Base.{[], ◌∷◌, Option, none, some, eq, ◌≡◌, ◌≢◌, none-ne-some, ◌∙◌, sym, refl, arith}
use percas.Ord.{Ord, ◌≺◌}
use percas.BTreeMap.{BTreeMap, get, insert, remove}
use percas.BTreeMap.Order.{Above, IsSorted, IsSorted-of_Above}

module _ {ℓ κ} {K : Type ℓ} {V : Type κ} ⦃o : Ord K⦄ where
  -- A write in the functional view: one key changes.
  abbrev pub update : (K → Option V) → K → Option V → K → Option V
  update f q w p = elim (o.cmp p q) [ eq ↦ w | _ ↦ f p ]

  pub get-insert :
      (m : BTreeMap K V) (q : K) (w : V) (p : K)
      → get (insert m q w) p ≡ update (get m) q (some w) p
  unfolding get insert
  get-insert [] q w p = ground arith
  get-insert ((k, v) ∷ m) q w p = ground (
    arith,
    get-insert m q w p,
    o.eq_of_cmp p q,
    o.eq_of_cmp q k,
    o.eq_of_cmp p k,
    o.lt_trans p q k,
    o.lt_trans k q p,
    o.cmp_swap p q,
    o.cmp_swap q k,
    o.cmp_swap p k,
  )

  pub get-insert_self : (m : BTreeMap K V) (q : K) (w : V) → get (insert m q w) q ≡ some w
  get-insert_self m q w = ground (arith, get-insert m q w q, o.cmp_self q)

  pub get-insert_ne :
      (m : BTreeMap K V) (q : K) (w : V) (p : K) → p ≢ q → get (insert m q w) p ≡ get m p
  get-insert_ne m q w p h = ground (arith, get-insert m q w p, o.eq_of_cmp p q)

  pub get-Above : (m : BTreeMap K V) (b q : K) → Above b m → q ≺ b → get m q ≡ none
  unfolding get
  get-Above [] b q s h = refl
  get-Above ((k, v) ∷ m) b q s h = rw (o.lt_trans q b k h s.0, get)

  pub get-Above_self : (m : BTreeMap K V) (b : K) → Above b m → get m b ≡ none
  unfolding get
  get-Above_self [] b s = refl
  get-Above_self ((k, v) ∷ m) b s = rw (s.0, get)

  pub get-remove :
      (m : BTreeMap K V) (q p : K) → IsSorted m → get (remove m q) p ≡ update (get m) q none p
  unfolding get remove
  get-remove [] q p s = ground arith
  get-remove ((k, v) ∷ m) q p s = ground (
    arith,
    get-remove m q p (IsSorted-of_Above k m s),
    o.eq_of_cmp p q,
    o.eq_of_cmp q k,
    o.eq_of_cmp p k,
    o.lt_trans p q k,
    o.cmp_swap p k,
    get-Above m k p s,
    get-Above_self m k s,
  )

  pub get-remove_self : (m : BTreeMap K V) (q : K) → IsSorted m → get (remove m q) q ≡ none
  get-remove_self m q s = ground (arith, get-remove m q q s, o.cmp_self q)

  pub get-remove_ne :
      (m : BTreeMap K V) (q p : K) → IsSorted m → p ≢ q → get (remove m q) p ≡ get m p
  get-remove_ne m q p s h = ground (arith, get-remove m q p s, o.eq_of_cmp p q)

  pub get_head : (k : K) (v : V) (m : BTreeMap K V) → get ((k, v) ∷ m) k ≡ some v
  unfolding get
  get_head k v m = rw (o.cmp_self k, get)

  -- Past the first key a map reads as its tail.
  pub get-tail :
      (k : K) (v : V) (m : BTreeMap K V) (p : K)
      → Above k m
      → get m p ≡ update (get ((k, v) ∷ m)) k none p
  unfolding get
  get-tail k v m p s =
      ground (arith, o.eq_of_cmp p k, o.cmp_swap p k, get-Above m k p s, get-Above_self m k s)

  heads :
      (k j : K) (v w : V) (m n : BTreeMap K V)
      → ((q : K) → get ((k, v) ∷ m) q ≡ get ((j, w) ∷ n) q)
      → (k ≡ j) × (v ≡ w)
  unfolding get
  heads k j v w m n h =
      ground (arith, h k, h j, o.cmp_self k, o.cmp_self j, o.cmp_swap k j, o.eq_of_cmp k j)

  tails :
      (k j : K) (v w : V) (m n : BTreeMap K V)
      → Above k m
      → Above j n
      → ((q : K) → get ((k, v) ∷ m) q ≡ get ((j, w) ∷ n) q)
      → (p : K) → get m p ≡ get n p
  tails k j v w m n s t h p =
      ground (arith, get-tail k v m p s, get-tail j w n p t, heads k j v w m n h, h p)

  -- Two sorted maps that read alike are equal.
  pub ext : (m n : BTreeMap K V) → IsSorted m → IsSorted n → ((q : K) → get m q ≡ get n q) → m ≡ n
  unfolding get
  ext [] [] s t h = refl
  ext [] ((j, w) ∷ n) s t h = absurd (none-ne-some (h j ∙ get_head j w n))
  ext ((k, v) ∷ m) [] s t h = absurd (none-ne-some (sym (h k) ∙ get_head k v m))
  ext ((k, v) ∷ m) ((j, w) ∷ n) s t h =
      let rest =
        ext m n (IsSorted-of_Above k m s) (IsSorted-of_Above j n t) (tails k j v w m n s t h) in
      ground (arith, heads k j v w m n h, rest)
