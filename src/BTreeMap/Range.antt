-- ===== src/BTreeMap/Range.antt =====
-- What the ranges of a map hold.
use percas.Base.{[], ◌∷◌, none, lt, gt, ◌≡◌, arith}
use percas.Ord.{Ord, nat_ord}
use percas.BTreeMap.{BTreeMap, get, range_from, range_to}
use percas.BTreeMap.Order.{Above, IsSorted, IsSorted-of_Above}

module _ {ℓ κ} {K : Type ℓ} {V : Type κ} ⦃o : Ord K⦄ where
  pub range_from-IsSorted : (m : BTreeMap K V) (h : K) → IsSorted m → IsSorted (range_from m h)
  unfolding range_from
  range_from-IsSorted [] h s = tt
  range_from-IsSorted ((k, v) ∷ m) h s =
      ground (arith, range_from-IsSorted m h (IsSorted-of_Above k m s))

  range_to-Above : (b : K) (m : BTreeMap K V) (h : K) → Above b m → Above b (range_to m h)
  unfolding range_to
  range_to-Above b [] h s = tt
  range_to-Above b ((k, v) ∷ m) h s = ground (arith, range_to-Above k m h s.1)

  pub range_to-IsSorted : (m : BTreeMap K V) (h : K) → IsSorted m → IsSorted (range_to m h)
  unfolding range_to
  range_to-IsSorted [] h s = tt
  range_to-IsSorted ((k, v) ∷ m) h s = ground (arith, range_to-Above k m h s)

  pub get-range_from :
      (m : BTreeMap K V) (h q : K)
      → IsSorted m
      → get (range_from m h) q ≡ elim (o.cmp q h) [ lt ↦ none | _ ↦ get m q ]
  unfolding get range_from
  get-range_from [] h q s = ground arith
  get-range_from ((k, v) ∷ m) h q s = ground (
    arith,
    get-range_from m h q (IsSorted-of_Above k m s),
    o.eq_of_cmp q h,
    o.eq_of_cmp q k,
    o.eq_of_cmp k h,
    o.lt_trans q h k,
    o.lt_trans q k h,
    o.cmp_swap q k,
    o.cmp_swap k h,
    o.cmp_swap q h,
  )

  pub get-range_to :
      (m : BTreeMap K V) (h q : K)
      → IsSorted m
      → get (range_to m h) q ≡ elim (o.cmp q h) [ gt ↦ none | _ ↦ get m q ]
  unfolding get range_to
  get-range_to [] h q s = ground arith
  get-range_to ((k, v) ∷ m) h q s = ground (
    arith,
    get-range_to m h q (IsSorted-of_Above k m s),
    o.eq_of_cmp q h,
    o.eq_of_cmp q k,
    o.eq_of_cmp k h,
    o.lt_trans h k q,
    o.lt_trans q h k,
    o.cmp_swap q k,
    o.cmp_swap k h,
    o.cmp_swap q h,
  )
