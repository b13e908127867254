-- ===== src/BTreeMap/Order.antt =====
-- The entries stand in the strict order of their keys: the invariant of a `BTreeMap`, which its
-- operations keep.
use percas.Base.{[], ◌∷◌, arith}
use percas.Ord.{Ord, ◌≺◌, lt_of_gt}
use percas.BTreeMap.{BTreeMap, insert, remove}

module _ {ℓ κ} {K : Type ℓ} {V : Type κ} ⦃o : Ord K⦄ where
  -- Every key lies above `b`, and the keys rise.
  abbrev pub Above : K → BTreeMap K V → Type 0
  Above b [] = Unit {0}
  Above b ((k, v) ∷ m) = (b ≺ k) × Above k m

  abbrev pub IsSorted : BTreeMap K V → Type 0
  IsSorted [] = Unit {0}
  IsSorted ((k, v) ∷ m) = Above k m

  Above-mono : (a b : K) (m : BTreeMap K V) → a ≺ b → Above b m → Above a m
  Above-mono a b [] h s = tt
  Above-mono a b ((k, v) ∷ m) h s = (o.lt_trans a b k h s.0, s.1)

  pub IsSorted-of_Above : (b : K) (m : BTreeMap K V) → Above b m → IsSorted m
  IsSorted-of_Above b [] s = tt
  IsSorted-of_Above b ((k, v) ∷ m) s = s.1

  insert-Above :
      (b : K) (m : BTreeMap K V) (q : K) (w : V) → b ≺ q → Above b m → Above b (insert m q w)
  unfolding insert
  insert-Above b [] q w h s = (h, tt)
  insert-Above b ((k, v) ∷ m) q w h s = ground (arith, lt_of_gt q k, insert-Above k m q w)

  pub insert-IsSorted : (m : BTreeMap K V) (q : K) (w : V) → IsSorted m → IsSorted (insert m q w)
  unfolding insert
  insert-IsSorted [] q w s = tt
  insert-IsSorted ((k, v) ∷ m) q w s = ground (arith, lt_of_gt q k, insert-Above k m q w)

  remove-Above : (b : K) (m : BTreeMap K V) (q : K) → Above b m → Above b (remove m q)
  unfolding remove
  remove-Above b [] q s = tt
  remove-Above b ((k, v) ∷ m) q s = ground (arith, remove-Above k m q, Above-mono b k m)

  pub remove-IsSorted : (m : BTreeMap K V) (q : K) → IsSorted m → IsSorted (remove m q)
  unfolding remove
  remove-IsSorted [] q s = tt
  remove-IsSorted ((k, v) ∷ m) q s = ground (arith, remove-Above k m q, IsSorted-of_Above k m)
