-- ===== src/BTreeMap.antt =====
-- `std::collections::BTreeMap` and `BTreeSet`, as far as crates/gossip/src/ring.rs,
-- crates/gossip/src/member.rs and client/src/route.rs use them: the entries in the order of their
-- keys, which is what the iterators of the library show. The operations walk the entries.
pub mod Lookup
pub mod Order
pub mod Range
pub mod Search
pub mod Keys
pub mod Values
use percas.Base.{List, [], ◌∷◌, Option, none, some, lt, eq, gt, map}
use percas.Ord.{Ord}

abbrev pub BTreeMap {ℓ κ} : Type ℓ → Type κ → Type (ℓ ⊔ κ)
BTreeMap K V = List (K × V)

-- The library's `BTreeSet<T>` is a map to the unit type too.
abbrev pub BTreeSet {ℓ} : Type ℓ → Type ℓ
BTreeSet T = BTreeMap T (Unit {0})

module _ {ℓ κ} {K : Type ℓ} {V : Type κ} where
  abbrev pub keys : BTreeMap K V → List K
  keys m = map (λ e. e.0) m

  abbrev pub values : BTreeMap K V → List V
  values m = map (λ e. e.1) m

module _ {ℓ κ} {K : Type ℓ} {V : Type κ} ⦃o : Ord K⦄ where
  unfoldable pub get : BTreeMap K V → K → Option V
  get [] q = none
  get ((k, v) ∷ m) q = elim (o.cmp q k) [ lt ↦ none | eq ↦ some v | gt ↦ get m q ]

  unfoldable pub insert : BTreeMap K V → K → V → BTreeMap K V
  insert [] q w = (q, w) ∷ []
  insert ((k, v) ∷ m) q w = elim (o.cmp q k) [
    | lt ↦ (q, w) ∷ (k, v) ∷ m
    | eq ↦ (k, w) ∷ m
    | gt ↦ (k, v) ∷ insert m q w
  ]

  unfoldable pub remove : BTreeMap K V → K → BTreeMap K V
  remove [] q = []
  remove ((k, v) ∷ m) q = elim (o.cmp q k) [ lt ↦ (k, v) ∷ m | eq ↦ m | gt ↦ (k, v) ∷ remove m q ]

  -- `range(q..)`.
  unfoldable pub range_from : BTreeMap K V → K → BTreeMap K V
  range_from [] q = []
  range_from ((k, v) ∷ m) q = elim (o.cmp k q) [
    | lt ↦ range_from m q
    | eq ↦ (k, v) ∷ m
    | gt ↦ (k, v) ∷ m
  ]

  -- `range(..=q)`.
  unfoldable pub range_to : BTreeMap K V → K → BTreeMap K V
  range_to [] q = []
  range_to ((k, v) ∷ m) q = elim (o.cmp k q) [
    | lt ↦ (k, v) ∷ range_to m q
    | eq ↦ (k, v) ∷ range_to m q
    | gt ↦ []
  ]
