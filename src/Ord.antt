-- ===== src/Ord.antt =====
-- The bound `Ord` of the sources' generic code and of `std::collections`: a comparison with the
-- laws that the trait's documentation asks for (its `==` is read as `≡`).
use percas.Base.{ℕ, ◌≡◌, refl, compare, Ordering, lt, eq, gt, arith, ◌⊎◌, inl, inr}

-- `Ordering::reverse`.
abbrev pub reverse : Ordering → Ordering
reverse lt = gt
reverse eq = eq
reverse gt = lt

pub record Ord {ℓ} (K : Type ℓ) : Type ℓ where
  pub cmp : K → K → Ordering
  pub cmp_self : (a : K) → cmp a a ≡ eq
  pub eq_of_cmp : (a b : K) → cmp a b ≡ eq → a ≡ b
  pub cmp_swap : (a b : K) → cmp b a ≡ reverse (cmp a b)
  pub lt_trans : (a b c : K) → cmp a b ≡ lt → cmp b c ≡ lt → cmp a c ≡ lt

pub compare-swap : (a b : ℕ) → compare b a ≡ reverse (compare a b)
compare-swap a b = ground arith

pub compare_self : (a : ℕ) → compare a a ≡ eq
compare_self a = ground arith

pub eq_of_compare : (a b : ℕ) → compare a b ≡ eq → a ≡ b
eq_of_compare a b h = ground arith

pub compare_trans : (a b c : ℕ) → compare a b ≡ lt → compare b c ≡ lt → compare a c ≡ lt
compare_trans a b c h k = ground arith

-- u32 hashes and the 128-bit values of identifiers, which compare as numbers.
instance abbrev pub nat_ord : Ord ℕ
nat_ord = record {
  cmp = compare;
  cmp_self = compare_self;
  eq_of_cmp = eq_of_compare;
  cmp_swap = compare-swap;
  lt_trans = compare_trans;
}

module _ {ℓ} {K : Type ℓ} ⦃o : Ord K⦄ where
  infix 50 ◌≺◌
  abbrev pub ◌≺◌ : K → K → Type 0
  a ≺ b = o.cmp a b ≡ lt

  pub cmp-cases : (a b : K) → (o.cmp a b ≡ lt) ⊎ ((o.cmp a b ≡ eq) ⊎ (o.cmp a b ≡ gt))
  cmp-cases a b = elim (o.cmp a b) as (λ c. (c ≡ lt) ⊎ ((c ≡ eq) ⊎ (c ≡ gt))) [
    | lt ↦ inl refl
    | eq ↦ inr (inl refl)
    | gt ↦ inr (inr refl)
  ]

  pub lt_of_gt : (a b : K) → o.cmp a b ≡ gt → b ≺ a
  lt_of_gt a b h = ground (arith, o.cmp_swap a b)
