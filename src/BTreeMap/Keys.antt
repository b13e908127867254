-- ===== src/BTreeMap/Keys.antt =====
-- The keys that `keys()` lists are those that `get` finds.
use percas.Base.{[], ◌∷◌, some, ◌≡◌, ◌↔◌, arith, Member, here, there, none-ne-some, inl, inr}
use percas.Ord.{Ord, cmp-cases}
use percas.BTreeMap.{BTreeMap, get, keys}
use percas.BTreeMap.Order.{Above, IsSorted, IsSorted-of_Above}
use percas.BTreeMap.Lookup.{get-tail}

module _ {ℓ κ} {K : Type ℓ} {V : Type κ} ⦃o : Ord K⦄ where
  pub get_of_tail :
      (k : K) (v : V) (m : BTreeMap K V) (n : K) (w : V)
      → Above k m
      → get m n ≡ some w
      → get ((k, v) ∷ m) n ≡ some w
  get_of_tail k v m n w s e = ground (arith, e, get-tail k v m n s)

  get_of_Member :
      (m : BTreeMap K V) (n : K) → IsSorted m → Member n (keys m) → (v : V) × (get m n ≡ some v)
  unfolding get
  get_of_Member [] n s w = elim w [ ]
  get_of_Member ((k, v) ∷ m) n s (here e) = (v, rw (e, o.cmp_self k, get))
  get_of_Member ((k, v) ∷ m) n s (there w) =
      let (u, e) = get_of_Member m n (IsSorted-of_Above k m s) w in (u, get_of_tail k v m n u s e)

  Member-of_get : (m : BTreeMap K V) (n : K) (w : V) → get m n ≡ some w → Member n (keys m)
  unfolding get
  Member-of_get [] n w e = absurd (none-ne-some e)
  Member-of_get ((k, v) ∷ m) n w e = elim (cmp-cases n k) [
    | inl c ↦ absurd (none-ne-some (rw (c, get) at e))
    | inr (inl c) ↦ here (o.eq_of_cmp n k c)
    | inr (inr c) ↦ there (Member-of_get m n w (rw (c, get) at e))
  ]

  pub Member-keys :
      (m : BTreeMap K V) (n : K) → IsSorted m → Member n (keys m) ↔ ((v : V) × (get m n ≡ some v))
  Member-keys m n s = (get_of_Member m n s, λ w. Member-of_get m n w.0 w.1)
