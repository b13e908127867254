-- ===== src/Ring/Points.antt =====
-- The buckets of a ring as a set of points: which node owns which hash, and the invariant of the
-- buckets.
use percas.Base.{
  ℕ, ◌<◌, ◌^◌, [], ◌∷◌, Option, none, some, and_then, unwrap_or, ◌≡◌, ◌≢◌, none-ne-some, ◌↔◌, ◌⊎◌,
  inl, inr, refl, sym, ap, ◌∙◌, subst, lt, eq, gt, compare, arith, Option-cases, ℕ_discrete,
}
use percas.Ord.{Ord, nat_ord, cmp-cases}
use percas.BTreeMap.{BTreeMap, BTreeSet, get, insert}
use percas.BTreeMap.Order.{IsSorted, insert-IsSorted}
use percas.BTreeMap.Lookup.{get-insert, get-insert_self, get-insert_ne, ext}
use percas.Ring.{insert_at}

get-unit :
    (x y : Option (Unit {0})) → (x ≡ some tt → y ≡ some tt) → (y ≡ some tt → x ≡ some tt) → x ≡ y
get-unit none none f g = refl
get-unit none (some u) f g = g refl
get-unit (some u) y f g = sym (f refl)

module _ {ℓ} {T : Type ℓ} ⦃o : Ord T⦄ where
  -- `some tt` where the node `n` stands in the bucket of the hash `h`.
  pub point : BTreeMap ℕ (BTreeSet T) → ℕ → T → Option (Unit {0})
  point nodes h n = and_then (get nodes h) (λ s. get s n)

  abbrev pub Owns : BTreeMap ℕ (BTreeSet T) → ℕ → T → Type 0
  Owns nodes h n = point nodes h n ≡ some tt

  point-insert_at_ne :
      (nodes : BTreeMap ℕ (BTreeSet T)) (h : ℕ) (m : T) (q : ℕ) (n : T)
      → q ≢ h
      → point (insert_at nodes h m) q n ≡ point nodes q n
  unfolding point insert_at
  point-insert_at_ne nodes h m q n ne = rw (get-insert_ne nodes h _ q ne)

  point-insert_at_self :
      (nodes : BTreeMap ℕ (BTreeSet T)) (h : ℕ) (m n : T)
      → point (insert_at nodes h m) h n ≡ get (insert (unwrap_or (get nodes h) []) m tt) n
  unfolding point insert_at
  point-insert_at_self nodes h m n = rw (get-insert_self nodes h _)

  get-unwrap_or :
      (b : Option (BTreeSet T)) (n : T) → get (unwrap_or b []) n ≡ and_then b (λ s. get s n)
  unfolding get
  get-unwrap_or none n = refl
  get-unwrap_or (some s) n = refl

  point-insert_at_hit :
      (nodes : BTreeMap ℕ (BTreeSet T)) (h : ℕ) (m : T) → Owns (insert_at nodes h m) h m
  point-insert_at_hit nodes h m = point-insert_at_self nodes h m m ∙ get-insert_self _ m tt

  point-insert_at_miss :
      (nodes : BTreeMap ℕ (BTreeSet T)) (h : ℕ) (m n : T)
      → n ≢ m
      → point (insert_at nodes h m) h n ≡ point nodes h n
  unfolding point
  point-insert_at_miss nodes h m n ne =
      point-insert_at_self nodes h m n
      ∙ get-insert_ne (unwrap_or (get nodes h) []) m tt n ne
      ∙ get-unwrap_or (get nodes h) n

  dec_eq : (a b : T) → Dec (a ≡ b)
  dec_eq a b = elim (cmp-cases a b) [
    | inl c ↦ no (λ e. ground (arith, o.cmp_self a))
    | inr (inl c) ↦ yes (o.eq_of_cmp a b c)
    | inr (inr c) ↦ no (λ e. ground (arith, o.cmp_self a))
  ]

  -- A write adds one point.
  pub Owns-insert_at :
      (nodes : BTreeMap ℕ (BTreeSet T)) (h : ℕ) (m : T) (q : ℕ) (n : T)
      → Owns (insert_at nodes h m) q n ↔ (Owns nodes q n ⊎ ((h ≡ q) × (n ≡ m)))
  Owns-insert_at nodes h m q n = elim (ℕ_discrete h q) [
    | no away ↦
        let same = point-insert_at_ne nodes h m q n (λ e. away (sym e)) in
        ((λ w. inl (sym same ∙ w)), λ w. elim w [ inl w ↦ same ∙ w | inr w ↦ absurd (away w.0) ])
    | yes at_h ↦
        subst (λ q. Owns (insert_at nodes h m) q n ↔ (Owns nodes q n ⊎ ((h ≡ q) × (n ≡ m)))) at_h
          (elim (dec_eq n m) [
            | yes own ↦ ((λ _. inr (refl, own)), λ _. rw own (point-insert_at_hit nodes h m))
            | no other ↦
                let same = point-insert_at_miss nodes h m n other in
                (
                  (λ w. inl (sym same ∙ w)),
                  λ w. elim w [ inl w ↦ same ∙ w | inr w ↦ absurd (other w.1) ],
                )
          ])
  ]

  -- The buckets of a ring: sorted by hash, each hash a u32, each bucket a set that is not empty.
  pub record IsBucket (h : ℕ) (s : BTreeSet T) : Type ℓ where
    pub sorted : IsSorted s
    pub nonempty : s ≢ []
    pub in_range : h < 2 ^ 32

  pub record IsValid (nodes : BTreeMap ℕ (BTreeSet T)) : Type ℓ where
    pub sorted : IsSorted nodes
    pub buckets : (h : ℕ) (s : BTreeSet T) → get nodes h ≡ some s → IsBucket h s

  pub empty-IsValid : IsValid []
  unfolding get
  empty-IsValid = record { sorted = tt; buckets = λ h s e. absurd (none-ne-some e) }

  pub not-Owns-empty : (q : ℕ) (n : T) → ¬ Owns [] q n
  unfolding point get
  not-Owns-empty q n w = none-ne-some w

  insert-ne-nil : (s : BTreeSet T) (m : T) → insert s m tt ≢ []
  unfolding insert
  insert-ne-nil [] m e = cc
  insert-ne-nil ((k, u) ∷ s) m e = ground arith

  unwrap_or-IsSorted :
      (nodes : BTreeMap ℕ (BTreeSet T)) (h : ℕ)
      → IsValid nodes
      → IsSorted (unwrap_or (get nodes h) [])
  unwrap_or-IsSorted nodes h v = elim (Option-cases (get nodes h)) [
    | inl e ↦ rw e tt
    | inr (s, e) ↦ rw e (v.buckets h s e).sorted
  ]

  pub insert_at-IsValid :
      (nodes : BTreeMap ℕ (BTreeSet T)) (h : ℕ) (m : T)
      → h < 2 ^ 32
      → IsValid nodes
      → IsValid (insert_at nodes h m)
  unfolding insert_at
  insert_at-IsValid nodes h m lt32 v = record {
    sorted = insert-IsSorted nodes h _ v.sorted;
    buckets = λ q s e. split q s (cmp-cases q h) e;
  }
    where
      old : BTreeSet T
      old = unwrap_or (get nodes h) []

      written : BTreeSet T
      written = insert old m tt

      split :
          (q : ℕ) (s : BTreeSet T)
          → (compare q h ≡ lt) ⊎ ((compare q h ≡ eq) ⊎ (compare q h ≡ gt))
          → get (insert nodes h written) q ≡ some s
          → IsBucket q s
      split q s (inl c) e = v.buckets q s (ground (arith, get-insert nodes h written q))
      split q s (inr (inr c)) e = v.buckets q s (ground (arith, get-insert nodes h written q))
      split q s (inr (inl c)) e =
          let same : written ≡ s = ground (arith, get-insert nodes h written q) in
          record {
            sorted = rw (← same) (insert-IsSorted old m tt (unwrap_or-IsSorted nodes h v));
            nonempty = rw (← same) (insert-ne-nil old m);
            in_range = ground arith;
          }

  head-held : (s : BTreeSet T) → s ≢ [] → (k : T) × (get s k ≡ some tt)
  unfolding get
  head-held [] ne = absurd (ne refl)
  head-held ((k, u) ∷ s) ne = (k, rw (o.cmp_self k, get))

  absent : (nodes : BTreeMap ℕ (BTreeSet T)) (q : ℕ) (x : T) → get nodes q ≡ none → ¬ Owns nodes q x
  unfolding point
  absent nodes q x e w = none-ne-some (rw e at w)

  pub Owns_of_get :
      (nodes : BTreeMap ℕ (BTreeSet T)) (q : ℕ) (s : BTreeSet T) (x : T)
      → get nodes q ≡ some s
      → point nodes q x ≡ get s x
  unfolding point
  Owns_of_get nodes q s x e = rw e

  -- The bucket in which a point stands.
  pub point_bucket :
      (nodes : BTreeMap ℕ (BTreeSet T)) (q : ℕ) (x : T)
      → Owns nodes q x
      → (s : BTreeSet T) × (get nodes q ≡ some s) × (get s x ≡ some tt)
  unfolding point
  point_bucket nodes q x w = elim (Option-cases (get nodes q)) [
    | inl e ↦ absurd (absent nodes q x e w)
    | inr (s, e) ↦ (s, e, rw e at w)
  ]

  -- Valid buckets are determined by their points.
  pub points_ext :
      (m n : BTreeMap ℕ (BTreeSet T))
      → IsValid m
      → IsValid n
      → ((q : ℕ) (x : T) → Owns m q x ↔ Owns n q x)
      → m ≡ n
  points_ext m n v w same = ext m n v.sorted w.sorted bucket
    where
      lonely :
          (m n : BTreeMap ℕ (BTreeSet T)) (q : ℕ) (s : BTreeSet T)
          → IsValid m
          → ((x : T) → Owns m q x → Owns n q x)
          → get m q ≡ some s
          → get n q ≡ none
          → ⊥
      lonely m n q s v sub e f =
          let (k, held) = head-held s (v.buckets q s e).nonempty in
          absent n q k f (sub k (Owns_of_get m q s k e ∙ held))

      bucket : (q : ℕ) → get m q ≡ get n q
      bucket q = elim (Option-cases (get m q)) [
        | inl e ↦ elim (Option-cases (get n q)) [
          | inl f ↦ e ∙ sym f
          | inr (t, f) ↦ absurd (lonely n m q t w (λ x. (same q x).1) f e)
        ]
        | inr (s, e) ↦ elim (Option-cases (get n q)) [
          | inl f ↦ absurd (lonely m n q s v (λ x. (same q x).0) e f)
          | inr (t, f) ↦
              e
              ∙ ap some (
                  ext s t (v.buckets q s e).sorted (w.buckets q t f).sorted (λ x.
                    get-unit (get s x) (get t x)
                      (λ h. sym (Owns_of_get n q t x f) ∙ (same q x).0 (Owns_of_get m q s x e ∙ h))
                      (λ h.
                        sym (Owns_of_get m q s x e) ∙ (same q x).1 (Owns_of_get n q t x f ∙ h))))
              ∙ sym f
        ]
      ]
