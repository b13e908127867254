-- ===== src/Exec.antt =====
-- Calls on a state that return or panic, with the operators of `do`. What was stored before a panic stays
-- stored.
use percas.Base.{
  Outcome, Result, ok, err, returned, panicked, not-returned, returned-injective, ok-injective,
  ok-ne-err, ◌≡◌, ap, sym, refl,
}

abbrev pub Call {ℓ} : Type ℓ → Type 0 → Type ℓ
Call S A = S → S × Outcome A

module _ {ℓ} {S : Type ℓ} where
  abbrev pub continue : {A B : Type 0} → (A → Call S B) → S × Outcome A → S × Outcome B
  continue f (w, returned a) = f a w
  continue f (w, panicked) = (w, panicked)

  infixl 5 ◌>>=◌ ◌>>◌
  abbrev pub ◌>>=◌ : {A B : Type 0} → Call S A → (A → Call S B) → Call S B
  ◌>>=◌ m f w = continue f (m w)

  abbrev pub ◌>>◌ : {A B : Type 0} → Call S A → Call S B → Call S B
  m >> k = m >>= λ _. k

  abbrev pub pure : {A : Type 0} → A → Call S A
  pure a w = (w, returned a)

  -- The operator `?`: what follows a call that returned an `Ok`.
  abbrev pub unless_err :
      {A B : Type 0} {E : Type 0} → (A → Call S (Result B E)) → Result A E → Call S (Result B E)
  unless_err f (ok a) w = f a w
  unless_err f (err e) w = (w, returned (err e))

  -- `or_raise` with a new error.
  abbrev pub or_raise : {A : Type 0} {E F : Type 0} → F → Call S (Result A E) → Call S (Result A F)
  or_raise error m = m >>= λ r. pure (elim r [ ok a ↦ ok a | err e ↦ err error ])

  -- A call that returns from a state with the property leaves one with it.
  abbrev pub Keeps {κ} : (S → Type κ) → {A : Type 0} → Call S A → Type (ℓ ⊔ κ)
  Keeps P {A} m = (w w' : S) (a : A) → P w → m w ≡ (w', returned a) → P w'

  -- A call leaves a state with the property, whether it returns or panics.
  abbrev pub Always {κ} : (S → Type κ) → {A : Type 0} → Call S A → Type (ℓ ⊔ κ)
  Always P m = (w : S) → P w → P (m w).0

-- Where a chain that returned has been after its first call.
pub returned-of_bind {ℓ} :
    {S : Type ℓ} {A B : Type 0} (m : Call S A) (f : A → Call S B) (w w' : S) (b : B)
    → (m >>= f) w ≡ (w', returned b)
    → (u : S) × (a : A) × (m w ≡ (u, returned a)) × (f a u ≡ (w', returned b))
returned-of_bind {S = S} {A} {B} m f w w' b e = go (m w) refl e
  where
    go :
        (r : S × Outcome A)
        → m w ≡ r
        → continue f r ≡ (w', returned b)
        → (u : S) × (a : A) × (m w ≡ (u, returned a)) × (f a u ≡ (w', returned b))
    go (u, returned a) em er = (u, a, em, er)
    go (u, panicked) em er = absurd (not-returned (ap (λ p. p.1) er))

-- Where a chain of `?` that returned an `Ok` has been after its first call.
pub ok-of_bind {ℓ} :
    {S : Type ℓ} {A B : Type 0} {E : Type 0} (m : Call S (Result A E)) (f : A → Call S (Result B E))
    (w w' : S) (b : B)
    → (m >>= unless_err f) w ≡ (w', returned (ok b))
    → (u : S) × (a : A) × (m w ≡ (u, returned (ok a))) × (f a u ≡ (w', returned (ok b)))
ok-of_bind {S = S} {A} {B} {E} m f w w' b e =
    let (u, r, em, er) = returned-of_bind m (unless_err f) w w' (ok b) e in go u r em er
  where
    go :
        (u : S) (r : Result A E)
        → m w ≡ (u, returned r)
        → unless_err f r u ≡ (w', returned (ok b))
        → (u : S) × (a : A) × (m w ≡ (u, returned (ok a))) × (f a u ≡ (w', returned (ok b)))
    go u (ok a) em er = (u, a, em, er)
    go u (err x) em er = absurd (ok-ne-err (sym (returned-injective (ap (λ p. p.1) er))))

pub ok-of_or_raise {ℓ} :
    {S : Type ℓ} {A : Type 0} {E F : Type 0} (error : F) (m : Call S (Result A E)) (w w' : S)
    (a : A)
    → or_raise error m w ≡ (w', returned (ok a))
    → m w ≡ (w', returned (ok a))
ok-of_or_raise {S = S} {A} {E} {F} error m w w' a e =
    let (u, r, em, er) =
      returned-of_bind m (λ r. pure (elim r [ ok a ↦ ok a | err e ↦ err error ])) w w' (ok a) e in
    go u r em er
  where
    go :
        (u : S) (r : Result A E)
        → m w ≡ (u, returned r)
        → ◌≡◌ {A = S × Outcome (Result A F)}
            (u, returned (elim r [ ok a ↦ ok a | err e ↦ err error ]))
            (w', returned (ok a))
        → m w ≡ (w', returned (ok a))
    go u (ok x) em er =
        rw (← ap (λ p. p.0) er, ← ok-injective (returned-injective (ap (λ p. p.1) er))) em
    go u (err x) em er = absurd (ok-ne-err (sym (returned-injective (ap (λ p. p.1) er))))

module _ {ℓ κ} {S : Type ℓ} (P : S → Type κ) where
  pub bind-Always :
      {A B : Type 0} (m : Call S A) (f : A → Call S B)
      → Always P m
      → ((a : A) → Always P (f a))
      → Always P (m >>= f)
  bind-Always {A} m f km kf w v = go (m w) (km w v)
    where
      go : (r : S × Outcome A) → P r.0 → P (continue f r).0
      go (u, returned a) k = kf a u k
      go (u, panicked) k = k

  pub pure-Keeps : {A : Type 0} (a : A) → Keeps P {A = A} (pure a)
  pure-Keeps a w w' b v e = rw (ap (λ p. p.0) (sym e)) v

  pub bind-Keeps :
      {A B : Type 0} (m : Call S A) (f : A → Call S B)
      → Keeps P m
      → ((a : A) → Keeps P (f a))
      → Keeps P (m >>= f)
  bind-Keeps {A} {B} m f km kf w w' b v e = go (m w) refl e
    where
      go : (r : S × Outcome A) → m w ≡ r → continue f r ≡ (w', returned b) → P w'
      go (u, returned a) em er = kf a u w' b (km w u a v em) er
      go (u, panicked) em er = absurd (not-returned (ap (λ p. p.1) er))

  continue_assoc :
      {A B C : Type 0} (f : A → Call S B) (g : B → Call S C) (r : S × Outcome A)
      → continue (λ a. f a >>= g) r ≡ continue g (continue f r)
  continue_assoc f g (w, returned a) = refl
  continue_assoc f g (w, panicked) = refl

  -- A chain that is grouped to the left.
  pub regrouped-Always :
      {A B C : Type 0} (m : Call S A) (f : A → Call S B) (g : B → Call S C)
      → Always P (m >>= λ a. (f a >>= g))
      → Always P ((m >>= f) >>= g)
  regrouped-Always m f g k w v = rw (← ap (λ r. r.0) (continue_assoc f g (m w))) (k w v)
