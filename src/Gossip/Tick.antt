-- ===== src/Gossip/Tick.antt =====
-- crates/gossip/src/gossip.rs: what a tick of the ping task and of the anti-entropy task chooses to
-- do, before it waits for the network.
use percas.Base.{
  ℕ, zero, suc, List, [], ◌∷◌, Option, none, some, Outcome, returned, panicked, length, ◌≡◌, ◌<◌,
  ◌≢◌, ◌⊎◌, inl, inr, refl, arith, ap, ◌∙◌,
}
use percas.Node.{NodeInfo}
use percas.Member.{MemberState, MemberStatus, Membership, alive, dead}

-- `rand::Rng::random_range(0..n)`: it panics (`none`) on the empty range, and else draws from it.
pub record Rng : Type 0 where
  pub random_range : ℕ → Option ℕ
  pub empty_range : random_range 0 ≡ none
  pub in_range : (n : ℕ) → (i : ℕ) × (random_range (suc n) ≡ some i) × (i < suc n)

-- What a tick of the ping and of the anti-entropy task does next.
pub data Tick : Type 0 where
  skip : Tick
  contact : NodeInfo → Tick
  bootstrap : Tick

abbrev pub nth {ℓ} : {A : Type ℓ} → List A → ℕ → Option A
nth [] i = none
nth (x ∷ xs) zero = some x
nth (x ∷ xs) (suc i) = nth xs i

-- The choice that a tick of both tasks makes.
unfoldable pub tick : ⦃rng : Rng⦄ → Membership → Outcome Tick
tick ⦃rng⦄ m = elim (rng.random_range (length m.members)) [
  | none ↦ panicked
  | some i ↦ elim (nth m.members i) [
    | none ↦ returned bootstrap
    | some (id, member) ↦ elim member.status [
      | dead ↦ returned skip
      | alive ↦ returned (contact member.info)
    ]
  ]
]

nth_lt {ℓ} : {A : Type ℓ} (xs : List A) (i : ℕ) → i < length xs → (a : A) × (nth xs i ≡ some a)
nth_lt [] i l = elim l [ ]
nth_lt (x ∷ xs) zero l = (x, refl)
nth_lt (x ∷ xs) (suc i) l = nth_lt xs i (omega arith)

module _ ⦃rng : Rng⦄ where
  -- What a tick does with the member that was drawn.
  Fits : MemberState → Outcome Tick → Type 0
  Fits member r =
      ((member.status ≡ dead) × (r ≡ returned skip))
      ⊎ ((member.status ≡ alive) × (r ≡ returned (contact member.info)))

  -- The index that was drawn, the entry there, and what the tick does with its member.
  Acts : Membership → Type 0
  Acts m =
      (i : ℕ) × (id : ℕ) × (member : MemberState) × (rng.random_range (length m.members) ≡ some i)
      × (nth m.members i ≡ some (id, member))
      × Fits member (tick m)

  tick-empty : (m : Membership) → m.members ≡ [] → tick m ≡ panicked
  unfolding tick
  tick-empty m e = rw (ap length e, rng.empty_range, tick)

  chosen-Fits :
      (member : MemberState) (status : MemberStatus)
      → member.status ≡ status
      → Fits member
          (elim member.status [ dead ↦ returned skip | alive ↦ returned (contact member.info) ])
  unfolding Fits
  chosen-Fits member alive e = inr (e, rw e refl)
  chosen-Fits member dead e = inl (e, rw e refl)

  tick-drawn :
      (m : Membership) (i id : ℕ) (member : MemberState)
      → rng.random_range (length m.members) ≡ some i
      → nth m.members i ≡ some (id, member)
      → Fits member (tick m)
  unfolding tick
  tick-drawn m i id member e f = rw (e, f, tick) (chosen-Fits member member.status refl)

  tick-cons :
      (m : Membership) (x : ℕ × MemberState) (xs : List (ℕ × MemberState))
      → m.members ≡ x ∷ xs
      → Acts m
  unfolding Acts
  tick-cons m x xs e =
      let (i, drawn, l) = rng.in_range (length xs) in
      let ((id, member), hit) = nth_lt (x ∷ xs) i l in
      let drawn_here = ap (λ n. rng.random_range (length n)) e ∙ drawn in
      let hit_here = ap (λ n. nth n i) e ∙ hit in
      (i, id, member, drawn_here, hit_here, tick-drawn m i id member drawn_here hit_here)

  -- A tick panics on an empty membership, and on no other. On any other it draws an index below the number
  -- of members, and with the member there it does this: it skips the member if it is dead, and contacts
  -- the member's node if it is alive. So it never falls back to `fast_bootstrap`.
  pub tick_lem :
      (m : Membership)
      → ((m.members ≡ []) × (tick m ≡ panicked))
        ⊎ ((m.members ≢ [])
            × ((i : ℕ) × (id : ℕ) × (member : MemberState) × (rng.random_range (length m.members)
                  ≡ some i)
                × (nth m.members i ≡ some (id, member))
                × (((member.status ≡ dead) × (tick m ≡ returned skip))
                    ⊎ ((member.status ≡ alive) × (tick m ≡ returned (contact member.info))))))
  unfolding Acts Fits
  tick_lem m = go m.members refl
    where
      go :
          (xs : List (ℕ × MemberState))
          → m.members ≡ xs
          → ((m.members ≡ []) × (tick m ≡ panicked)) ⊎ ((m.members ≢ []) × Acts m)
      go [] e = inl (e, tick-empty m e)
      go (x ∷ xs) e = inr ((λ f. ground (arith, e, f)), tick-cons m x xs e)
