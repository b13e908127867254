-- ===== src/Gossip/Loops/Expiry.antt =====
-- A member that is removed has no point on the ring.
use percas.Base.{
  ℕ, List, [], ◌∷◌, Option, none, some, Bool, true, Outcome, returned, panicked, not-returned,
  returned-injective, subst, ◌≡◌, ◌≢◌, inl, inr, refl, sym, ap, ◌∙◌, none-ne-some, true≢false,
  if◌then◌else◌,
}
use percas.Ord.{nat_ord}
use percas.Node.{NodeInfo}
use percas.Bytes.{AsRef, Mur3}
use percas.Ring.Points.{Owns}
use percas.Member.{MemberState, Membership}
use percas.BTreeMap.{values}
use percas.Member.Map.{lookup}
use percas.Gossip.{GossipState}
use percas.Gossip.Tasks.{Jiff, remove_dead_members, rebuild_ring, remove_all, dead_members}
use percas.Gossip.Invariant.{IsSound}
use percas.Gossip.Keeps.{remove_dead-IsSound, remove_dead-same}
use percas.Gossip.Removal.{expired, remove_dead_members_lem}
use percas.Gossip.Loops.{remove_turn, rebuild_after}
use percas.Proxy.Route.{rebuild_ring_lem}

expired-some : (now : ℕ) (o : Option MemberState) → expired now o ≡ true → o ≢ none
unfolding expired
expired-some now none e f = true≢false (sym e)
expired-some now (some m) e f = none-ne-some (sym f)

cons-ne-nil : {x : NodeInfo} {xs : List NodeInfo} → x ∷ xs ≡ [] → ⊥
cons-ne-nil e = cc

module _ ⦃jiff : Jiff⦄ ⦃a : AsRef ℕ⦄ ⦃mur : Mur3⦄ where
  -- A removal that finds nothing leaves the membership.
  remove_dead-nothing :
      (clock : ℕ → ℕ) (g h : GossipState)
      → remove_dead_members clock g ≡ (h, returned [])
      → h.membership ≡ g.membership
  unfolding remove_dead_members remove_all
  remove_dead-nothing clock g h e = go (dead_members clock 0 (values g.membership.members)) refl
    where
      go :
          (r : Outcome (List NodeInfo))
          → dead_members clock 0 (values g.membership.members) ≡ r
          → h.membership ≡ g.membership
      go panicked f = absurd (not-returned (ap (λ p. p.1) (rw (f, remove_dead_members) at e)))
      go (returned []) f = ap (λ p. p.0.membership) (sym (rw (f, remove_dead_members) at e))
      go (returned (x ∷ xs)) f =
          absurd
            (cons-ne-nil (returned-injective (ap (λ p. p.1) (rw (f, remove_dead_members) at e))))

  -- After a rebuild, a member that is neither known nor the node itself has no point.
  no_point :
      (at : ℕ) (h : GossipState) (id q : ℕ)
      → IsSound h
      → lookup h.membership id ≡ none
      → id ≢ h.current_node.node_id
      → (lookup (rebuild_ring at h).membership id ≡ none)
        × ¬ Owns (rebuild_ring at h).ring.nodes q id
  no_point at h id q s lost other =
      let (points, kept) = rebuild_ring_lem at h q id s in
      (
        rw kept lost,
        λ w. elim (points.0 w).0 [
          | inl known ↦ none-ne-some (sym lost ∙ known.1)
          | inr self ↦ other self
        ],
      )

  -- With one reading of the clock for the deadlines, a turn of the removal that returns leaves no point on
  -- the ring to a member, other than the node itself, that was dead past its deadline, and no entry.
  pub remove_turn-expired :
      (now at : ℕ) (g g' : GossipState) (id q : ℕ)
      → IsSound g
      → remove_turn (λ _. now) at g ≡ (g', returned tt)
      → expired now (lookup g.membership id) ≡ true
      → id ≢ g.current_node.node_id
      → (lookup g'.membership id ≡ none) × ¬ Owns g'.ring.nodes q id
  unfolding remove_turn
  remove_turn-expired now at g g' id q s e dead other = go (remove_dead_members (λ _. now) g) refl e
    where
      gone :
          (h : GossipState) (found : List NodeInfo)
          → remove_dead_members (λ _. now) g ≡ (h, returned found)
          → lookup h.membership id ≡ none
      gone h found f =
          remove_dead_members_lem now g h found id s.keyed f
          ∙ ap (λ (b : Bool). if b then none else lookup g.membership id) dead

      go :
          (x : GossipState × Outcome (List NodeInfo))
          → remove_dead_members (λ _. now) g ≡ x
          → rebuild_after at x ≡ (g', returned tt)
          → (lookup g'.membership id ≡ none) × ¬ Owns g'.ring.nodes q id
      go (h, panicked) f k = absurd (not-returned (ap (λ p. p.1) k))
      go (h, returned []) f k = absurd (
          expired-some now (lookup g.membership id) dead (
            ap (λ (m : Membership). lookup m id) (sym (remove_dead-nothing (λ _. now) g h f))
            ∙ gone h [] f))
      go (h, returned (y ∷ ys)) f k =
          let sound : IsSound h =
            subst IsSound (ap (λ p. p.0) f) (remove_dead-IsSound (λ _. now) g s) in
          let same : h.current_node ≡ g.current_node =
            ap (λ p. p.0.current_node) (sym f) ∙ (remove_dead-same (λ _. now) g).1 in
          let lost = gone h (y ∷ ys) f in
          rw (← ap (λ p. p.0) k)
            (no_point at h id q sound lost (λ e. other (e ∙ ap (λ n. n.node_id) same)))
