-- ===== src/Tests/Ring.antt =====
-- The hash ring on small inputs.
use percas.Base.{
  ℕ, List, [], ◌∷◌, Option, none, some, ◌≡◌, ◌↔◌, ◌⊎◌, inl, inr, refl, Bool, true, false, ◌==◌, not,
  Member, here, there, arith,
}
use percas.Ord.{nat_ord}
use percas.BTreeMap.{get, insert, range_from, range_to}
use percas.Ring.{
  HashRing, new, range, hash_key, hash_node, insert_at, lookup, lookup_until, add_vnodes, add_node,
  from, default_vnode_count,
}
use percas.Ring.Points.{Owns, IsValid, empty-IsValid}
use percas.Ring.Nodes.{Placed, add_node-IsValid, Owns-from, from-eq_of_same_nodes}
use percas.Ring.Nearest.{IsNearest}
use percas.Ring.Lookup.{lookup_until-IsNearest}
use percas.Ring.Stability.{lookup_until-add_node, lookup_until-from}
use percas.Tests.Params.{toy_mur3, nat_as_ref}

abbrev ring : HashRing ℕ
ring = add_node (add_node (new 2) 3) 7

ring-IsValid : IsValid ring.nodes
unfolding new
ring-IsValid = add_node-IsValid (add_node (new 2) 3) 7 (add_node-IsValid (new 2) 3 empty-IsValid)

abbrev not_three : ℕ → Bool
not_three n = not (n == 3)

abbrev key : List ℕ
key = 2 ∷ []

-- A key whose digest lies past every point of the ring.
abbrev last_key : List ℕ
last_key = 9 ∷ 0 ∷ 0 ∷ 0 ∷ 0 ∷ []

abbrev any : ℕ → Bool
any n = true

lookups :
    (lookup ring key ≡ some 3)
    × (lookup_until ring key not_three ≡ some 7)
    × (lookup ring last_key ≡ some 3)
    × (lookup_until ring last_key not_three ≡ some 7)
unfolding lookup lookup_until new add_node add_vnodes range hash_node hash_key insert_at insert get
    range_from range_to percas.Bytes.to_le_bytes percas.Base.find_map percas.Base.find
lookups = (refl, refl, refl, refl)

lookup_until-IsNearest_example :
    (lookup_until ring last_key not_three ≡ some 7)
    ↔ ((p : ℕ) × IsNearest ring.nodes (hash_key last_key) not_three p 7)
lookup_until-IsNearest_example = lookup_until-IsNearest ring last_key not_three 7 ring-IsValid

lookup_until-add_node_example :
    (lookup_until (add_node ring 1) last_key not_three ≡ lookup_until ring last_key not_three)
    ⊎ (lookup_until (add_node ring 1) last_key not_three ≡ some 1)
lookup_until-add_node_example = lookup_until-add_node ring 1 last_key not_three ring-IsValid

lookup_until-from_example :
    (x : ℕ) × (lookup_until (from (3 ∷ 7 ∷ [])) key not_three ≡ some x)
    × Member x (3 ∷ 7 ∷ [])
    × (not_three x ≡ true)
lookup_until-from_example = lookup_until-from (3 ∷ 7 ∷ []) key not_three 7 (there (here refl)) refl

abbrev three_seven : List ℕ
three_seven = 3 ∷ 7 ∷ []

abbrev seven_three_three : List ℕ
seven_three_three = 7 ∷ 3 ∷ 3 ∷ []

Owns-from_example :
    Owns (from three_seven).nodes 2770563 3
    ↔ (Member 3 three_seven × Placed {T = ℕ} default_vnode_count 3 2770563)
Owns-from_example = Owns-from three_seven 2770563 3

to_swapped : (n : ℕ) → Member n (3 ∷ 7 ∷ []) → Member n (7 ∷ 3 ∷ 3 ∷ [])
to_swapped n (here e) = there (here e)
to_swapped n (there (here e)) = here e
to_swapped n (there (there w)) = elim w [ ]

from_swapped : (n : ℕ) → Member n (7 ∷ 3 ∷ 3 ∷ []) → Member n (3 ∷ 7 ∷ [])
from_swapped n (here e) = there (here e)
from_swapped n (there (here e)) = here e
from_swapped n (there (there (here e))) = here e
from_swapped n (there (there (there w))) = elim w [ ]

from-eq_of_same_nodes_example : from three_seven ≡ from seven_three_three
from-eq_of_same_nodes_example =
    from-eq_of_same_nodes three_seven seven_three_three (λ n. (to_swapped n, from_swapped n))
