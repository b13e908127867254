-- ===== src/Client/Route.antt =====
-- client/src/route.rs: the route table of a client.
pub mod Agree
pub mod Lookup
use percas.Base.{ℕ, List, [], Option, none, some, next, or_else, and_then}
use percas.Ord.{nat_ord}
use percas.Text.{Url}
use percas.Bytes.{Mur3}
use percas.BTreeMap.{BTreeMap, get, range_from, insert as set_entry}

pub record RouteTable : Type 0 where
  pub ring : BTreeMap ℕ (BTreeMap ℕ Url)

unfoldable pub default : RouteTable
default = record { ring = [] }

unfoldable pub insert : RouteTable → ℕ → ℕ → Url → RouteTable
insert t hash node_id url = elim (get t.ring hash) [
  | none ↦ record { ring = set_entry t.ring hash (set_entry [] node_id url) }
  | some nodes ↦ record { ring = set_entry t.ring hash (set_entry nodes node_id url) }
]

-- A key is given by its bytes.
unfoldable pub lookup : ⦃m : Mur3⦄ → RouteTable → List ℕ → Option (ℕ × Url)
lookup ⦃m⦄ t key =
    let hash = m.murmurhash3_x86_32 key 0 in
    or_else (and_then (next (range_from t.ring hash)) (λ e. next e.1))
      (and_then (next t.ring) (λ e. next e.1))
