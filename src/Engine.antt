-- ===== src/Engine.antt =====
-- crates/core/src/engine.rs: the calls of the storage engine. The cache of the crate `foyer` is a
-- parameter.
pub mod Open
use percas.Base.{ℕ, List, Option, none, some, Result, ok, err}

-- `foyer::HybridCache`: its state, and the calls of the engine on it. Which entries are still
-- there is up to the cache.
pub record Foyer : Type 1 where
  pub Cache : Type 0
  pub get : Cache → List ℕ → Cache × Result (Option (List ℕ)) (Unit {0})
  pub insert : Cache → List ℕ → List ℕ → Cache
  pub remove : Cache → List ℕ → Cache

module _ ⦃f : Foyer⦄ where
  abbrev found : Result (Option (List ℕ)) (Unit {0}) → Option (List ℕ)
  found (ok (some value)) = some value
  found (ok none) = none
  found (err e) = none

  unfoldable pub get : f.Cache → List ℕ → f.Cache × Option (List ℕ)
  get inner key = let (inner', result) = f.get inner key in (inner', found result)

  unfoldable pub put : f.Cache → List ℕ → List ℕ → f.Cache
  put inner key value = f.insert inner key value

  unfoldable pub delete : f.Cache → List ℕ → f.Cache
  delete inner key = f.remove inner key
