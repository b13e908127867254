-- ===== src/Engine/Open.antt =====
-- crates/core/src/engine.rs: `FoyerEngine::try_new`. The builders of the crate `foyer` are parameters.
use percas.Base.{
  ℕ, ◌*◌, max, Option, Bool, if◌then◌else◌, Result, ok, err, Outcome, returned, panicked,
}
use percas.Text.{FilePath}
use percas.Config.{DiskThrottle}
use percas.System.{Throttle, throttle}

-- The settings of the device and of the cache on it.
pub record Device : Type 0 where
  pub data_dir : FilePath
  pub capacity : ℕ
  pub throttle : Throttle

pub record HybridCacheSettings : Type 0 where
  pub memory : ℕ
  pub shards : ℕ
  pub device : Device
  pub recover_concurrency : ℕ
  pub block_size : ℕ
  pub flushers : ℕ

-- Whether a directory exists after `create_dir_all`, whether the crate builds the device and the cache, and
-- the half of a number by way of f64.
pub record FoyerBuilder : Type 0 where
  pub exists_created : FilePath → Bool
  pub builds_device : Device → Bool
  pub builds_cache : HybridCacheSettings → Bool
  pub half : ℕ → ℕ

pub data EngineError : Type 0 where
  no_data_dir no_device no_cache : EngineError

pub record FoyerEngine : Type 0 where
  pub inner : HybridCacheSettings
  pub capacity : ℕ

abbrev pub default_block_size : ℕ
default_block_size = 64 * 1024 * 1024

abbrev pub default_flushers : ℕ
default_flushers = 4

module _ ⦃f : FoyerBuilder⦄ where
  abbrev pub settings : Device → ℕ → ℕ → HybridCacheSettings
  settings device memory_capacity parallelism = record {
    memory = f.half memory_capacity;
    shards = max parallelism 32;
    device = device;
    recover_concurrency = parallelism;
    block_size = default_block_size;
    flushers = default_flushers;
  }

  abbrev pub with_throttle :
      FilePath → ℕ → ℕ → ℕ → Outcome Throttle → Outcome (Result FoyerEngine EngineError)
  with_throttle data_dir memory_capacity disk_capacity parallelism panicked = panicked
  with_throttle data_dir memory_capacity disk_capacity parallelism (returned quota) =
      let device : Device = record {
        data_dir = data_dir;
        capacity = disk_capacity;
        throttle = quota;
      } in
      let inner = settings device memory_capacity parallelism in
      returned (
        if f.builds_device device
        then if f.builds_cache inner
          then ok (record { inner = inner; capacity = disk_capacity })
          else err no_cache
        else err no_device)

  unfoldable pub try_new :
      FilePath → ℕ → ℕ → Option DiskThrottle → ℕ → Outcome (Result FoyerEngine EngineError)
  unfolding throttle
  try_new data_dir memory_capacity disk_capacity disk_throttle parallelism =
      if f.exists_created data_dir
      then with_throttle data_dir memory_capacity disk_capacity parallelism
          (throttle disk_throttle parallelism)
      else returned (err no_data_dir)
