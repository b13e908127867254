-- ===== src/System/Runtime.antt =====
-- crates/core/src/runtime.rs: how runtimes are built, and what waiting for a task gives. The threads are
-- those of the crate `tokio`.
use percas.Base.{
  ℕ, Option, none, some, Result, ok, err, Outcome, returned, panicked, if◌then◌else◌, ltb, Bool,
}
use percas.Text.{String}

-- The settings of `tokio::runtime::Builder`; `none` is its default.
pub record TokioBuilder : Type 0 where
  pub worker_threads : Option ℕ
  pub max_blocking_threads : Option ℕ
  pub thread_keep_alive : Option ℕ
  pub enable_all : Bool
  pub thread_name : Option String

pub record Builder : Type 0 where
  pub runtime_name : String
  pub thread_name : String
  pub builder : TokioBuilder

-- A runtime, with the settings that it was built from.
pub record Runtime : Type 0 where
  pub name : String
  pub runtime : TokioBuilder

-- Whether the system can build a runtime.
pub record Tokio : Type 0 where
  pub builds : TokioBuilder → Bool

unfoldable pub new : String → String → Builder
new runtime_name thread_name = record {
  runtime_name = runtime_name;
  thread_name = thread_name;
  builder = record {
    worker_threads = none;
    max_blocking_threads = none;
    thread_keep_alive = none;
    enable_all = Bool.false;
    thread_name = none;
  };
}

-- The crate asserts that a number of threads is not 0.
unfoldable pub worker_threads : ℕ → Builder → Outcome Builder
worker_threads val b =
    if ltb 0 val
    then returned (record b { builder = record b.builder { worker_threads = some val } })
    else panicked

unfoldable pub max_blocking_threads : ℕ → Builder → Outcome Builder
max_blocking_threads val b =
    if ltb 0 val
    then returned (record b { builder = record b.builder { max_blocking_threads = some val } })
    else panicked

unfoldable pub thread_keep_alive : ℕ → Builder → Builder
thread_keep_alive duration b = record b {
  builder = record b.builder { thread_keep_alive = some duration };
}

unfoldable pub runtime_name : String → Builder → Builder
runtime_name val b = record b { runtime_name = val }

unfoldable pub thread_name : String → Builder → Builder
thread_name val b = record b { thread_name = val }

module _ ⦃t : Tokio⦄ where
  unfoldable pub build : Builder → Option Runtime
  build b =
      let settings = record b.builder {
        enable_all = Bool.true;
        thread_name = some b.thread_name;
      } in
      if t.builds settings
      then some (record { name = b.runtime_name; runtime = settings })
      else none

  abbrev pub expected : Option Runtime → Outcome Runtime
  expected none = panicked
  expected (some runtime) = returned runtime

  abbrev pub build_from : Outcome Builder → Outcome Runtime
  build_from panicked = panicked
  build_from (returned b) = expected (build b)

  unfoldable pub make_runtime : String → String → ℕ → Outcome Runtime
  unfolding new worker_threads build
  make_runtime runtime_name thread_name threads =
      build_from (worker_threads threads (new runtime_name thread_name))

-- `tokio::task::JoinError`.
pub data JoinError : Type 0 where
  panic cancelled : JoinError

pub data Poll {ℓ} (A : Type ℓ) : Type ℓ where
  pending : Poll A
  ready : A → Poll A

-- The `match` of `JoinHandle::poll`: a panic goes on, and a cancelled task is `unreachable!`.
abbrev pub joined : {R : Type 0} → Result R JoinError → Outcome R
joined (ok val) = returned val
joined (err panic) = panicked
joined (err cancelled) = panicked

abbrev pub ready_with : {R : Type 0} → Outcome R → Outcome (Poll R)
ready_with panicked = panicked
ready_with (returned val) = returned (ready val)

unfoldable pub poll : {R : Type 0} → Poll (Result R JoinError) → Outcome (Poll R)
poll pending = returned pending
poll (ready val) = ready_with (joined val)
