-- ===== src/Middleware/Limit.antt =====
-- crates/server/src/middleware.rs: the rate limit. A semaphore of the crate `mea` is the number of its
-- permits; a permit that is dropped is returned. Waiting for a permit to run is a request of its own
-- state, so a request is waiting or running.
use percas.Base.{ℕ, ◌+◌, ◌-◌, ◌*◌, ◌≤◌, ◌≡◌, ◌↔◌, Option, none, some, if◌then◌else◌, ltb, arith}

pub record RateLimit : Type 0 where
  pub wait_permits : ℕ
  pub run_permits : ℕ

-- The permits of `RateLimitMiddleware::new`, for the number of CPUs.
unfoldable pub new : ℕ → RateLimit
new cpus =
    let run_limit = cpus * 4 in record { wait_permits = run_limit * 100; run_permits = run_limit }

-- The requests in the middleware: those that wait to run and those that run.
pub record Load : Type 0 where
  pub permits : RateLimit
  pub waiting : ℕ
  pub running : ℕ

-- `wait_permit.try_acquire(1)` of a request that comes in: `none` is the answer 429.
unfoldable pub try_acquire : Load → Option Load
try_acquire s =
    if ltb 0 s.permits.wait_permits
    then some (record s {
      permits = record s.permits { wait_permits = s.permits.wait_permits - 1 };
      waiting = s.waiting + 1;
    })
    else none

-- `run_permit.acquire(1)` of a request that waits.
unfoldable pub acquire : Load → Option Load
acquire s =
    if ltb 0 s.permits.run_permits
    then if ltb 0 s.waiting
      then some (record {
        permits = record s.permits { run_permits = s.permits.run_permits - 1 };
        waiting = s.waiting - 1;
        running = s.running + 1;
      })
      else none
    else none

-- A running request ends, or is dropped, and returns both permits.
unfoldable pub release : Load → Option Load
release s =
    if ltb 0 s.running
    then some (record s {
      permits = record {
        wait_permits = s.permits.wait_permits + 1;
        run_permits = s.permits.run_permits + 1;
      };
      running = s.running - 1;
    })
    else none

-- A waiting request is dropped and returns its permit.
unfoldable pub cancel : Load → Option Load
cancel s =
    if ltb 0 s.waiting
    then some (record s {
      permits = record s.permits { wait_permits = s.permits.wait_permits + 1 };
      waiting = s.waiting - 1;
    })
    else none

-- One step of the middleware.
pub data Step : Load → Load → Type 0 where
  arrives : {s s' : Load} → try_acquire s ≡ some s' → Step s s'
  runs : {s s' : Load} → acquire s ≡ some s' → Step s s'
  ends : {s s' : Load} → release s ≡ some s' → Step s s'
  gives_up : {s s' : Load} → cancel s ≡ some s' → Step s s'

pub data Reach (s : Load) : Load → Type 0 where
  at_start : Reach s s
  further : {u v : Load} → Reach s u → Step u v → Reach s v

-- The load of a middleware that has just been made.
abbrev pub idle : ℕ → Load
idle cpus = record { permits = new cpus; waiting = 0; running = 0 }

-- Each request holds one wait permit, and each that runs one run permit.
pub record Balanced (cpus : ℕ) (s : Load) : Type 0 where
  pub wait_balance : s.permits.wait_permits + s.waiting + s.running ≡ cpus * 400
  pub run_balance : s.permits.run_permits + s.running ≡ cpus * 4

try_acquire-Balanced :
    (cpus : ℕ) (s s' : Load) → Balanced cpus s → try_acquire s ≡ some s' → Balanced cpus s'
unfolding try_acquire
try_acquire-Balanced cpus s s' b e = record {
  wait_balance = ground (arith, b.wait_balance);
  run_balance = ground (arith, b.run_balance);
}

acquire-Balanced :
    (cpus : ℕ) (s s' : Load) → Balanced cpus s → acquire s ≡ some s' → Balanced cpus s'
unfolding acquire
acquire-Balanced cpus s s' b e = record {
  wait_balance = ground (arith, b.wait_balance);
  run_balance = ground (arith, b.run_balance);
}

release-Balanced :
    (cpus : ℕ) (s s' : Load) → Balanced cpus s → release s ≡ some s' → Balanced cpus s'
unfolding release
release-Balanced cpus s s' b e = record {
  wait_balance = ground (arith, b.wait_balance);
  run_balance = ground (arith, b.run_balance);
}

cancel-Balanced : (cpus : ℕ) (s s' : Load) → Balanced cpus s → cancel s ≡ some s' → Balanced cpus s'
unfolding cancel
cancel-Balanced cpus s s' b e = record {
  wait_balance = ground (arith, b.wait_balance);
  run_balance = ground (arith, b.run_balance);
}

Step-Balanced : (cpus : ℕ) {s s' : Load} → Balanced cpus s → Step s s' → Balanced cpus s'
Step-Balanced cpus {s} {s'} b (arrives e) = try_acquire-Balanced cpus s s' b e
Step-Balanced cpus {s} {s'} b (runs e) = acquire-Balanced cpus s s' b e
Step-Balanced cpus {s} {s'} b (ends e) = release-Balanced cpus s s' b e
Step-Balanced cpus {s} {s'} b (gives_up e) = cancel-Balanced cpus s s' b e

Reach-Balanced : (cpus : ℕ) {s : Load} → Reach (idle cpus) s → Balanced cpus s
unfolding new
Reach-Balanced cpus at_start = record { wait_balance = omega arith; run_balance = omega arith }
Reach-Balanced cpus (further r t) = Step-Balanced cpus (Reach-Balanced cpus r) t

full :
    (cpus : ℕ) (s : Load)
    → Balanced cpus s
    → (try_acquire s ≡ none) ↔ (s.waiting + s.running ≡ cpus * 400)
unfolding try_acquire
full cpus s b = ((λ e. ground (arith, b.wait_balance)), λ e. ground (arith, b.wait_balance))

-- After any run of the rate limit from its start, at most 4 requests per CPU run, at most 400 per CPU wait
-- or run, and a request that comes in is turned away exactly if 400 per CPU do.
pub Reach-bounds :
    (cpus : ℕ) (s : Load)
    → Reach (idle cpus) s
    → (s.running ≤ cpus * 4)
      × (s.waiting + s.running ≤ cpus * 400)
      × ((try_acquire s ≡ none) ↔ (s.waiting + s.running ≡ cpus * 400))
Reach-bounds cpus s r =
    let b = Reach-Balanced cpus r in
    (omega (arith, b.run_balance), omega (arith, b.wait_balance), full cpus s b)
