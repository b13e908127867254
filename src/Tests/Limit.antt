-- ===== src/Tests/Limit.antt =====
-- The rate limit of a machine with one CPU.
use percas.Base.{◌+◌, ◌*◌, ◌≤◌, ◌≡◌, ◌↔◌, none, refl}
use percas.Middleware.Limit.{
  Load, Reach, at_start, further, arrives, runs, idle, new, try_acquire, acquire, Reach-bounds,
}

abbrev one_waits : Load
one_waits = record {
  permits = record { wait_permits = 399; run_permits = 4 };
  waiting = 1;
  running = 0;
}

abbrev one_runs : Load
one_runs = record {
  permits = record { wait_permits = 399; run_permits = 3 };
  waiting = 0;
  running = 1;
}

run : Reach (idle 1) one_runs
unfolding new try_acquire acquire
run = further (further at_start (arrives {s' = one_waits} refl)) (runs refl)

Reach-bounds_example :
    (one_runs.running ≤ 1 * 4)
    × (one_runs.waiting + one_runs.running ≤ 1 * 400)
    × ((try_acquire one_runs ≡ none) ↔ (one_runs.waiting + one_runs.running ≡ 1 * 400))
Reach-bounds_example = Reach-bounds 1 one_runs run
