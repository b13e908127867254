-- ===== src/Tests/System.antt =====
-- The limits and the report of statistics at small values.
use percas.Base.{ℕ, ◌+◌, ◌*◌, ◌≤◌, [], ◌∷◌, none, some, unwrap_or, ◌≡◌, refl, arith, returned}
use percas.System.{reserved_memory, available_memory, throttle, foyer_per_io}
use percas.System.Quotas.{throttle-sums, available_memory-bounds}
use percas.Scheduled.{MetricsSnapshot, Reported, Accounts, reports, reports-Accounts}

throttle-sums_example :
    (wi ri wt rt : ℕ) × (throttle none 8
      ≡ returned (record {
        write_iops = some wi;
        read_iops = some ri;
        write_throughput = some wt;
        read_throughput = some rt;
        iops_counter = foyer_per_io;
      }))
    × (wi + ri ≡ 10_000 * 8)
    × (wt + rt ≡ 187_500_000 * 8)
    × (wi ≡ 2_500 * 8)
    × (wt ≡ 46_875_000 * 8)
throttle-sums_example = throttle-sums 8 (omega arith) (omega arith)

available_memory-bounds_example :
    (reserved_memory ≤ available_memory (some 1_000_000_000) 2_000_000_000)
    × (unwrap_or (some 1_000_000_000) 2_000_000_000
        ≤ available_memory (some 1_000_000_000) 2_000_000_000 + reserved_memory)
available_memory-bounds_example = available_memory-bounds (some 1_000_000_000) 2_000_000_000

abbrev fresh : Reported
fresh = record {
  snapshot = record {
    disk_read_bytes = 0;
    disk_write_bytes = 0;
    disk_read_ios = 0;
    disk_write_ios = 0;
  };
  used = 0;
  capacity = 0;
  read_bytes = 0;
  write_bytes = 0;
  read_count = 0;
  write_count = 0;
}

abbrev first_minute : MetricsSnapshot
first_minute = record {
  disk_read_bytes = 5;
  disk_write_bytes = 0;
  disk_read_ios = 1;
  disk_write_ios = 0;
}

abbrev second_minute : MetricsSnapshot
second_minute = record {
  disk_read_bytes = 9;
  disk_write_bytes = 8;
  disk_read_ios = 3;
  disk_write_ios = 2;
}

reports-Accounts_example :
    Accounts (reports 1000 fresh (first_minute ∷ second_minute ∷ []))
    × ((reports 1000 fresh (first_minute ∷ second_minute ∷ [])).snapshot ≡ second_minute)
reports-Accounts_example =
    reports-Accounts 1000 fresh (first_minute ∷ second_minute ∷ [])
      (record { read_bytes = refl; write_bytes = refl; read_count = refl; write_count = refl })
      (
        (omega arith, omega arith),
        (omega arith, omega arith),
        (omega arith, omega arith),
        (omega arith, omega arith),
        (
          (omega arith, omega arith),
          (omega arith, omega arith),
          (omega arith, omega arith),
          (omega arith, omega arith),
          tt,
        ),
      )
