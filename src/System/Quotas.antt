-- ===== src/System/Quotas.antt =====
-- The bounds of the limits, and the round trip of a throttle.
use percas.Base.{
  ℕ, ◌+◌, ◌-◌, ◌*◌, ◌/◌, ◌%◌, ◌^◌, ◌≤◌, ◌<◌, ◌≡◌, max, Option, none, some, refl, ap, arith, Outcome,
  returned, panicked,
}
use percas.Config.{DiskThrottle, IopsCounter, per_io, per_io_size}
use percas.System.{
  reserved_memory, available_memory, foyer_per_io, to_foyer_counter, from_foyer_counter, to_foyer,
  from_foyer, throttle,
}

counters : (c : IopsCounter) → from_foyer_counter (to_foyer_counter c) ≡ c
unfolding from_foyer_counter to_foyer_counter
counters per_io = refl
counters (per_io_size n) = refl

-- A throttle that is converted to the library's and back is the same.
pub from_foyer-to_foyer : (t : DiskThrottle) → from_foyer (to_foyer t) ≡ t
unfolding from_foyer to_foyer
from_foyer-to_foyer t = λ i. record t { iops_counter = counters t.iops_counter i }

-- Where no throttle is configured and there are a CPU at least and fewer than 2^32, the engine gets a throttle, and its read
-- and write quotas add up to 10000 operations and 187500000 bytes per CPU, of which a quarter is
-- for writes.
pub throttle-sums :
    (cpus : ℕ)
    → 0 < cpus
    → cpus < 2 ^ 32
    → (wi ri wt rt : ℕ) × (throttle none cpus
        ≡ returned (record {
          write_iops = some wi;
          read_iops = some ri;
          write_throughput = some wt;
          read_throughput = some rt;
          iops_counter = foyer_per_io;
        }))
      × (wi + ri ≡ 10_000 * cpus)
      × (wt + rt ≡ 187_500_000 * cpus)
      × (wi ≡ 2_500 * cpus)
      × (wt ≡ 46_875_000 * cpus)
unfolding throttle
throttle-sums cpus p u =
    let iops = 10_000 * cpus % 2 ^ 64 in
    let throughput = 187_500_000 * cpus % 2 ^ 64 in
    (
      iops / 4,
      iops - iops / 4,
      throughput / 4,
      throughput - throughput / 4,
      ground arith,
      omega arith,
      omega arith,
      omega arith,
      omega arith,
    )

-- The memory that counts as available is 128 MiB less than the limit of the control group, or of the
-- machine where there is none, and never below 128 MiB.
pub available_memory-bounds :
    (limit : Option ℕ) (total : ℕ)
    → (reserved_memory ≤ available_memory limit total)
      × (percas.Base.unwrap_or limit total ≤ available_memory limit total + reserved_memory)
unfolding available_memory
available_memory-bounds none total = (omega arith, omega arith)
available_memory-bounds (some limit) total = (omega arith, omega arith)
