-- ===== src/System.antt =====
-- crates/core/src/lib.rs, crates/core/src/engine.rs and crates/core/src/newtype.rs: the limits of the
-- machine, the throttle that the engine takes from them, and the conversions of throttles.
pub mod Quotas
pub mod Runtime
use percas.Base.{
  ℕ, ◌+◌, ◌-◌, ◌*◌, ◌/◌, ◌%◌, ◌^◌, max, Option, none, some, Result, ok, err, Outcome, returned,
  panicked, if◌then◌else◌, ◌==◌,
}
use percas.Config.{DiskThrottle, IopsCounter, per_io, per_io_size}

-- `std::thread::available_parallelism`, `none` where it fails.
abbrev pub num_cpus : Option ℕ → ℕ
num_cpus none = 1
num_cpus (some parallelism) = parallelism

abbrev pub reserved_memory : ℕ
reserved_memory = 128 * 1024 * 1024

-- The memory limit of the control group, if there is one, and the memory of the machine.
unfoldable pub available_memory : Option ℕ → ℕ → ℕ
available_memory none total = max (total - reserved_memory) reserved_memory
available_memory (some limit) total = max (limit - reserved_memory) reserved_memory

-- `foyer::IopsCounter` and `foyer::Throttle`: the types of the crate with their constructors.
pub data FoyerIopsCounter : Type 0 where
  foyer_per_io : FoyerIopsCounter
  foyer_per_io_size : ℕ → FoyerIopsCounter

pub record Throttle : Type 0 where
  pub write_iops : Option ℕ
  pub read_iops : Option ℕ
  pub write_throughput : Option ℕ
  pub read_throughput : Option ℕ
  pub iops_counter : FoyerIopsCounter

unfoldable pub to_foyer_counter : IopsCounter → FoyerIopsCounter
to_foyer_counter per_io = foyer_per_io
to_foyer_counter (per_io_size size) = foyer_per_io_size size

unfoldable pub from_foyer_counter : FoyerIopsCounter → IopsCounter
from_foyer_counter foyer_per_io = per_io
from_foyer_counter (foyer_per_io_size size) = per_io_size size

unfoldable pub to_foyer : DiskThrottle → Throttle
unfolding to_foyer_counter
to_foyer value = record {
  write_iops = value.write_iops;
  read_iops = value.read_iops;
  write_throughput = value.write_throughput;
  read_throughput = value.read_throughput;
  iops_counter = to_foyer_counter value.iops_counter;
}

unfoldable pub from_foyer : Throttle → DiskThrottle
unfolding from_foyer_counter
from_foyer value = record {
  write_iops = value.write_iops;
  read_iops = value.read_iops;
  write_throughput = value.write_throughput;
  read_throughput = value.read_throughput;
  iops_counter = from_foyer_counter value.iops_counter;
}

-- `quota.try_into().unwrap()` into a `NonZeroUsize`.
abbrev pub nonzero : ℕ → Outcome (Option ℕ)
nonzero n = if n == 0 then panicked else returned (some n)

abbrev and_nonzero : ℕ → (Option ℕ → Outcome Throttle) → Outcome Throttle
and_nonzero n f = elim (nonzero n) [ panicked ↦ panicked | returned q ↦ f q ]

-- The throttle that `try_new` uses: the configured one, or one made for the number of CPUs in usize
-- arithmetic.
unfoldable pub throttle : Option DiskThrottle → ℕ → Outcome Throttle
unfolding to_foyer
throttle (some configured) cpus = returned (to_foyer configured)
throttle none cpus =
    let throughput = 187_500_000 * cpus % 2 ^ 64 in
    let write_throughput_quota = throughput / 4 in
    let read_throughput_quota = throughput - write_throughput_quota in
    let iops = 10_000 * cpus % 2 ^ 64 in
    let write_iops_quota = iops / 4 in
    let read_iops_quota = iops - write_iops_quota in
    and_nonzero write_iops_quota (λ w. and_nonzero read_iops_quota (λ r.
      and_nonzero write_throughput_quota (λ x. and_nonzero read_throughput_quota (λ y.
        returned (record {
          write_iops = w;
          read_iops = r;
          write_throughput = x;
          read_throughput = y;
          iops_counter = foyer_per_io;
        })))))
