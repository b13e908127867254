-- ===== src/Scheduled.antt =====
-- crates/server/src/scheduled.rs: the periodic report of the engine's statistics. A u64 wraps.
use percas.Base.{ℕ, ◌+◌, ◌-◌, ◌%◌, ◌^◌, ◌≤◌, ◌<◌, List, [], ◌∷◌, ◌≡◌, refl, arith}

pub record MetricsSnapshot : Type 0 where
  pub disk_read_bytes : ℕ
  pub disk_write_bytes : ℕ
  pub disk_read_ios : ℕ
  pub disk_write_ios : ℕ

unfoldable pub default : MetricsSnapshot
default = record {
  disk_read_bytes = 0;
  disk_write_bytes = 0;
  disk_read_ios = 0;
  disk_write_ios = 0;
}

-- `a - b` on u64, in a release build.
abbrev pub minus : ℕ → ℕ → ℕ
minus a b = (a + 2 ^ 64 - b) % 2 ^ 64

unfoldable pub difference : MetricsSnapshot → MetricsSnapshot → MetricsSnapshot
difference self other = record {
  disk_read_bytes = minus self.disk_read_bytes other.disk_read_bytes;
  disk_write_bytes = minus self.disk_write_bytes other.disk_write_bytes;
  disk_read_ios = minus self.disk_read_ios other.disk_read_ios;
  disk_write_ios = minus self.disk_write_ios other.disk_write_ios;
}

-- The gauges that a report sets, the counters that it adds to, and the snapshot that it leaves.
pub record Reported : Type 0 where
  pub snapshot : MetricsSnapshot
  pub used : ℕ
  pub capacity : ℕ
  pub read_bytes : ℕ
  pub write_bytes : ℕ
  pub read_count : ℕ
  pub write_count : ℕ

-- `do_report`, given the capacity of the engine and its statistics at that time.
unfoldable pub do_report : ℕ → Reported → MetricsSnapshot → Reported
unfolding difference
do_report capacity r current =
    let d = difference current r.snapshot in
    record {
      snapshot = current;
      used = capacity;
      capacity = capacity;
      read_bytes = r.read_bytes + d.disk_read_bytes;
      write_bytes = r.write_bytes + d.disk_write_bytes;
      read_count = r.read_count + d.disk_read_ios;
      write_count = r.write_count + d.disk_write_ios;
    }

unfoldable pub reports : ℕ → Reported → List MetricsSnapshot → Reported
unfolding do_report
reports capacity r [] = r
reports capacity r (current ∷ rest) = reports capacity (do_report capacity r current) rest

-- The counters show what the last snapshot says.
pub record Accounts (r : Reported) : Type 0 where
  pub read_bytes : r.read_bytes ≡ r.snapshot.disk_read_bytes
  pub write_bytes : r.write_bytes ≡ r.snapshot.disk_write_bytes
  pub read_count : r.read_count ≡ r.snapshot.disk_read_ios
  pub write_count : r.write_count ≡ r.snapshot.disk_write_ios

-- The last statistics that were reported, `s` where there are none.
abbrev pub last : MetricsSnapshot → List MetricsSnapshot → MetricsSnapshot
last s [] = s
last s (x ∷ rest) = last x rest

-- The statistics grow from `s` on and stay u64s.
abbrev pub Grows : MetricsSnapshot → List MetricsSnapshot → Type 0
Grows s [] = Unit {0}
Grows s (x ∷ rest) =
    ((s.disk_read_bytes ≤ x.disk_read_bytes) × (x.disk_read_bytes < 2 ^ 64))
    × ((s.disk_write_bytes ≤ x.disk_write_bytes) × (x.disk_write_bytes < 2 ^ 64))
    × ((s.disk_read_ios ≤ x.disk_read_ios) × (x.disk_read_ios < 2 ^ 64))
    × ((s.disk_write_ios ≤ x.disk_write_ios) × (x.disk_write_ios < 2 ^ 64))
    × Grows x rest

minus_add : (total a b : ℕ) → total ≡ b → b ≤ a → a < 2 ^ 64 → total + minus a b ≡ a
minus_add total a b e l u = omega arith

do_report-Accounts :
    (capacity : ℕ) (r : Reported) (x : MetricsSnapshot) (rest : List MetricsSnapshot)
    → Accounts r
    → Grows r.snapshot (x ∷ rest)
    → Accounts (do_report capacity r x)
unfolding do_report difference
do_report-Accounts capacity r x rest a (rb, wb, rc, wc, g) = record {
  read_bytes =
      minus_add r.read_bytes x.disk_read_bytes r.snapshot.disk_read_bytes a.read_bytes rb.0 rb.1;
  write_bytes =
      minus_add r.write_bytes x.disk_write_bytes r.snapshot.disk_write_bytes a.write_bytes wb.0
        wb.1;
  read_count =
      minus_add r.read_count x.disk_read_ios r.snapshot.disk_read_ios a.read_count rc.0 rc.1;
  write_count =
      minus_add r.write_count x.disk_write_ios r.snapshot.disk_write_ios a.write_count wc.0 wc.1;
}

-- Where the counters show what the snapshot says, and the statistics grow and stay below 2^64, they do
-- after any number of reports, and the snapshot is that of the last report: the reported differences add
-- up to the last statistics.
pub reports-Accounts :
    (capacity : ℕ) (r : Reported) (xs : List MetricsSnapshot)
    → Accounts r
    → Grows r.snapshot xs
    → Accounts (reports capacity r xs) × ((reports capacity r xs).snapshot ≡ last r.snapshot xs)
unfolding reports do_report
reports-Accounts capacity r [] a g = (a, refl)
reports-Accounts capacity r (x ∷ rest) a g =
    reports-Accounts capacity (do_report capacity r x) rest
      (do_report-Accounts capacity r x rest a g) (next g)
  where
    next : Grows r.snapshot (x ∷ rest) → Grows (do_report capacity r x).snapshot rest
    next (rb, wb, rc, wc, more) = more
