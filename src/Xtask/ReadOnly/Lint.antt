-- ===== src/Xtask/ReadOnly/Lint.antt =====
-- xtask/src/main.rs: `lint` without `--fix` only looks.
use percas.Base.{ℕ, List, [], ◌∷◌, Option, none, some, true, false, ◌≡◌, refl, inl, inr, Bool-cases}
use percas.Text.{String, FilePath, ◌<>◌}
use percas.Exec.{◌>>=◌, Always, bind-Always, regrouped-Always}
use percas.Xtask.{
  StdCommand, Machine, Task, find_command, run_command, run_command_with_stdout, ensure_installed,
  command, tool, make_format_cmd, make_clippy_cmd, make_sg_lint_cmd, make_sg_search_cmd,
  make_typos_cmd, make_hawkeye_cmd, make_taplo_cmd,
}
use percas.Xtask.Snapshots.{
  Format, ScanResult, bytes_eq, format_text, format_snap, format_snaps, parsed, run_custom_format,
}
use percas.Xtask.Tasks.{in_order, lint, lint_check, run}
use percas.Xtask.ReadOnly.{
  writes, all_read, replayed, Reads, after-Reads, run_command-Always, find_command-Always,
  ensure_installed-Always, tool-Always, run_tool-Always, run_program-Always,
}

module _ ⦃m : Machine⦄ ⦃f : Format⦄ (files : FilePath → Option (List ℕ)) where
  format_snap-Always : (snap : ScanResult) → Always (Reads files) (format_snap false snap)
  unfolding format_snap
  format_snap-Always snap s r = elim (Bool-cases (bytes_eq snap.text (format_text snap))) [
    | inl e ↦ rw (e, format_snap) r
    | inr e ↦ rw (e, format_snap) r
  ]

  format_snaps-Always : (snaps : List ScanResult) → Always (Reads files) (format_snaps false snaps)
  unfolding format_snaps
  format_snaps-Always [] s r = r
  format_snaps-Always (snap ∷ rest) s r =
      bind-Always (Reads files) (format_snaps false rest) (λ _. format_snap false snap)
        (format_snaps-Always rest) (λ _. format_snap-Always snap) s r

  parsed-Always : (o : Option (List ScanResult)) → Always (Reads files) (parsed o)
  parsed-Always none s r = r
  parsed-Always (some snaps) s r = r

  stdout-Always :
      (cmd : StdCommand)
      → writes cmd.args ≡ false
      → Always (Reads files) (run_command_with_stdout cmd)
  unfolding run_command_with_stdout
  stdout-Always cmd w s r = after-Reads files cmd s w r

  -- What is done with the command of the scan.
  scan-Always :
      (cmd : StdCommand)
      → writes cmd.args ≡ false
      → Always (Reads files) (
          run_command_with_stdout cmd >>= λ output.
          parsed (f.from_str output) >>= format_snaps false)
  scan-Always cmd w =
      bind-Always (Reads files) (run_command_with_stdout cmd)
        (λ output. parsed (f.from_str output) >>= format_snaps false) (stdout-Always cmd w)
        (λ output.
          bind-Always (Reads files) (parsed (f.from_str output)) (format_snaps false)
            (parsed-Always (f.from_str output)) format_snaps-Always)

  search_args : String → List String
  search_args rule = "scan" ∷ "--rule" ∷ rule ∷ "--json=pretty" ∷ []

  custom-Always : Always (Reads files) (run_custom_format false)
  unfolding run_custom_format make_sg_search_cmd search_args
  custom-Always =
      tool-Always files "ast-grep" "ast-grep"
        (search_args (m.cargo_workspace_dir <> "/.lints/utils/inline-snap.yml"))
        (λ command. run_command_with_stdout command >>= λ output.
          parsed (f.from_str output) >>= format_snaps false)
        refl
        (λ path.
          scan-Always
            (record {
              program = path;
              args = search_args (m.cargo_workspace_dir <> "/.lints/utils/inline-snap.yml");
            })
            refl)

  typos-Always : Always (Reads files) (make_typos_cmd >>= run_command)
  unfolding make_typos_cmd
  typos-Always =
      regrouped-Always (Reads files) (ensure_installed "typos" "typos-cli")
        (λ _. find_command "typos") run_command
        (bind-Always (Reads files) (ensure_installed "typos" "typos-cli")
          (λ _. find_command "typos" >>= run_command)
          (ensure_installed-Always files "typos" "typos-cli" refl)
          (λ _.
            find_command-Always files "typos" run_command
              (λ path. run_command-Always files (record { program = path; args = [] }) refl)))

  next-Always :
      (task : Task (Unit {0})) (rest : List (Task (Unit {0})))
      → Always (Reads files) task
      → Always (Reads files) (in_order rest)
      → Always (Reads files) (in_order (task ∷ rest))
  next-Always task rest v w = bind-Always (Reads files) task (λ _. in_order rest) v (λ _. w)

  run_tool_then-Always :
      (program crate_name : String) (args : List String) (rest : List (Task (Unit {0})))
      → writes ("install" ∷ crate_name ∷ []) ≡ false
      → writes args ≡ false
      → Always (Reads files) (in_order rest)
      → Always (Reads files) (in_order ((tool program crate_name args >>= run_command) ∷ rest))
  run_tool_then-Always program crate_name args rest u v =
      next-Always (tool program crate_name args >>= run_command) rest
        (run_tool-Always files program crate_name args u v)

  run_program_then-Always :
      (program : String) (args : List String) (rest : List (Task (Unit {0})))
      → writes args ≡ false
      → Always (Reads files) (in_order rest)
      → Always (Reads files) (in_order ((command program args >>= run_command) ∷ rest))
  run_program_then-Always program args rest v =
      next-Always (command program args >>= run_command) rest
        (run_program-Always files program args v)

  abbrev after_typos : List (Task (Unit {0}))
  after_typos =
      (make_hawkeye_cmd false >>= run_command)
      ∷ (make_format_cmd false >>= run_command)
      ∷ (make_clippy_cmd false >>= run_command)
      ∷ []

  after_typos-Always : Always (Reads files) (in_order after_typos)
  unfolding make_hawkeye_cmd make_format_cmd make_clippy_cmd
  after_typos-Always =
      run_tool_then-Always "hawkeye" "hawkeye" ("check" ∷ [])
        ((make_format_cmd false >>= run_command) ∷ (make_clippy_cmd false >>= run_command) ∷ [])
        refl refl
        (run_program_then-Always "cargo" ("fmt" ∷ "--all" ∷ "--check" ∷ [])
          ((make_clippy_cmd false >>= run_command) ∷ []) refl
          (run_program_then-Always "cargo"
            ("clippy" ∷ "--tests" ∷ "--all-features" ∷ "--all-targets" ∷ "--workspace" ∷ "--" ∷ "-D"
              ∷ "warnings" ∷ [])
            [] refl (λ s r. r)))

  lint-Always : Always (Reads files) lint_check
  unfolding lint_check make_sg_lint_cmd make_taplo_cmd
  lint-Always =
      next-Always (run_custom_format false)
        ((make_sg_lint_cmd >>= run_command)
          ∷ (make_taplo_cmd false >>= run_command)
          ∷ (make_typos_cmd >>= run_command)
          ∷ after_typos)
        custom-Always
        (run_tool_then-Always "ast-grep" "ast-grep" ("scan" ∷ [])
          ((make_taplo_cmd false >>= run_command) ∷ (make_typos_cmd >>= run_command) ∷ after_typos)
          refl refl
          (run_tool_then-Always "taplo" "taplo-cli" ("format" ∷ "--check" ∷ [])
            ((make_typos_cmd >>= run_command) ∷ after_typos) refl refl
            (next-Always (make_typos_cmd >>= run_command) after_typos typos-Always
              after_typos-Always)))

  -- From a start at which no command has run, the check of `lint` without `--fix` runs no command that asks
  -- for changes, whether it returns or panics: no argument list has `--fix` or `--update-all`, and none that
  -- formats lacks `--check`. The files are afterwards those that the commands alone have left.
  pub lint-writes_nothing :
      let s = (run (lint false) (record { log = []; files = files })).0 in
      (all_read s.log ≡ true) × (s.files ≡ replayed s.log files)
  unfolding run all_read replayed
  lint-writes_nothing =
      let r =
        lint-Always (record { log = []; files = files })
          (record { quiet = refl; untouched = refl }) in
      (r.quiet, r.untouched)
