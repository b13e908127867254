-- ===== src/Xtask/Tasks.antt =====
-- xtask/src/main.rs: the tasks themselves.
use percas.Base.{List, [], ◌∷◌, Bool, true, false}
use percas.Exec.{◌>>=◌, ◌>>◌, pure}
use percas.Xtask.{
  Machine, Task, run_command, make_build_cmd, make_test_cmd, make_format_cmd, make_clippy_cmd,
  make_sg_lint_cmd, make_typos_cmd, make_hawkeye_cmd, make_taplo_cmd, with_macro_normalized,
}
use percas.Xtask.Snapshots.{Format, run_custom_format}

pub data SubCommand : Type 0 where
  build : Bool → Bool → SubCommand
  lint : Bool → SubCommand
  test : Bool → SubCommand

module _ ⦃m : Machine⦄ ⦃f : Format⦄ where
  -- One task after another.
  abbrev pub in_order : List (Task (Unit {0})) → Task (Unit {0})
  in_order [] = pure tt
  in_order (task ∷ rest) = task >> in_order rest

  -- `CommandLint::run` with `--fix`.
  unfoldable pub lint_fix : Task (Unit {0})
  unfolding with_macro_normalized run_command run_custom_format
  lint_fix = in_order (
      with_macro_normalized (make_format_cmd true >>= run_command)
      ∷ run_custom_format true
      ∷ (make_sg_lint_cmd >>= run_command)
      ∷ (make_taplo_cmd true >>= run_command)
      ∷ (make_hawkeye_cmd true >>= run_command)
      ∷ (make_typos_cmd >>= run_command)
      ∷ (make_clippy_cmd true >>= run_command)
      ∷ (make_format_cmd true >>= run_command)
      ∷ [])

  -- `CommandLint::run` without it.
  unfoldable pub lint_check : Task (Unit {0})
  unfolding run_command run_custom_format
  lint_check = in_order (
      run_custom_format false
      ∷ (make_sg_lint_cmd >>= run_command)
      ∷ (make_taplo_cmd false >>= run_command)
      ∷ (make_typos_cmd >>= run_command)
      ∷ (make_hawkeye_cmd false >>= run_command)
      ∷ (make_format_cmd false >>= run_command)
      ∷ (make_clippy_cmd false >>= run_command)
      ∷ [])

  unfoldable pub run : SubCommand → Task (Unit {0})
  unfolding lint_fix lint_check run_command make_build_cmd make_test_cmd
  run (build locked all) = make_build_cmd locked all >>= run_command
  run (lint true) = lint_fix
  run (lint false) = lint_check
  run (test no_capture) = make_test_cmd no_capture >>= run_command
