-- ===== src/Xtask.antt =====
-- xtask/src/main.rs: the commands that the developer tasks run. What a program answers is a parameter; a
-- text that the program prints for itself leaves no trace.
pub mod Snapshots
pub mod Tasks
pub mod ReadOnly
pub mod Bytes
pub mod Spliced
pub mod Splice
use percas.Base.{
  ℕ, List, [], ◌∷◌, ◌++◌, Option, none, some, Bool, true, false, if◌then◌else◌, Outcome, returned,
  panicked,
}
use percas.Text.{String, FilePath, ◌<>◌}
use percas.Exec.{Call, ◌>>=◌, ◌>>◌, pure}

-- `std::process::Command`: the program and its arguments.
pub record StdCommand : Type 0 where
  pub program : String
  pub args : List String

-- The files and the commands that have been run, the last first.
pub record Shell : Type 0 where
  pub log : List StdCommand
  pub files : FilePath → Option (List ℕ)

-- The machine: where `which` finds a program, the exit status and the output of a command (`none` where it
-- is no text), what a command makes of the files, each after the commands that have been run; and whether a file can be
-- written.
pub record Machine : Type 0 where
  pub which : List StdCommand → String → Option String
  pub success : List StdCommand → StdCommand → Bool
  pub stdout : List StdCommand → StdCommand → Option (List ℕ)
  pub effect :
      List StdCommand → StdCommand → (FilePath → Option (List ℕ)) → FilePath → Option (List ℕ)
  pub writable : FilePath → Bool
  pub cargo_workspace_dir : FilePath

abbrev pub Task : Type 0 → Type 0
Task = Call Shell

abbrev pub with_args : StdCommand → List String → StdCommand
with_args cmd args = record cmd { args = cmd.args ++ args }

module _ ⦃m : Machine⦄ where
  unfoldable pub find_command : String → Task StdCommand
  find_command cmd s = elim (m.which s.log cmd) [
    | none ↦ (s, panicked)
    | some path ↦ (s, returned (record { program = path; args = [] }))
  ]

  -- The command that a shell runs: it is logged and has its effect on the files.
  abbrev pub after : StdCommand → Shell → Shell
  after cmd s = record { log = cmd ∷ s.log; files = m.effect s.log cmd s.files }

  unfoldable pub run_command : StdCommand → Task (Unit {0})
  run_command cmd s = (after cmd s, if m.success s.log cmd then returned tt else panicked)

  unfoldable pub run_command_with_stdout : StdCommand → Task (List ℕ)
  run_command_with_stdout cmd s =
      (after cmd s, elim (m.stdout s.log cmd) [ none ↦ panicked | some output ↦ returned output ])

  unfoldable pub ensure_installed : String → String → Task (Unit {0})
  unfolding find_command run_command
  ensure_installed bin crate_name s = elim (m.which s.log bin) [
    | some path ↦ (s, returned tt)
    | none ↦
        (find_command "cargo" >>= λ cmd. run_command (with_args cmd ("install" ∷ crate_name ∷ [])))
          s
  ]

  -- A program found, with arguments; and one that is installed first if it is missing.
  abbrev pub command : String → List String → Task StdCommand
  command program args = find_command program >>= λ cmd. pure (with_args cmd args)

  abbrev pub tool : String → String → List String → Task StdCommand
  tool program crate_name args = ensure_installed program crate_name >> command program args

  unfoldable pub make_build_cmd : Bool → Bool → Task StdCommand
  unfolding find_command
  make_build_cmd locked all = command "cargo" (
      ("build" ∷ "--workspace" ∷ "--all-features" ∷ [])
      ++ ((if all then "--bins" ∷ "--examples" ∷ "--tests" ∷ "--benches" ∷ [] else [])
          ++ (if locked then "--locked" ∷ [] else [])))

  unfoldable pub make_test_cmd : Bool → Task StdCommand
  unfolding ensure_installed find_command
  make_test_cmd no_capture =
      ensure_installed "cargo-nextest" "cargo-nextest"
      >> command "cargo" (
          ("nextest" ∷ "run" ∷ "--workspace" ∷ [])
          ++ (if no_capture then "--no-capture" ∷ [] else []))

  unfoldable pub make_format_cmd : Bool → Task StdCommand
  unfolding find_command
  make_format_cmd fix =
      command "cargo" (("fmt" ∷ "--all" ∷ []) ++ (if fix then [] else "--check" ∷ []))

  unfoldable pub make_clippy_cmd : Bool → Task StdCommand
  unfolding find_command
  make_clippy_cmd fix = command "cargo" (
      ("clippy" ∷ "--tests" ∷ "--all-features" ∷ "--all-targets" ∷ "--workspace" ∷ [])
      ++ (if fix
          then "--fix" ∷ "--allow-staged" ∷ "--allow-dirty" ∷ []
          else "--" ∷ "-D" ∷ "warnings" ∷ []))

  unfoldable pub make_sg_lint_cmd : Task StdCommand
  unfolding ensure_installed find_command
  make_sg_lint_cmd = tool "ast-grep" "ast-grep" ("scan" ∷ [])

  unfoldable pub make_sg_search_cmd : String → Task StdCommand
  unfolding ensure_installed find_command
  make_sg_search_cmd rule_file =
      tool "ast-grep" "ast-grep" ("scan" ∷ "--rule" ∷ rule_file ∷ "--json=pretty" ∷ [])

  unfoldable pub make_sg_fix_cmd : String → Task StdCommand
  unfolding ensure_installed find_command
  make_sg_fix_cmd rule_file =
      tool "ast-grep" "ast-grep" ("scan" ∷ "--rule" ∷ rule_file ∷ "--update-all" ∷ [])

  unfoldable pub make_typos_cmd : Task StdCommand
  unfolding ensure_installed find_command
  make_typos_cmd = ensure_installed "typos" "typos-cli" >> find_command "typos"

  unfoldable pub make_hawkeye_cmd : Bool → Task StdCommand
  unfolding ensure_installed find_command
  make_hawkeye_cmd fix =
      tool "hawkeye" "hawkeye"
        (if fix then "format" ∷ "--fail-if-updated=false" ∷ [] else "check" ∷ [])

  unfoldable pub make_taplo_cmd : Bool → Task StdCommand
  unfolding ensure_installed find_command
  make_taplo_cmd fix =
      tool "taplo" "taplo-cli" (if fix then "format" ∷ [] else "format" ∷ "--check" ∷ [])

  unfoldable pub with_macro_normalized : Task (Unit {0}) → Task (Unit {0})
  unfolding make_sg_fix_cmd run_command
  with_macro_normalized f =
      (make_sg_fix_cmd (m.cargo_workspace_dir <> "/.lints/utils/pre-format.yml") >>= run_command)
      >> (f
          >> (make_sg_fix_cmd (m.cargo_workspace_dir <> "/.lints/utils/post-format.yml")
              >>= run_command))
