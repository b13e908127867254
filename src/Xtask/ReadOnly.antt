-- ===== src/Xtask/ReadOnly.antt =====
-- What it is that a chain of commands only looks, and the calls that keep it.
pub mod Lint
use percas.Base.{
  ℕ, List, [], ◌∷◌, Option, none, some, Bool, true, false, ◌&&◌, ◌||◌, not, ◌≡◌, refl, ap,
  Option-cases, inl, inr, Bool-cases,
}
use percas.Text.{String, FilePath, str_eq, ◌<>◌}
use percas.Exec.{◌>>=◌, pure, Always, bind-Always, regrouped-Always}
use percas.Xtask.{
  StdCommand, Shell, Machine, Task, with_args, find_command, after, run_command,
  run_command_with_stdout, ensure_installed, command, tool, make_format_cmd, make_clippy_cmd,
  make_sg_lint_cmd, make_sg_search_cmd, make_typos_cmd, make_hawkeye_cmd, make_taplo_cmd,
}
use percas.Xtask.Snapshots.{
  Format, ScanResult, bytes_eq, format_text, format_snap, format_snaps, parsed, run_custom_format,
}
use percas.Xtask.Tasks.{in_order, lint, lint_check, run}

-- Whether one of the arguments is a flag that asks for changes; the argument after `--rule` is a file.
abbrev pub flags : Bool → List String → Bool
flags skip [] = false
flags true (arg ∷ rest) = flags false rest
flags false (arg ∷ rest) =
    str_eq arg "--fix" || (str_eq arg "--update-all" || flags (str_eq arg "--rule") rest)

abbrev pub checks : List String → Bool
checks [] = false
checks (arg ∷ rest) = str_eq arg "--check" || checks rest

abbrev pub formats : List String → Bool
formats [] = false
formats (arg ∷ rest) = (str_eq arg "format" || str_eq arg "fmt") && not (checks rest)

-- Whether a command of these tools changes files of the workspace, by its arguments.
abbrev pub writes : List String → Bool
writes args = flags false args || formats args

unfoldable pub all_read : List StdCommand → Bool
all_read [] = true
all_read (cmd ∷ rest) = not (writes cmd.args) && all_read rest

module _ ⦃m : Machine⦄ where
  -- The files after some commands alone.
  unfoldable pub replayed :
      List StdCommand → (FilePath → Option (List ℕ)) → FilePath → Option (List ℕ)
  replayed [] files = files
  replayed (cmd ∷ log) files = m.effect log cmd (replayed log files)

  -- No command so far writes, and no file was changed but by a command.
  pub record Reads (files : FilePath → Option (List ℕ)) (s : Shell) : Type 0 where
    pub quiet : all_read s.log ≡ true
    pub untouched : s.files ≡ replayed s.log files

module _ ⦃m : Machine⦄ (files : FilePath → Option (List ℕ)) where
  pub after-Reads :
      (cmd : StdCommand) (s : Shell)
      → writes cmd.args ≡ false
      → Reads files s
      → Reads files (after cmd s)
  unfolding all_read replayed
  after-Reads cmd s w r = record {
    quiet = rw w r.quiet;
    untouched = ap (m.effect s.log cmd) r.untouched;
  }

  pub run_command-Always :
      (cmd : StdCommand) → writes cmd.args ≡ false → Always (Reads files) (run_command cmd)
  unfolding run_command
  run_command-Always cmd w s r = after-Reads cmd s w r

  -- A program that is found, and what is done with it.
  pub find_command-Always :
      {A : Type 0} (program : String) (k : StdCommand → Task A)
      → ((path : String) → Always (Reads files) (k (record { program = path; args = [] })))
      → Always (Reads files) (find_command program >>= k)
  unfolding find_command
  find_command-Always program k then s r = elim (Option-cases (m.which s.log program)) [
    | inl e ↦ rw (e, find_command) r
    | inr (path, e) ↦ rw (e, find_command) (then path s r)
  ]

  pub command-Always :
      {A : Type 0} (program : String) (args : List String) (k : StdCommand → Task A)
      → ((path : String) → Always (Reads files) (k (record { program = path; args = args })))
      → Always (Reads files) (command program args >>= k)
  command-Always program args k then =
      regrouped-Always (Reads files) (find_command program) (λ cmd. pure (with_args cmd args)) k
        (find_command-Always program (λ cmd. pure (with_args cmd args) >>= k) then)

  pub ensure_installed-Always :
      (bin crate_name : String)
      → writes ("install" ∷ crate_name ∷ []) ≡ false
      → Always (Reads files) (ensure_installed bin crate_name)
  unfolding ensure_installed
  ensure_installed-Always bin crate_name w s r = elim (Option-cases (m.which s.log bin)) [
    | inr (path, e) ↦ rw (e, ensure_installed) r
    | inl e ↦
        rw (e, ensure_installed)
          (find_command-Always "cargo"
            (λ cmd. run_command (with_args cmd ("install" ∷ crate_name ∷ [])))
            (λ path.
              run_command-Always (record { program = path; args = "install" ∷ crate_name ∷ [] }) w)
            s r)
  ]

  pub tool-Always :
      {A : Type 0} (program crate_name : String) (args : List String) (k : StdCommand → Task A)
      → writes ("install" ∷ crate_name ∷ []) ≡ false
      → ((path : String) → Always (Reads files) (k (record { program = path; args = args })))
      → Always (Reads files) (tool program crate_name args >>= k)
  tool-Always program crate_name args k w then =
      regrouped-Always (Reads files) (ensure_installed program crate_name)
        (λ _. command program args) k
        (bind-Always (Reads files) (ensure_installed program crate_name)
          (λ _. command program args >>= k) (ensure_installed-Always program crate_name w)
          (λ _. command-Always program args k then))

  -- A tool that is run with arguments that do not write.
  pub run_tool-Always :
      (program crate_name : String) (args : List String)
      → writes ("install" ∷ crate_name ∷ []) ≡ false
      → writes args ≡ false
      → Always (Reads files) (tool program crate_name args >>= run_command)
  run_tool-Always program crate_name args w v =
      tool-Always program crate_name args run_command w
        (λ path. run_command-Always (record { program = path; args = args }) v)

  pub run_program-Always :
      (program : String) (args : List String)
      → writes args ≡ false
      → Always (Reads files) (command program args >>= run_command)
  run_program-Always program args v =
      command-Always program args run_command
        (λ path. run_command-Always (record { program = path; args = args }) v)
