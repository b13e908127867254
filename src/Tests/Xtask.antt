-- ===== src/Tests/Xtask.antt =====
-- A machine on which every tool is there, and cargo leaves a file behind.
use percas.Base.{
  ℕ, List, [], ◌∷◌, Option, none, some, Bool, true, ◌==◌, if◌then◌else◌, ◌≡◌, refl, arith,
}
use percas.Text.{FilePath, str_eq}
use percas.Xtask.{StdCommand, Machine, Shell}
use percas.Xtask.Snapshots.{Format, ScanResult, format_snaps}
use percas.Xtask.Tasks.{SubCommand, run}
use percas.Xtask.ReadOnly.{all_read, replayed}
use percas.Xtask.ReadOnly.Lint.{lint-writes_nothing}
use percas.Xtask.Spliced.{spliced}
use percas.Xtask.Splice.{InFile, Fits, Wrote, format_snaps-Wrote}

abbrev no_files : FilePath → Option (List ℕ)
no_files path = none

abbrev builds :
    List StdCommand → StdCommand → (FilePath → Option (List ℕ)) → FilePath → Option (List ℕ)
builds log cmd files path =
    if str_eq cmd.program "cargo"
    then if str_eq path "target" then some [] else files path
    else files path

instance abbrev toy_machine : Machine
toy_machine = record {
  which = λ log program. some program;
  success = λ log cmd. true;
  stdout = λ log cmd. some [];
  effect = builds;
  writable = λ path. true;
  cargo_workspace_dir = "w";
}

abbrev indented : List ℕ → List ℕ
indented [] = []
indented (c ∷ rest) = if c == b' ' then c ∷ rest else b' ' ∷ c ∷ rest

instance abbrev no_snapshots : Format
no_snapshots = record {
  from_str = λ bytes. some [];
  indent_by = λ n text. indented text;
  unindent = λ text. text;
}

lint-writes_nothing_example :
    (all_read (run (SubCommand.lint Bool.false) (record { log = []; files = no_files })).0.log
      ≡ true)
    × ((run (SubCommand.lint Bool.false) (record { log = []; files = no_files })).0.files
        ≡ replayed
            (run (SubCommand.lint Bool.false) (record { log = []; files = no_files })).0.log
            no_files)
lint-writes_nothing_example = lint-writes_nothing no_files

-- `ab, e` with a snapshot that is not indented yet and one that is.
abbrev content : List ℕ
content = b'a' ∷ b'b' ∷ b',' ∷ b' ' ∷ b'e' ∷ []

abbrev first : ScanResult
first = record { file = "f"; start = 1; end_of = 2; lines = []; text = b'b' ∷ [] }

abbrev second : ScanResult
second = record { file = "f"; start = 3; end_of = 5; lines = []; text = b' ' ∷ b'e' ∷ [] }

abbrev with_content : Shell
with_content = record { log = []; files = λ path. if str_eq path "w/f" then some content else none }

content-Fits : Fits content (first ∷ second ∷ [])
unfolding Fits percas.Xtask.Snapshots.is_char_boundary
content-Fits = (
  omega arith,
  omega arith,
  refl,
  refl,
  (omega arith, omega arith, omega arith, tt),
  (omega arith, omega arith, refl, refl, tt, tt),
)

content-InFile : InFile "w/f" (first ∷ second ∷ [])
unfolding InFile
content-InFile = (refl, (refl, tt))

replaced : spliced 0 content (first ∷ second ∷ []) ≡ b'a' ∷ b' ' ∷ b'b' ∷ b',' ∷ b' ' ∷ b'e' ∷ []
unfolding spliced percas.Xtask.Snapshots.format_text
replaced = refl

format_snaps-Wrote_example :
    Wrote "w/f"
      (spliced 0 content (first ∷ second ∷ []))
      with_content
      (format_snaps true (first ∷ second ∷ []))
format_snaps-Wrote_example =
    format_snaps-Wrote "w/f" (first ∷ second ∷ []) content with_content content-InFile content-Fits
      refl refl
