-- ===== src/Xtask/Snapshots.antt =====
-- xtask/src/main.rs: `run_custom_format`, which indents inline snapshots. A text is its bytes; the crates
-- `serde_json`, `indent` and `unindent` are parameters.
use percas.Base.{
  ℕ, zero, suc, List, [], ◌∷◌, ◌++◌, Option, none, some, Bool, true, false, ◌&&◌, ◌||◌, leb, ltb,
  ◌==◌, if◌then◌else◌, returned, panicked,
}
use percas.Text.{String, FilePath, str_eq, ◌<>◌}
use percas.Exec.{◌>>=◌, ◌>>◌, pure}
use percas.Xtask.{Shell, Machine, Task, make_sg_search_cmd, run_command_with_stdout}

-- What ast-grep reports of a snapshot; `start` and `end_of` are the byte offsets.
pub record ScanResult : Type 0 where
  pub file : String
  pub start : ℕ
  pub end_of : ℕ
  pub lines : List ℕ
  pub text : List ℕ

-- The JSON of a scan, and the crates that indent.
pub record Format : Type 0 where
  pub from_str : List ℕ → Option (List ScanResult)
  pub indent_by : ℕ → List ℕ → List ℕ
  pub unindent : List ℕ → List ℕ

abbrev pub take : ℕ → List ℕ → List ℕ
take zero xs = []
take (suc n) [] = []
take (suc n) (x ∷ xs) = x ∷ take n xs

abbrev pub drop : ℕ → List ℕ → List ℕ
drop zero xs = xs
drop (suc n) [] = []
drop (suc n) (x ∷ xs) = drop n xs

-- `lines.find('@').unwrap_or(0)`.
unfoldable pub find_at : ℕ → List ℕ → ℕ
find_at n [] = 0
find_at n (c ∷ rest) = if c == b'@' then n else find_at (suc n) rest

abbrev pub bytes_eq : List ℕ → List ℕ → Bool
bytes_eq [] [] = true
bytes_eq [] (y ∷ ys) = false
bytes_eq (x ∷ xs) [] = false
bytes_eq (x ∷ xs) (y ∷ ys) = (x == y) && bytes_eq xs ys

-- Whether the end of the text is there, or a byte that does not continue a character.
unfoldable pub boundary_at : List ℕ → ℕ → Bool
boundary_at [] zero = true
boundary_at [] (suc i) = false
boundary_at (c ∷ rest) zero = ltb c 128 || leb 192 c
boundary_at (c ∷ rest) (suc i) = boundary_at rest i

-- `str::is_char_boundary`.
unfoldable pub is_char_boundary : List ℕ → ℕ → Bool
unfolding boundary_at
is_char_boundary content zero = true
is_char_boundary content (suc i) = boundary_at content (suc i)

-- `String::replace_range(start..end, with)`; `none` is a panic.
unfoldable pub replace_range : List ℕ → ℕ → ℕ → List ℕ → Option (List ℕ)
unfolding is_char_boundary
replace_range content start end_of with_text =
    if leb start end_of && (is_char_boundary content start && is_char_boundary content end_of)
    then some (take start content ++ (with_text ++ drop end_of content))
    else none

module _ ⦃m : Machine⦄ ⦃f : Format⦄ where
  unfoldable pub format_text : ScanResult → List ℕ
  unfolding find_at
  format_text snap = f.indent_by (find_at 0 snap.lines) (f.unindent snap.text)

  abbrev pub path_of : ScanResult → FilePath
  path_of snap = m.cargo_workspace_dir <> ("/" <> snap.file)

  -- Writing a file of the shell.
  abbrev pub store : FilePath → List ℕ → Shell → Shell
  store path content s = record s { files = λ p. if str_eq p path then some content else s.files p }

  -- The body of the loop for a snapshot that differs from its format, with `--fix`.
  unfoldable pub fix_snap : ScanResult → Task (Unit {0})
  unfolding format_text replace_range
  fix_snap snap s = elim (s.files (path_of snap)) [
    | none ↦ (s, panicked)
    | some content ↦ elim (replace_range content snap.start snap.end_of (format_text snap)) [
      | none ↦ (s, panicked)
      | some changed ↦
          if m.writable (path_of snap)
          then (store (path_of snap) changed s, returned tt)
          else (s, panicked)
    ]
  ]

  -- The body of the loop. Without `--fix` the assertion that the texts are equal panics.
  unfoldable pub format_snap : Bool → ScanResult → Task (Unit {0})
  unfolding fix_snap
  format_snap fix snap s =
      if bytes_eq snap.text (format_text snap)
      then (s, returned tt)
      else if fix
      then fix_snap snap s
      else (s, panicked)

  -- The loop over `inline_snaps.iter().rev()`: the last snapshot first.
  unfoldable pub format_snaps : Bool → List ScanResult → Task (Unit {0})
  unfolding format_snap
  format_snaps fix [] = pure tt
  format_snaps fix (snap ∷ rest) = format_snaps fix rest >> format_snap fix snap

  abbrev pub parsed : Option (List ScanResult) → Task (List ScanResult)
  parsed none s = (s, panicked)
  parsed (some snaps) s = (s, returned snaps)

  unfoldable pub run_custom_format : Bool → Task (Unit {0})
  unfolding format_snaps run_command_with_stdout make_sg_search_cmd
  run_custom_format fix =
      make_sg_search_cmd (m.cargo_workspace_dir <> "/.lints/utils/inline-snap.yml") >>= λ command.
      run_command_with_stdout command >>= λ output. parsed (f.from_str output) >>= format_snaps fix
