-- ===== src/Xtask/Splice.antt =====
-- xtask/src/main.rs: the loop of `run_custom_format` from the last snapshot to the first, against one
-- replacement of all of them.
use percas.Base.{
  ℕ, zero, suc, ◌≤◌, List, [], ◌∷◌, ◌++◌, some, true, false, leb, length, returned, ◌≡◌, refl, sym,
  ap, subst, ◌∙◌, arith, Bool-cases, inl, inr,
}
use percas.Text.{FilePath, eq_refl}
use percas.Xtask.Bytes.{minus_zero, zero_plus}
use percas.Xtask.{Machine, Shell, Task}
use percas.Xtask.Snapshots.{
  ScanResult, Format, take, drop, is_char_boundary, replace_range, format_text, path_of, store,
  fix_snap, format_snap, format_snaps,
}
use percas.Xtask.Spliced.{
  spliced, unchanged, After, take-spliced, boundary-spliced, drop-spliced, After-plus, After-le,
}

leb-le : (a b : ℕ) → a ≤ b → leb a b ≡ true
leb-le a b l = ground (arith, l)

module _ ⦃m : Machine⦄ ⦃f : Format⦄ where
  -- The snapshots are in the text, on boundaries of characters, in order and with a gap between them.
  unfoldable pub Fits : List ℕ → List ScanResult → Type 0
  Fits content [] = Unit {0}
  Fits content (snap ∷ rest) =
      (snap.start ≤ snap.end_of)
      × (snap.end_of ≤ length content)
      × (is_char_boundary content snap.start ≡ true)
      × (is_char_boundary content snap.end_of ≡ true)
      × After snap.end_of 0 content rest
      × Fits content rest

  is_char_boundary-spliced :
      (i : ℕ) (content : List ℕ) (snaps : List ScanResult)
      → After i 0 content snaps
      → is_char_boundary (spliced 0 content snaps) i ≡ is_char_boundary content i
  unfolding is_char_boundary
  is_char_boundary-spliced zero content snaps h = refl
  is_char_boundary-spliced (suc i) content snaps h =
      boundary-spliced (suc i) 0 content snaps (After-plus (suc i) content snaps h)

  spliced_changed :
      (snap : ScanResult) (rest : List ScanResult) (content : List ℕ)
      → unchanged snap ≡ false
      → spliced 0 content (snap ∷ rest)
        ≡ take snap.start content
          ++ (format_text snap ++ spliced snap.end_of (drop snap.end_of content) rest)
  unfolding spliced
  spliced_changed snap rest content other =
      rw (other, minus_zero snap.start, minus_zero snap.end_of) refl

  spliced_same :
      (snap : ScanResult) (rest : List ScanResult) (content : List ℕ)
      → unchanged snap ≡ true
      → spliced 0 content rest ≡ spliced 0 content (snap ∷ rest)
  unfolding spliced
  spliced_same snap rest content same = rw same refl

  replace_range-spliced :
      (snap : ScanResult) (rest : List ScanResult) (content : List ℕ)
      → Fits content (snap ∷ rest)
      → unchanged snap ≡ false
      → replace_range (spliced 0 content rest) snap.start snap.end_of (format_text snap)
        ≡ some (spliced 0 content (snap ∷ rest))
  unfolding replace_range Fits
  replace_range-spliced snap rest content (order, inside, at_start, at_end, gap, fits) other =
      let now = After-le snap.start snap.end_of content rest order gap in
      rw
        (
          leb-le snap.start snap.end_of order,
          is_char_boundary-spliced snap.start content rest now,
          at_start,
          is_char_boundary-spliced snap.end_of content rest gap,
          at_end,
          take-spliced snap.start 0 content rest (After-plus snap.start content rest now),
          drop-spliced snap.end_of 0 content rest (After-plus snap.end_of content rest gap),
          spliced_changed snap rest content other,
          ← zero_plus snap.end_of,
        )
        refl

  spliced_nil : (content : List ℕ) → spliced 0 content [] ≡ content
  unfolding spliced
  spliced_nil content = refl

  Fits-rest :
      (snap : ScanResult) (rest : List ScanResult) (content : List ℕ)
      → Fits content (snap ∷ rest)
      → Fits content rest
  unfolding Fits
  Fits-rest snap rest content (order, inside, at_start, at_end, gap, fits) = fits

  -- All snapshots are of one file.
  unfoldable pub InFile : FilePath → List ScanResult → Type 0
  InFile path [] = Unit {0}
  InFile path (snap ∷ rest) = (path_of snap ≡ path) × InFile path rest

  -- The task returns, runs no command, and leaves the text in the file.
  pub record Wrote (path : FilePath) (content : List ℕ) (s : Shell) (task : Task (Unit {0}))
      : Type 0 where
    pub left : Shell
    pub returns : task s ≡ (left, returned tt)
    pub written : left.files path ≡ some content
    pub quiet : left.log ≡ s.log

  format_snap-Wrote :
      (snap : ScanResult) (rest : List ScanResult) (content : List ℕ) (s : Shell)
      → Fits content (snap ∷ rest)
      → m.writable (path_of snap) ≡ true
      → s.files (path_of snap) ≡ some (spliced 0 content rest)
      → Wrote (path_of snap) (spliced 0 content (snap ∷ rest)) s (format_snap true snap)
  unfolding format_snap fix_snap
  format_snap-Wrote snap rest content s fits writable now = elim (Bool-cases (unchanged snap)) [
    | inl same ↦ record {
      left = s;
      returns = rw (format_snap, same) refl;
      written = now ∙ ap some (spliced_same snap rest content same);
      quiet = refl;
    }
    | inr other ↦ record {
      left = store (path_of snap) (spliced 0 content (snap ∷ rest)) s;
      returns =
          rw
            (
              format_snap,
              other,
              fix_snap,
              now,
              replace_range-spliced snap rest content fits other,
              writable,
            )
            refl;
      written = rw (eq_refl (path_of snap)) refl;
      quiet = refl;
    }
  ]

  -- Where the snapshots of a file that can be written fit its text: the loop of `run_custom_format` with
  -- `--fix`, which goes from the last snapshot to the first, returns, runs no command, and leaves the text
  -- in which every snapshot that differs from its format has been replaced at its place in the old text.
  pub format_snaps-Wrote :
      (path : FilePath) (snaps : List ScanResult) (content : List ℕ) (s : Shell)
      → InFile path snaps
      → Fits content snaps
      → m.writable path ≡ true
      → s.files path ≡ some content
      → Wrote path (spliced 0 content snaps) s (format_snaps true snaps)
  unfolding format_snaps InFile
  format_snaps-Wrote path [] content s here fits writable now = record {
    left = s;
    returns = refl;
    written = now ∙ ap some (sym (spliced_nil content));
    quiet = refl;
  }
  format_snaps-Wrote path (snap ∷ rest) content s (same, here) fits writable now =
      let w =
        format_snaps-Wrote path rest content s here (Fits-rest snap rest content fits) writable
          now in
      let v =
        format_snap-Wrote snap rest content w.left fits
          (subst (λ p. m.writable p ≡ true) (sym same) writable)
          (subst (λ p. w.left.files p ≡ some (spliced 0 content rest)) (sym same) w.written) in
      record {
        left = v.left;
        returns = rw (w.returns, v.returns) refl;
        written =
            subst (λ p. v.left.files p ≡ some (spliced 0 content (snap ∷ rest))) same v.written;
        quiet = v.quiet ∙ w.quiet;
      }
