-- ===== src/Xtask/Spliced.antt =====
-- xtask/src/main.rs: the text in which all inline snapshots of a file have been replaced, for `run_custom_format`.
use percas.Base.{
  ℕ, ◌+◌, ◌-◌, ◌≤◌, ◌<◌, List, [], ◌∷◌, ◌++◌, Bool, length, if◌then◌else◌, ◌≡◌, refl, sym, ap,
  subst, ◌∙◌, arith, Bool-cases, inl, inr,
}
use percas.Xtask.Bytes.{
  take-append, drop-append, length-take, take-take, drop-take, drop-drop, boundary-take, zero_plus,
}
use percas.Xtask.{Machine}
use percas.Xtask.Snapshots.{ScanResult, Format, take, drop, bytes_eq, boundary_at, format_text}

starts : (start pos i : ℕ) → pos + i < start → start - pos ≡ i + (start - (pos + i))
starts start pos i l = omega (arith, l)

ends :
    (start end_of pos i : ℕ)
    → pos + i < start
    → start ≤ end_of
    → end_of - pos ≡ i + (end_of - (pos + i))
ends start end_of pos i l k = omega (arith, l, k)

module _ ⦃m : Machine⦄ ⦃f : Format⦄ where
  abbrev pub unchanged : ScanResult → Bool
  unchanged snap = bytes_eq snap.text (format_text snap)

  -- The text from the offset `pos` on with the formatted snapshots in place of those that differ.
  unfoldable pub spliced : ℕ → List ℕ → List ScanResult → List ℕ
  spliced pos content [] = content
  spliced pos content (snap ∷ rest) =
      let later = spliced snap.end_of (drop (snap.end_of - pos) content) rest in
      let same = spliced pos content rest in
      if unchanged snap
      then same
      else take (snap.start - pos) content ++ (format_text snap ++ later)

  -- Each snapshot starts after the offset, and inside the text from `pos` on.
  abbrev pub After : ℕ → ℕ → List ℕ → List ScanResult → Type 0
  After at pos content [] = Unit {0}
  After at pos content (snap ∷ rest) =
      (at < snap.start)
      × (snap.start ≤ pos + length content)
      × (snap.start ≤ snap.end_of)
      × After at pos content rest

  pub take-spliced :
      (i pos : ℕ) (content : List ℕ) (snaps : List ScanResult)
      → After (pos + i) pos content snaps
      → take i (spliced pos content snaps) ≡ take i content
  unfolding spliced
  take-spliced i pos content [] h = refl
  take-spliced i pos content (snap ∷ rest) (gap, inside, order, h) =
      elim (Bool-cases (unchanged snap)) [
        | inl same ↦ rw same (take-spliced i pos content rest h)
        | inr other ↦ rw other (
            take-append i (take (snap.start - pos) content) _ (
              rw (length-take (snap.start - pos) content (omega (arith, inside)))
                (omega (arith, gap)))
            ∙ take-take i (snap.start - pos) content (omega (arith, gap)))
      ]

  pub boundary-spliced :
      (i pos : ℕ) (content : List ℕ) (snaps : List ScanResult)
      → After (pos + i) pos content snaps
      → boundary_at (spliced pos content snaps) i ≡ boundary_at content i
  unfolding spliced
  boundary-spliced i pos content [] h = refl
  boundary-spliced i pos content (snap ∷ rest) (gap, inside, order, h) =
      elim (Bool-cases (unchanged snap)) [
        | inl same ↦ rw same (boundary-spliced i pos content rest h)
        | inr other ↦ rw other (
            boundary-take i (snap.start - pos) content _ (omega (arith, gap))
              (omega (arith, inside)))
      ]

  pub drop-spliced :
      (i pos : ℕ) (content : List ℕ) (snaps : List ScanResult)
      → After (pos + i) pos content snaps
      → drop i (spliced pos content snaps) ≡ spliced (pos + i) (drop i content) snaps
  unfolding spliced
  drop-spliced i pos content [] h = refl
  drop-spliced i pos content (snap ∷ rest) (gap, inside, order, h) =
      elim (Bool-cases (unchanged snap)) [
        | inl same ↦ rw same (drop-spliced i pos content rest h)
        | inr other ↦
            let k = snap.start - (pos + i) in
            let later =
              format_text snap ++ spliced snap.end_of (drop (snap.end_of - pos) content) rest in
            rw other (
              drop-append i (take (snap.start - pos) content) later (
                rw (length-take (snap.start - pos) content (omega (arith, inside)))
                  (omega (arith, gap)))
              ∙ ap (λ n. drop i (take n content) ++ later) (starts snap.start pos i gap)
              ∙ ap (λ r. r ++ later) (drop-take i k content)
              ∙ ap
                  (λ d. take k (drop i content) ++ (format_text snap ++ spliced snap.end_of d rest))
                  (ap (λ n. drop n content) (ends snap.start snap.end_of pos i gap order)
                    ∙ sym (drop-drop i (snap.end_of - (pos + i)) content)))
      ]

  pub After-plus :
      (i : ℕ) (content : List ℕ) (snaps : List ScanResult)
      → After i 0 content snaps
      → After (0 + i) 0 content snaps
  After-plus i content snaps h = subst (λ n. After n 0 content snaps) (zero_plus i) h

  pub After-le :
      (i k : ℕ) (content : List ℕ) (snaps : List ScanResult)
      → i ≤ k
      → After k 0 content snaps
      → After i 0 content snaps
  After-le i k content [] l h = tt
  After-le i k content (snap ∷ rest) l (gap, inside, order, h) =
      (omega (arith, l, gap), inside, order, After-le i k content rest l h)
