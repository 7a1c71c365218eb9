-- ===== src/Candidates/Aligning.antt =====
-- src/core/candidates.ts, `alignHighlight`: what it returns.
use short_editor.Prelude.{
  subst, ℕ, suc, ◌+◌, ◌-◌, ◌≤◌, ◌<◌, ◌≡◌, refl, ap, ◌∙◌, ltb, leb, length, take, List, [], ◌∷◌,
  ◌++◌, Option, none, some, arith, inl, inr, Bool-cases, Option-cases, ◌⊎◌,
}
use short_editor.Candidates.{TranscriptSegment, AnalysisHighlight}
use short_editor.Candidates.Windows.{
  drop, slice, start_at, end_at, last_from, first_from, Growth, too_long_at, align_from,
  aligned_window, align_highlight, min_duration_ms, max_duration_ms,
}
use short_editor.Candidates.Slices.{length-drop, get_elem?-slice, length-slice, take-drop}
use short_editor.Candidates.Widening.{IsFit, grow-ends}

module _ (h : AnalysisHighlight) where
  -- The last index is one that was met, at or after the first.
  last_from-bound :
      (low index r : ℕ) (last : Option ℕ) (rest : List TranscriptSegment)
      → low ≤ index
      → ((p : ℕ) → last ≡ some p → (low ≤ p) × (p < index + length rest))
      → last_from h last index rest ≡ some r
      → (low ≤ r) × (r < index + length rest)
  last_from-bound low index r last [] k before e = before r e
  last_from-bound low index r last (s ∷ rest) k before e =
      elim (Bool-cases (leb h.end_ms s.start_ms)) [
        | inl stop ↦ before r (rw stop at e)
        | inr on ↦ elim (Bool-cases (ltb h.start_ms s.end_ms)) [
          | inl met ↦
              let (least, most) =
                last_from-bound low (suc index) r (some index) rest (omega (arith, k))
                  (λ p q.
                    let same : index ≡ p = cc in (omega (arith, same, k), omega (arith, same)))
                  (rw on at (rw met at e)) in
              (least, omega (arith, most))
          | inr unmet ↦
              let (least, most) =
                last_from-bound low (suc index) r last rest (omega (arith, k))
                  (λ p q. let (least, most) = before p q in (least, omega (arith, most)))
                  (rw on at (rw unmet at e)) in
              (least, omega (arith, most))
        ]
      ]

module _ (segments : List TranscriptSegment) (h : AnalysisHighlight) where
  align_from-ends :
      (first last : ℕ)
      → first ≤ last
      → last < length segments
      → (align_from segments first last ≡ Growth.unusable)
        ⊎ ((a : ℕ) × (b : ℕ) × (align_from segments first last ≡ Growth.window a b)
            × IsFit segments a b)
  unfolding align_from
  align_from-ends first last k inside = elim (Bool-cases (too_long_at segments first last)) [
    | inl long ↦ rw (align_from, long) (inl refl)
    | inr fits ↦
        rw (align_from, fits)
          (grow-ends segments (suc (length segments)) first last k inside (omega (arith, k)) fits)
  ]

  -- The alignment of a highlight never runs out of fuel: it finds no window, or one from a segment of
  -- the transcript to the same or a later one that lasts from 20 to 90 seconds.
  pub aligned_window-ends :
      (aligned_window segments h ≡ Growth.unusable)
      ⊎ ((a : ℕ) × (b : ℕ) × (aligned_window segments h ≡ Growth.window a b) × IsFit segments a b)
  unfolding aligned_window
  aligned_window-ends = elim (Option-cases (first_from h 0 segments)) [
    | inl gone ↦ rw (aligned_window, gone) (inl refl)
    | inr (first, found) ↦
        rw (aligned_window, found)
          (elim (Option-cases (last_from h none first (drop first segments))) [
            | inl gone ↦ rw (aligned_window, gone) (inl refl)
            | inr (last, ended) ↦
                let (ordered, inside) =
                  last_from-bound h first first last none (drop first segments) (omega arith)
                    (λ p e. cc) ended in
                rw (aligned_window, ended)
                  (align_from-ends first last ordered
                    (omega (arith, inside, ordered, length-drop first segments)))
          ])
  ]

-- From the first segment's start to the last one's end, as `segments.at(-1)` reads it.
abbrev pub HasDuration : List TranscriptSegment → Type 0
HasDuration ws =
    (min_duration_ms + start_at ws 0 ≤ end_at ws (length ws - 1))
    × (end_at ws (length ws - 1) ≤ max_duration_ms + start_at ws 0)

module _ (segments : List TranscriptSegment) where
  slice-HasDuration : (a b : ℕ) → IsFit segments a b → HasDuration (slice a b segments)
  slice-HasDuration a b (ordered, inside, least, most) =
      let starts : start_at (slice a b segments) 0 ≡ start_at segments a =
        ap (λ o. elim o [ none ↦ 0 | some s ↦ s.start_ms ])
          (get_elem?-slice a b 0 a segments ordered (omega arith)) in
      let ends : end_at (slice a b segments) (length (slice a b segments) - 1) ≡ end_at segments b =
        ap (λ o. elim o [ none ↦ 0 | some s ↦ s.end_ms ])
          (get_elem?-slice a b (length (slice a b segments) - 1) b segments (omega arith)
            (omega (arith, ordered, length-slice a b segments ordered inside))) in
      rw (starts, ends) (least, most)

  -- The segments a highlight is aligned to are a run of the transcript's, and last from 20 to 90
  -- seconds.
  pub align_highlight_lem :
      (h : AnalysisHighlight) (ws : List TranscriptSegment)
      → align_highlight segments h ≡ some ws
      → HasDuration ws
        × (before : List TranscriptSegment) × (after : List TranscriptSegment) × (segments
            ≡ before ++ (ws ++ after))
  unfolding align_highlight
  align_highlight_lem h ws e = elim (aligned_window-ends segments h) [
    | inl unusable ↦
        (let no : ◌≡◌ {A = Option (List TranscriptSegment)} none (some ws) =
            rw (align_highlight, unusable) at e in
          cc)
    | inr (a, b, aligned, fit) ↦
        let same : slice a b segments ≡ ws =
          (let k : some (slice a b segments) ≡ some ws = rw (align_highlight, aligned) at e in
            cc) in
        subst
          (λ v.
            HasDuration v
            × (before : List TranscriptSegment) × (after : List TranscriptSegment) × (segments
                ≡ before ++ (v ++ after)))
          same
          (
            slice-HasDuration a b fit,
            take a segments,
            drop (suc b - a) (drop a segments),
            take-drop a segments
                ∙ ap (λ v. take a segments ++ v) (take-drop (suc b - a) (drop a segments)),
          )
  ]
