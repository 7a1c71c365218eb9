-- ===== src/Candidates/Tried.antt =====
-- src/core/candidates.ts, `generateCandidates` without an analysis: the windows of segments that are
-- tried, up to their scores.
use short_editor.Prelude.{
  ℕ, zero, suc, ◌+◌, ◌-◌, ◌≡◌, refl, true, false, List, [], ◌∷◌, ◌++◌, inl, inr, Bool-cases, length,
  length-append, arith, All, All-append,
}
use short_editor.Candidates.{TranscriptSegment}
use short_editor.Candidates.Windows.{slice, start_at, end_at, is_too_short, is_too_long}
use short_editor.Candidates.Aligning.{HasDuration}

-- `rejections.duration`, and the windows that are scored, `eligibleWindowCount` of them.
pub record Tried : Type 0 where
  pub duration : ℕ
  pub windows : List (List TranscriptSegment)

-- The pairs of a start and an end that is not before it.
abbrev pub window_pairs : ℕ → ℕ
window_pairs zero = 0
window_pairs (suc n) = suc n + window_pairs n

module _ (segments : List TranscriptSegment) where
  -- The loop over the ends of the windows from `start`, with the segments from `end` on.
  unfoldable pub try_ends : ℕ → ℕ → List TranscriptSegment → Tried → Tried
  try_ends start end [] t = t
  try_ends start end (s ∷ rest) t =
      let selected = slice start end segments in
      let first = start_at selected 0 in
      let last = end_at selected (length selected - 1) in
      elim (is_too_short first last) [
        | true ↦ try_ends start (suc end) rest (record t { duration = suc t.duration })
        | false ↦ elim (is_too_long first last) [
          | true ↦ record t { duration = t.duration + length (s ∷ rest) }
          | false ↦
              try_ends start (suc end) rest (record t { windows = t.windows ++ (selected ∷ []) })
        ]
      ]

  -- The loop over the starts, with the segments from `start` on.
  unfoldable pub try_starts : ℕ → List TranscriptSegment → Tried → Tried
  try_starts start [] t = t
  try_starts start (s ∷ rest) t = try_starts (suc start) rest (try_ends start start (s ∷ rest) t)

  unfoldable pub try_windows : Tried
  try_windows = try_starts 0 segments (record { duration = 0; windows = [] })

  -- Windows that are tried are counted, or last as long as they may.
  abbrev Counts : ℕ → Tried → Type 0
  Counts met t = (length t.windows + t.duration ≡ met) × All HasDuration t.windows

  Counts-try_ends :
      (start end met : ℕ) (rest : List TranscriptSegment) (t : Tried)
      → Counts met t
      → Counts (met + length rest) (try_ends start end rest t)
  unfolding try_ends
  Counts-try_ends start end met [] t (all_met, last) = (omega (arith, all_met), last)
  Counts-try_ends start end met (s ∷ rest) t (all_met, last) =
      let selected = slice start end segments in
      let a = start_at selected 0 in
      let b = end_at selected (length selected - 1) in
      elim (Bool-cases (is_too_short a b)) [
        | inl short ↦
            let (after, lasts) =
              Counts-try_ends start (suc end) (suc met) rest
                (record t { duration = suc t.duration }) (omega (arith, all_met), last) in
            rw (try_ends, short) (omega (arith, after), lasts)
        | inr long ↦ elim (Bool-cases (is_too_long a b)) [
          | inl too_long ↦ rw (try_ends, long, too_long) (omega (arith, all_met), last)
          | inr fits ↦
              let (after, lasts) =
                Counts-try_ends start (suc end) (suc met) rest
                  (record t { windows = t.windows ++ (selected ∷ []) })
                  (
                    omega (arith, all_met, length-append t.windows (selected ∷ [])),
                    All-append HasDuration t.windows (selected ∷ []) last
                        ((ground (arith, long), ground (arith, fits)), tt),
                  ) in
              rw (try_ends, long, fits) (omega (arith, after), lasts)
        ]
      ]

  Counts-try_starts :
      (start met : ℕ) (rest : List TranscriptSegment) (t : Tried)
      → Counts met t
      → Counts (met + window_pairs (length rest)) (try_starts start rest t)
  unfolding try_starts
  Counts-try_starts start met [] t (all_met, last) = (omega (arith, all_met), last)
  Counts-try_starts start met (s ∷ rest) t c =
      let (after, lasts) =
        Counts-try_starts (suc start) (met + length (s ∷ rest)) rest
          (try_ends start start (s ∷ rest) t) (Counts-try_ends start start met (s ∷ rest) t c) in
      (omega (arith, after), lasts)

  -- Every pair of a start and an end is a window that is scored or is counted as rejected for its
  -- length, and the windows that are scored last from 20 to 90 seconds.
  try_windows_lem :
      (length try_windows.windows + try_windows.duration ≡ window_pairs (length segments))
      × All HasDuration try_windows.windows
  unfolding try_windows
  try_windows_lem =
      let (all_met, lasts) =
        Counts-try_starts 0 0 segments (record { duration = 0; windows = [] }) (refl, tt) in
      (omega (arith, all_met), lasts)
