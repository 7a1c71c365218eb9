-- ===== src/Candidates/Windows.antt =====
-- src/core/candidates.ts: the segments of the transcript that a highlight is aligned to, and the
-- windows of segments that are tried without an analysis. A duration is a difference in the source;
-- the tests of one are written with sums here, so that no difference stops at 0.
use short_editor.Prelude.{
  ℕ, zero, suc, ◌+◌, ◌-◌, ltb, leb, if◌then◌else◌, length, get_elem?, take, Bool, true, false, ◌&&◌,
  List, [], ◌∷◌, Option, none, some,
}
use short_editor.Candidates.{TranscriptSegment, AnalysisHighlight}

abbrev pub min_duration_ms : ℕ
min_duration_ms = 20000

abbrev pub max_duration_ms : ℕ
max_duration_ms = 90000

abbrev pub drop {ℓ} : {A : Type ℓ} → ℕ → List A → List A
drop zero xs = xs
drop (suc n) [] = []
drop (suc n) (x ∷ xs) = drop n xs

-- `segments.slice(left, right + 1)`
abbrev pub slice {ℓ} : {A : Type ℓ} → ℕ → ℕ → List A → List A
slice left right xs = take (suc right - left) (drop left xs)

-- `segments[index]!.startMs` and `segments[index]!.endMs`, 0 where there is no such segment.
abbrev pub start_at : List TranscriptSegment → ℕ → ℕ
start_at segments i = elim (get_elem? segments i) [ none ↦ 0 | some s ↦ s.start_ms ]

abbrev pub end_at : List TranscriptSegment → ℕ → ℕ
end_at segments i = elim (get_elem? segments i) [ none ↦ 0 | some s ↦ s.end_ms ]

-- `duration < CANDIDATE_MIN_DURATION_MS` and `duration > CANDIDATE_MAX_DURATION_MS`
abbrev pub is_too_short : ℕ → ℕ → Bool
is_too_short start end = ltb end (min_duration_ms + start)

abbrev pub is_too_long : ℕ → ℕ → Bool
is_too_long start end = ltb (max_duration_ms + start) end

-- The test of `findIndex`.
abbrev pub overlaps : AnalysisHighlight → TranscriptSegment → Bool
overlaps h s = ltb h.start_ms s.end_ms && ltb s.start_ms h.end_ms

abbrev pub first_from : AnalysisHighlight → ℕ → List TranscriptSegment → Option ℕ
first_from h index [] = none
first_from h index (s ∷ rest) =
    let later = first_from h (suc index) rest in if overlaps h s then some index else later

-- The loop that finds the last: `last` so far, at `index`.
abbrev pub last_from : AnalysisHighlight → Option ℕ → ℕ → List TranscriptSegment → Option ℕ
last_from h last index [] = last
last_from h last index (s ∷ rest) =
    let found = if ltb h.start_ms s.end_ms then some index else last in
    let later = last_from h found (suc index) rest in
    if leb h.end_ms s.start_ms then last else later

-- What the loop that widens the window comes to.
pub data Growth : Type 0 where
  window : ℕ → ℕ → Growth
  unusable out_of_fuel : Growth

-- `segmentDuration(earlier) <= segmentDuration(later)`
abbrev pub is_no_longer : TranscriptSegment → TranscriptSegment → Bool
is_no_longer earlier later = leb (earlier.end_ms + later.start_ms) (later.end_ms + earlier.start_ms)

-- `left > 0 ? segments[left - 1]! : null`
abbrev pub earlier_segment : List TranscriptSegment → ℕ → Option TranscriptSegment
earlier_segment segments zero = none
earlier_segment segments (suc left) = get_elem? segments left

-- The window with the shorter of its two neighbours, the earlier one where they are as long.
abbrev pub widened : Option TranscriptSegment → Option TranscriptSegment → ℕ → ℕ → Option (ℕ × ℕ)
widened none none left right = none
widened (some e) none left right = some (left - 1, right)
widened none (some l) left right = some (left, suc right)
widened (some e) (some l) left right =
    if is_no_longer e l then some (left - 1, right) else some (left, suc right)

module _ (segments : List TranscriptSegment) where
  abbrev pub too_long_at : ℕ → ℕ → Bool
  too_long_at left right = is_too_long (start_at segments left) (end_at segments right)

  abbrev pub too_short_at : ℕ → ℕ → Bool
  too_short_at left right = is_too_short (start_at segments left) (end_at segments right)

  -- `while (duration < CANDIDATE_MIN_DURATION_MS)`, on fuel.
  unfoldable pub grow : ℕ → ℕ → ℕ → Growth
  grow zero left right = Growth.out_of_fuel
  grow (suc fuel) left right = elim (too_short_at left right) [
    | false ↦ Growth.window left right
    | true ↦
        elim (widened (earlier_segment segments left) (get_elem? segments (suc right)) left right) [
          | none ↦ Growth.unusable
          | some (l, r) ↦ elim (too_long_at l r) [ true ↦ Growth.unusable | false ↦ grow fuel l r ]
        ]
  ]

  -- Fuel for every segment there is.
  unfoldable pub align_from : ℕ → ℕ → Growth
  align_from first last =
      if too_long_at first last then Growth.unusable else grow (suc (length segments)) first last

  unfoldable pub aligned_window : AnalysisHighlight → Growth
  aligned_window h = elim (first_from h 0 segments) [
    | none ↦ Growth.unusable
    | some first ↦ elim (last_from h none first (drop first segments)) [
      | none ↦ Growth.unusable
      | some last ↦ align_from first last
    ]
  ]

  unfoldable pub align_highlight : AnalysisHighlight → Option (List TranscriptSegment)
  align_highlight h = elim (aligned_window h) [
    | Growth.window left right ↦ some (slice left right segments)
    | _ ↦ none
  ]
