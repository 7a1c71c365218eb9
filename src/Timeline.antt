-- ===== src/Timeline.antt =====
-- The source ranges of a Short and the timeline that they make: `timeRangeSchema` and
-- `orderedNonOverlappingRangesSchema` of src/shared/validators.ts, `outputDuration` and
-- `mapOutputToSource` of src/ui/editor-state.ts, `containingRange`, `normalizeLines` and the cue
-- mapping of `generateCaptionSidecars` of src/core/captions.ts. Times are whole milliseconds from 0.
pub mod Mapping
pub mod Lines
pub mod Landing
pub mod Checks
use short_editor.Prelude.{
  ℕ, ◌+◌, ◌-◌, ◌==◌, ◌≤◌, ◌<◌, Bool, true, false, ltb, leb, if◌then◌else◌, ◌&&◌, ◌||◌, List, [],
  ◌∷◌, Option, none, some, min, take,
}
use short_editor.Content.{SourceRange}

-- `endMs` is positive and after `startMs`.
abbrev pub range_ok : SourceRange → Bool
range_ok r = ltb 0 r.end_ms && ltb r.start_ms r.end_ms

abbrev pub ordered_after : ℕ → List SourceRange → Bool
ordered_after last [] = true
ordered_after last (r ∷ rs) = leb last r.start_ms && ordered_after r.end_ms rs

abbrev pub all_ranges_ok : List SourceRange → Bool
all_ranges_ok [] = true
all_ranges_ok (r ∷ rs) = range_ok r && all_ranges_ok rs

-- `sourceRangesSchema`: not empty, each range in order, and none before the end of the one before.
unfoldable pub source_ranges_ok : List SourceRange → Bool
source_ranges_ok [] = false
source_ranges_ok (r ∷ rs) = all_ranges_ok (r ∷ rs) && ordered_after r.end_ms rs

abbrev pub duration : SourceRange → ℕ
duration r = r.end_ms - r.start_ms

abbrev pub output_duration_from : ℕ → List SourceRange → ℕ
output_duration_from total [] = total
output_duration_from total (r ∷ rs) = output_duration_from (total + r.end_ms - r.start_ms) rs

unfoldable pub output_duration : List SourceRange → ℕ
output_duration ranges = output_duration_from 0 ranges

pub record SourcePoint : Type 0 where
  pub source_at_ms : ℕ
  pub range_index : ℕ

abbrev pub is_last : List SourceRange → Bool
is_last [] = true
is_last (r ∷ rs) = false

-- The loop of `mapOutputToSource`. `at` is never below `offset`, so `at - offset` is
-- `Math.max(0, …)` of the difference.
unfoldable pub map_output_from : ℕ → ℕ → List SourceRange → ℕ → SourcePoint
map_output_from offset index [] at = record { source_at_ms = 0; range_index = 0 }
map_output_from offset index (r ∷ rs) at =
    let rest = map_output_from (offset + duration r) (index + 1) rs at in
    if ltb at (offset + duration r) || is_last rs
    then record { source_at_ms = r.start_ms + min (duration r) (at - offset); range_index = index }
    else rest

unfoldable pub map_output_to_source : List SourceRange → ℕ → SourcePoint
unfolding map_output_from
map_output_to_source ranges at = map_output_from 0 0 ranges at

pub record Cue : Type 0 where
  pub id : ℕ
  pub start_ms : ℕ
  pub end_ms : ℕ
  pub text : List ℕ  -- code points

abbrev pub contains : Cue → SourceRange → Bool
contains cue r = leb r.start_ms cue.start_ms && leb cue.end_ms r.end_ms

pub record Containing : Type 0 where
  pub index : ℕ
  pub value : SourceRange

-- `findIndex`, from an index on.
unfoldable pub containing_range_from : ℕ → Cue → List SourceRange → Option Containing
containing_range_from i cue [] = none
containing_range_from i cue (r ∷ rs) =
    if contains cue r
    then some (record { index = i; value = r })
    else containing_range_from (i + 1) cue rs

unfoldable pub containing_range : Cue → List SourceRange → Option Containing
unfolding containing_range_from
containing_range cue ranges = containing_range_from 0 cue ranges

-- `normalizeLines` after a code point: of a carriage return (13) and a line feed (10) one line feed
-- stays, and a lone carriage return becomes one. The flag says that a carriage return came before.
unfoldable pub normalize_after : Bool → List ℕ → List ℕ
normalize_after returned [] = []
normalize_after returned (c ∷ cs) =
    let rest = normalize_after (c == 13) cs in
    if returned && c == 10 then rest else (if c == 13 then 10 else c) ∷ rest

abbrev pub normalize_lines : List ℕ → List ℕ
normalize_lines text = normalize_after false text

-- The cue in output time with its lines normalized, if a range holds it.
unfoldable pub map_cue : List SourceRange → Cue → Option Cue
unfolding containing_range output_duration
map_cue ranges cue = elim (containing_range cue ranges) [
  | none ↦ none
  | some range ↦
      let offset = output_duration (take range.index ranges) in
      some (record cue {
        start_ms = offset + cue.start_ms - range.value.start_ms;
        end_ms = offset + cue.end_ms - range.value.start_ms;
        text = normalize_lines cue.text;
      })
]
