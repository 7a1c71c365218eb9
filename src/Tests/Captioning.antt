-- ===== src/Tests/Captioning.antt =====
-- Runs of the caption warnings.
use short_editor.Prelude.{ℕ, ◌≡◌, ◌↔◌, refl, true, false, List, [], ◌∷◌, any, sort}
use short_editor.Timeline.{Cue, containing_range, containing_range_from}
use short_editor.Captions.{
  Warning, WarningCode, unseen_warnings, deduplicate_warnings, cue_before, overlaps_after,
  overlap_warnings, cue_warnings, analyze,
}
use short_editor.Captions.Warnings.{AreDisjoint, is_overlap, analyze-overlap}
use short_editor.Tests.{one_range}

abbrev cue_at : ℕ → ℕ → ℕ → Cue
cue_at id start end_ms = record { id = id; start_ms = start; end_ms = end_ms; text = [] }

-- The second cue starts before the first has ended, and is short.
abbrev cues : List Cue
cues = cue_at 1 1000 3000 ∷ cue_at 2 2900 3100 ∷ []

abbrev overlap_of : ℕ → Warning
overlap_of id = record { code = WarningCode.overlap; cue_id = id }

captions : Unit {0}
unfolding analyze cue_warnings overlap_warnings overlaps_after deduplicate_warnings unseen_warnings
    containing_range containing_range_from
captions = tt

analyze_test :
    analyze (λ cue. []) cues (one_range ∷ []) true
    ≡ record { code = WarningCode.short_cue; cue_id = 2 } ∷ overlap_of 2 ∷ []
unfolding captions
analyze_test = refl

analyze-overlap_example :
    ((any is_overlap (analyze (λ cue. []) cues (one_range ∷ []) true) ≡ false)
      ↔ AreDisjoint (sort cue_before cues))
    × (analyze (λ cue. []) cues (one_range ∷ []) false ≡ [])
analyze-overlap_example = analyze-overlap (λ cue. []) (λ cue. refl) cues (one_range ∷ [])
