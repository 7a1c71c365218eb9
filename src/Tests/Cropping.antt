-- ===== src/Tests/Cropping.antt =====
-- Runs of the mapping of visual samples.
use short_editor.Prelude.{ℕ, ◌≡◌, refl, List, [], ◌∷◌, map, All}
use short_editor.Content.{SourceRange}
use short_editor.Timeline.{output_duration}
use short_editor.Crops.{
  VisualCropSample, samples_of, remapped_from, unrepeated_after, unrepeated, remap_samples_to_short,
}
use short_editor.Crops.Remapping.{IsIncreasing, Plays, remap_samples_to_short_lem}

abbrev sample_at : ℕ → VisualCropSample ℕ
sample_at at = record { at_ms = at; detections = at }

abbrev samples : List (VisualCropSample ℕ)
samples = sample_at 500 ∷ sample_at 1500 ∷ sample_at 2000 ∷ sample_at 9000 ∷ sample_at 9500 ∷ []

abbrev opening : SourceRange
opening = record { start_ms = 1000; end_ms = 2000 }

abbrev closing : SourceRange
closing = record { start_ms = 9000; end_ms = 10000 }

-- The end of the one is the start of the other on the timeline.
abbrev cropped : List SourceRange
cropped = opening ∷ closing ∷ []

crops : Unit {0}
unfolding samples_of remapped_from unrepeated_after unrepeated remap_samples_to_short
    output_duration
crops = tt

remap_samples_to_short_test :
    map {B = ℕ × ℕ} (λ v. (v.short_at_ms, v.sample.at_ms)) (remap_samples_to_short samples cropped)
    ≡ (500, 1500) ∷ (1000, 2000) ∷ (1500, 9500) ∷ []
unfolding crops
remap_samples_to_short_test = refl

remap_samples_to_short_lem_example :
    IsIncreasing (remap_samples_to_short samples cropped)
    × All (Plays 0 cropped samples) (remap_samples_to_short samples cropped)
remap_samples_to_short_lem_example = remap_samples_to_short_lem samples cropped
