-- ===== src/Crops.antt =====
-- src/core/crops.ts, `remapSamplesToShort`: the visual samples of a recording on the timeline of a
-- Short. `Detections` stands for what a sample says of the picture, which the mapping only carries.
pub mod Remapping
use short_editor.Prelude.{
  ℕ, ◌+◌, ◌-◌, ◌==◌, if◌then◌else◌, Bool, ◌||◌, leb, ltb, List, [], ◌∷◌, ◌++◌, sort,
}
use short_editor.Content.{SourceRange}

pub record VisualCropSample (Detections : Type 0) : Type 0 where
  pub at_ms : ℕ
  pub detections : Detections

pub record RemappedSample (Detections : Type 0) : Type 0 where
  pub short_at_ms : ℕ
  pub sample : VisualCropSample Detections

module _ {D : Type 0} where
  -- The inner loop, over the samples. A range ends after it starts, so `endMs - startMs` is not
  -- below 0, and a sample that is taken is not before the start.
  unfoldable pub samples_of : ℕ → SourceRange → List (VisualCropSample D) → List (RemappedSample D)
  samples_of offset range [] = []
  samples_of offset range (s ∷ samples) =
      let rest = samples_of offset range samples in
      if ltb s.at_ms range.start_ms || ltb range.end_ms s.at_ms
      then rest
      else record { short_at_ms = offset + s.at_ms - range.start_ms; sample = s } ∷ rest

  unfoldable pub remapped_from :
      ℕ → List SourceRange → List (VisualCropSample D) → List (RemappedSample D)
  remapped_from offset [] samples = []
  remapped_from offset (range ∷ ranges) samples =
      samples_of offset range samples
      ++ remapped_from (offset + range.end_ms - range.start_ms) ranges samples

  abbrev pub not_after : RemappedSample D → RemappedSample D → Bool
  not_after a b = leb a.short_at_ms b.short_at_ms

  -- The filter, after a sample at `prior`.
  unfoldable pub unrepeated_after : ℕ → List (RemappedSample D) → List (RemappedSample D)
  unrepeated_after prior [] = []
  unrepeated_after prior (v ∷ values) =
      let rest = unrepeated_after v.short_at_ms values in
      if v.short_at_ms == prior then rest else v ∷ rest

  unfoldable pub unrepeated : List (RemappedSample D) → List (RemappedSample D)
  unrepeated [] = []
  unrepeated (v ∷ values) = v ∷ unrepeated_after v.short_at_ms values

  unfoldable pub remap_samples_to_short :
      List (VisualCropSample D) → List SourceRange → List (RemappedSample D)
  remap_samples_to_short samples ranges =
      unrepeated (sort not_after (remapped_from 0 ranges samples))
