-- ===== src/Tests/Saves.antt =====
-- Runs of the editor's saves.
use short_editor.Prelude.{◌≡◌, refl, false, List, [], ◌∷◌}
use short_editor.Content.{Composition, video, CropMode}
use short_editor.Editor.{
  EditorSection, EditorContent, merge_canonical_save, take_sections, content_from_short,
}
use short_editor.Editor.Saving.{HasMerged, merge_canonical_save-HasMerged}
use short_editor.Tests.{sample_short}

-- Timeline and audio were edited, and the timeline is saved.
abbrev drafted_content : EditorContent
drafted_content = record (content_from_short (sample_short 2 false)) {
  source_ranges = [];
  audio = 6;
}

abbrev edited_sections : List EditorSection
edited_sections = EditorSection.timeline ∷ EditorSection.audio ∷ []

audio_kept_test :
    (merge_canonical_save drafted_content
      (sample_short 3 false)
      EditorSection.timeline
      edited_sections).draft.audio
    ≡ 6
unfolding merge_canonical_save take_sections
audio_kept_test = refl

merge_canonical_save-HasMerged_example :
    HasMerged drafted_content
      (sample_short 3 false)
      EditorSection.timeline
      edited_sections
      (merge_canonical_save drafted_content
        (sample_short 3 false)
        EditorSection.timeline
        edited_sections).draft
merge_canonical_save-HasMerged_example =
    merge_canonical_save-HasMerged drafted_content (sample_short 3 false) EditorSection.timeline
      edited_sections

abbrev cropped : Composition
cropped = record {
  layers =
      video (record {
        id = 1;
        automatic = [];
        manual = record { id = 2; at_ms = 400; mode = CropMode.crop; rectangle = 0 } ∷ [];
        settings = 0;
      })
      ∷ [];
  canvas = 0;
}
