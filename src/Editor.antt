-- ===== src/Editor.antt =====
-- src/ui/editor-state.ts: `contentFromShort`, `dirtySections`, `mergeCanonicalSave` and
-- `cropControlsPastDuration`. A set of sections is the list of its members in the order of insertion.
pub mod Saving
use native.Mathlib.Decide.{ℕ_discrete}
use short_editor.Prelude.{
  ℕ, ◌==◌, ◌≡◌, if◌then◌else◌, Bool, true, false, not, ltb, List, [], ◌∷◌, ◌++◌, Option, none, some,
  any, select, map,
}
use short_editor.Content.{
  SourceRange, CropControl, VideoLayer, Layer, video, other, Composition, Sidecars, CaptionState,
  AudioState, SourceRange-discrete, Composition-discrete, CaptionState-discrete,
}
use short_editor.Store.{Short}

pub data EditorSection : Type 0 where
  timeline composition captions audio : EditorSection

pub record EditorContent : Type 0 where
  pub source_ranges : List SourceRange
  pub composition : Composition
  pub captions : CaptionState
  pub audio : AudioState

abbrev pub content_from_short : Short → EditorContent
content_from_short s = record {
  source_ranges = s.source_ranges;
  composition = s.composition;
  captions = s.captions;
  audio = s.audio;
}

abbrev pub section_code : EditorSection → ℕ
section_code EditorSection.timeline = 0
section_code EditorSection.composition = 1
section_code EditorSection.captions = 2
section_code EditorSection.audio = 3

abbrev pub same_section : EditorSection → EditorSection → Bool
same_section a b = section_code a == section_code b

abbrev pub has_section : List EditorSection → EditorSection → Bool
has_section sections s = any (same_section s) sections

-- `equal`, as a decision.
abbrev pub equal : {A : Type 0} → Discrete A → A → A → Bool
equal dec a b = elim (dec a b) [ yes same ↦ true | no differs ↦ false ]

abbrev pub unless : Bool → EditorSection → List EditorSection
unless test s = if test then [] else s ∷ []

unfoldable pub dirty_sections : EditorContent → EditorContent → List EditorSection
dirty_sections baseline draft =
    unless (equal SourceRange-discrete baseline.source_ranges draft.source_ranges)
      EditorSection.timeline
    ++ unless (equal Composition-discrete baseline.composition draft.composition)
        EditorSection.composition
    ++ unless (equal CaptionState-discrete baseline.captions draft.captions) EditorSection.captions
    ++ unless (equal ℕ_discrete baseline.audio draft.audio) EditorSection.audio

abbrev pub take_section : EditorContent → EditorSection → EditorContent → EditorContent
take_section prior EditorSection.timeline draft = record draft {
  source_ranges = prior.source_ranges;
}
take_section prior EditorSection.composition draft = record draft {
  composition = prior.composition;
}
take_section prior EditorSection.captions draft = record draft { captions = prior.captions }
take_section prior EditorSection.audio draft = record draft { audio = prior.audio }

-- The loop over the sections that were dirty.
unfoldable pub take_sections :
    EditorContent → EditorSection → List EditorSection → EditorContent → EditorContent
take_sections prior saved [] draft = draft
take_sections prior saved (s ∷ ss) draft =
    take_sections prior saved ss
      (if same_section s saved then draft else take_section prior s draft)

abbrev pub without_sidecars : CaptionState → CaptionState
without_sidecars c = record c { sidecars = record { srt = none; webvtt = none } }

abbrev pub after_timeline : EditorContent → List EditorSection → EditorContent → EditorContent
after_timeline prior dirty draft = record draft {
  captions =
      if has_section dirty EditorSection.captions
      then prior.captions
      else without_sidecars prior.captions;
}

pub record Merged : Type 0 where
  pub baseline : EditorContent
  pub draft : EditorContent

unfoldable pub merge_canonical_save :
    EditorContent → Short → EditorSection → List EditorSection → Merged
merge_canonical_save prior canonical saved dirty =
    let draft = take_sections prior saved dirty (content_from_short canonical) in
    record {
      baseline = content_from_short canonical;
      draft =
          if same_section saved EditorSection.timeline
          then after_timeline prior dirty draft
          else draft;
    }

pub record PastControl : Type 0 where
  pub layer_id : ℕ
  pub control_id : ℕ
  pub at_ms : ℕ

abbrev pub controls_past : ℕ → ℕ → List CropControl → List PastControl
controls_past limit layer_id [] = []
controls_past limit layer_id (c ∷ cs) =
    let rest = controls_past limit layer_id cs in
    if ltb limit c.at_ms
    then record { layer_id = layer_id; control_id = c.id; at_ms = c.at_ms } ∷ rest
    else rest

abbrev pub past_controls : ℕ → Layer → List PastControl
past_controls limit (other n) = []
past_controls limit (video layer) = controls_past limit layer.id layer.manual

abbrev pub past_controls_of : ℕ → List Layer → List PastControl
past_controls_of limit [] = []
past_controls_of limit (layer ∷ layers) = past_controls limit layer ++ past_controls_of limit layers

unfoldable pub crop_controls_past_duration : Composition → ℕ → List PastControl
crop_controls_past_duration c limit = past_controls_of limit c.layers
