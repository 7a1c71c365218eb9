-- ===== src/Editor/Saving.antt =====
-- src/ui/editor-state.ts, `mergeCanonicalSave`: what an edit in progress keeps when a section is saved.
use short_editor.Prelude.{
  ℕ, ◌≡◌, refl, if◌then◌else◌, Bool, true, false, not, ◌&&◌, List, [], ◌∷◌, arith, all, leb,
  &&_both, Bool-cases, inl, inr,
}
use short_editor.Content.{Composition, CropFrame, CropControl, Layer, video, other}
use short_editor.Store.{Short}
use short_editor.Editor.{
  EditorSection, EditorContent, content_from_short, same_section, has_section, take_section,
  take_sections, without_sidecars, merge_canonical_save, controls_past, past_controls_of,
  crop_controls_past_duration,
}
use short_editor.Shorts.{layer_fits, crop_times_ok}

-- Whether the loop takes a section from the draft before the save.
abbrev pub is_kept : EditorSection → List EditorSection → EditorSection → Bool
is_kept saved dirty s = has_section dirty s && not (same_section s saved)

abbrev HasTaken :
    EditorContent → EditorSection → List EditorSection → EditorContent → EditorContent → Type 0
HasTaken prior saved dirty draft c =
    (c.source_ranges ≡ (
      if is_kept saved dirty EditorSection.timeline
      then prior.source_ranges
      else draft.source_ranges))
    × (c.composition ≡ (
        if is_kept saved dirty EditorSection.composition
        then prior.composition
        else draft.composition))
    × (c.captions
        ≡ (if is_kept saved dirty EditorSection.captions then prior.captions else draft.captions))
    × (c.audio ≡ (if is_kept saved dirty EditorSection.audio then prior.audio else draft.audio))

skipped-HasTaken :
    (prior : EditorContent) (saved s : EditorSection) (ss : List EditorSection)
    (draft c : EditorContent)
    → same_section s saved ≡ true
    → HasTaken prior saved ss draft c
    → HasTaken prior saved (s ∷ ss) draft c
skipped-HasTaken prior saved EditorSection.timeline ss draft c same (r, m, k, a) =
    (ground arith, m, k, a)
skipped-HasTaken prior saved EditorSection.composition ss draft c same (r, m, k, a) =
    (r, ground arith, k, a)
skipped-HasTaken prior saved EditorSection.captions ss draft c same (r, m, k, a) =
    (r, m, ground arith, a)
skipped-HasTaken prior saved EditorSection.audio ss draft c same (r, m, k, a) =
    (r, m, k, ground arith)

taken-HasTaken :
    (prior : EditorContent) (saved s : EditorSection) (ss : List EditorSection)
    (draft c : EditorContent)
    → same_section s saved ≡ false
    → HasTaken prior saved ss (take_section prior s draft) c
    → HasTaken prior saved (s ∷ ss) draft c
taken-HasTaken prior saved EditorSection.timeline ss draft c differs (r, m, k, a) =
    (ground arith, m, k, a)
taken-HasTaken prior saved EditorSection.composition ss draft c differs (r, m, k, a) =
    (r, ground arith, k, a)
taken-HasTaken prior saved EditorSection.captions ss draft c differs (r, m, k, a) =
    (r, m, ground arith, a)
taken-HasTaken prior saved EditorSection.audio ss draft c differs (r, m, k, a) =
    (r, m, k, ground arith)

take_sections-HasTaken :
    (prior : EditorContent) (saved : EditorSection) (dirty : List EditorSection)
    (draft : EditorContent)
    → HasTaken prior saved dirty draft (take_sections prior saved dirty draft)
unfolding take_sections
take_sections-HasTaken prior saved [] draft = (refl, refl, refl, refl)
take_sections-HasTaken prior saved (s ∷ ss) draft = elim (Bool-cases (same_section s saved)) [
  | inl same ↦
      rw (same, take_sections)
        (skipped-HasTaken prior saved s ss draft _ same
          (take_sections-HasTaken prior saved ss draft))
  | inr differs ↦
      rw (differs, take_sections)
        (taken-HasTaken prior saved s ss draft _ differs
          (take_sections-HasTaken prior saved ss (take_section prior s draft)))
]

-- The draft after a save of `saved`, section by section.
pub record HasMerged (prior : EditorContent) (canonical : Short) (saved : EditorSection)
    (dirty : List EditorSection) (draft : EditorContent) : Type 0 where
  pub source_ranges : draft.source_ranges ≡ (
      if is_kept saved dirty EditorSection.timeline
      then prior.source_ranges
      else canonical.source_ranges)
  pub composition : draft.composition ≡ (
      if is_kept saved dirty EditorSection.composition
      then prior.composition
      else canonical.composition)
  pub captions : draft.captions ≡ (
      if same_section saved EditorSection.timeline
      then (if has_section dirty EditorSection.captions
          then prior.captions
          else without_sidecars prior.captions)
      else if is_kept saved dirty EditorSection.captions
      then prior.captions
      else canonical.captions)
  pub audio :
      draft.audio
      ≡ (if is_kept saved dirty EditorSection.audio then prior.audio else canonical.audio)

-- A save merges into the draft what the editor has not saved: a section that was dirty, other than the
-- one saved, stays as it was in the draft, and any other is as the Short now has it. After a save of
-- the timeline the captions are those of the draft, without sidecars where they were not dirty.
pub merge_canonical_save-HasMerged :
    (prior : EditorContent) (canonical : Short) (saved : EditorSection) (dirty : List EditorSection)
    → HasMerged prior canonical saved dirty (merge_canonical_save prior canonical saved dirty).draft
unfolding merge_canonical_save
merge_canonical_save-HasMerged prior canonical saved dirty =
    let (r, m, k, a) = take_sections-HasTaken prior saved dirty (content_from_short canonical) in
    elim (Bool-cases (same_section saved EditorSection.timeline)) [
      | inl timed ↦ record {
        source_ranges = rw timed r;
        composition = rw timed m;
        captions = rw timed refl;
        audio = rw timed a;
      }
      | inr untimed ↦ record {
        source_ranges = rw untimed r;
        composition = rw untimed m;
        captions = rw untimed k;
        audio = rw untimed a;
      }
    ]

no_past_controls :
    (limit : ℕ) (layer_id : ℕ) (cs : List CropControl)
    → all (λ (c : CropControl). leb c.at_ms limit) cs ≡ true
    → controls_past limit layer_id cs ≡ []
no_past_controls limit layer_id [] h = refl
no_past_controls limit layer_id (c ∷ cs) h = ground (arith, no_past_controls limit layer_id cs)

no_past_controls_of :
    (limit : ℕ) (layers : List Layer)
    → all (layer_fits limit) layers ≡ true
    → past_controls_of limit layers ≡ []
no_past_controls_of limit [] h = refl
no_past_controls_of limit (other n ∷ layers) h = no_past_controls_of limit layers h
no_past_controls_of limit (video v ∷ layers) h =
    let (fits, rest) = &&_both (layer_fits limit (video v)) (all (layer_fits limit) layers) h in
    let (frames, controls) =
      &&_both (all (λ (f : CropFrame). leb f.at_ms limit) v.automatic)
        (all (λ (c : CropControl). leb c.at_ms limit) v.manual) fits in
    rw (no_past_controls limit v.id v.manual controls) (no_past_controls_of limit layers rest)

-- Where the repository accepts the crop times of a composition for a duration, the editor lists no
-- manual crop control past it.
crop_times_ok-crop_controls_past_duration :
    (c : Composition) (limit : ℕ)
    → crop_times_ok c limit ≡ true
    → crop_controls_past_duration c limit ≡ []
unfolding crop_times_ok crop_controls_past_duration
crop_times_ok-crop_controls_past_duration c limit h = no_past_controls_of limit c.layers h
