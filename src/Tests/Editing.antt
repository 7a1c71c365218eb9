-- ===== src/Tests/Editing.antt =====
-- Runs of the edits of a Short, of its timeline and its undo history, and of artifact paths.
use native.Mathlib.Decide.{ℕ_discrete}
use short_editor.Prelude.{
  ℕ, ◌-◌, ◌≤◌, ◌≡◌, ◌≢◌, ◌↔◌, refl, true, false, List, [], ◌∷◌, ◌++◌, none, some, arith,
}
use short_editor.Content.{SourceRange}
use short_editor.Store.{Db, Short, RenderState, EntryStatus}
use short_editor.Shorts.{
  get_short, get_episode, update_short, update_short_timeline, write_short, invalidate,
  assert_source_available, validate_source_ranges, validate_composition_crop_times, crop_times_ok,
}
use short_editor.Shorts.Revision.{Edit, patches, sets_timeline, apply_edit, Edited, edit-Edited}
use short_editor.Shorts.Invalidation.{NoneSucceeded, AllFlagged, AreBounded, edit_invalidates}
use short_editor.Timeline.{
  source_ranges_ok, output_duration, map_output_to_source, containing_range, map_cue, Cue,
  normalize_after,
}
use short_editor.Timeline.Lines.{IsNormalized}
use short_editor.Timeline.Checks.{IsTimeline, source_ranges_ok_iff}
use short_editor.Timeline.Mapping.{map_cue-map_output}
use short_editor.Timeline.Landing.{Landing, map_output-Landing}
use short_editor.History.{History, push_history, undo_history, redo_history, history_content}
use short_editor.History.Laws.{IsValid, undo-push}
use short_editor.Paths.{Text, artifacts, portable, validate_owned_relative_path}
use short_editor.Paths.Laws.{IsOwned, validate-IsOwned}
use short_editor.Tests.{one_range, sample_short, sample_render, sample_entry, short_db}

editor : Unit {0}
unfolding apply_edit update_short update_short_timeline write_short invalidate get_short get_episode
    assert_source_available validate_source_ranges validate_composition_crop_times crop_times_ok
    source_ranges_ok output_duration
editor = tt

abbrev second_range : SourceRange
second_range = record { start_ms = 9000; end_ms = 12000 }

abbrev two_ranges : List SourceRange
two_ranges = one_range ∷ second_range ∷ []

abbrev retimed : Edit
retimed = sets_timeline two_ranges

abbrev approved_short : Short
approved_short = sample_short 2 true

abbrev retimed_short : Short
retimed_short = record approved_short {
  source_ranges = two_ranges;
  approved = false;
  revision = 3;
  updated_at = 50;
}

abbrev retimed_db : Db
retimed_db = record short_db {
  shorts = retimed_short ∷ [];
  renders = record (sample_render 10 1 RenderState.stale) { updated_at = 50 } ∷ [];
  entries =
      record (sample_entry 1 500 EntryStatus.planned false) {
        needs_rerender = true;
        updated_at = 50;
        revision = 2;
      }
      ∷ [];
}

edit-Edited_example : Edited short_db retimed_db 1 2 approved_short retimed_short false
unfolding editor
edit-Edited_example =
    edit-Edited short_db retimed_db 1 2 retimed 50 approved_short retimed_short refl refl

short_db-AreBounded : AreBounded 1 2 short_db.renders
short_db-AreBounded = ((λ own. omega arith), tt)

edit_invalidates_example :
    (retimed_short.approved ≡ false)
    × NoneSucceeded 1 retimed_db.renders
    × AllFlagged 1 retimed_db.entries
unfolding editor
edit_invalidates_example =
    edit_invalidates short_db retimed_db 1 2 retimed 50 approved_short retimed_short refl refl refl
      short_db-AreBounded

-- A new title.
abbrev retitled : Edit
retitled = patches (record {
  composition = none;
  copy = none;
  title = some "Other";
  captions = none;
  audio = none;
  copy_state = none;
  copy_source = none;
})

abbrev retitled_short : Short
retitled_short = record approved_short { title = "Other"; revision = 3; updated_at = 50 }

abbrev retitled_db : Db
retitled_db = record short_db { shorts = retitled_short ∷ [] }

source_ranges_ok_iff_example :
    (source_ranges_ok two_ranges ≡ true) ↔ ((two_ranges ≢ []) × IsTimeline 0 two_ranges)
source_ranges_ok_iff_example = source_ranges_ok_iff two_ranges

abbrev cue : Cue
cue = record { id = 4; start_ms = 9500; end_ms = 10500; text = b'h' ∷ 13 ∷ 10 ∷ b'i' ∷ [] }

abbrev mapped_cue : Cue
mapped_cue = record cue { start_ms = 5500; end_ms = 6500; text = b'h' ∷ 10 ∷ b'i' ∷ [] }

map_cue-map_output_example :
    (mapped_cue.id ≡ cue.id)
    × IsNormalized cue.text mapped_cue.text
    × (mapped_cue.end_ms - mapped_cue.start_ms ≡ cue.end_ms - cue.start_ms)
    × (mapped_cue.end_ms ≤ output_duration two_ranges)
    × (map_output_to_source two_ranges mapped_cue.start_ms
        ≡ record { source_at_ms = cue.start_ms; range_index = 1 })
unfolding source_ranges_ok containing_range map_cue normalize_after
map_cue-map_output_example =
    map_cue-map_output two_ranges cue mapped_cue (record { index = 1; value = second_range }) refl
      (omega arith) refl refl

map_output-Landing_example : Landing 0 0 7000 two_ranges (map_output_to_source two_ranges 7000)
unfolding source_ranges_ok
map_output-Landing_example = map_output-Landing two_ranges 7000 refl

abbrev edited : History ℕ
edited = record { entries = 1 ∷ 2 ∷ 3 ∷ []; index = 1 }

edited-IsValid : IsValid edited
edited-IsValid = record { index_in_range = omega arith }

undo-push_example :
    let pushed = push_history ℕ_discrete edited 7 false in
    (history_content (undo_history pushed) ≡ history_content edited)
    × (redo_history (undo_history pushed) ≡ pushed)
    × (redo_history pushed ≡ pushed)
unfolding ℕ_discrete
undo-push_example = undo-push ℕ_discrete edited 7 edited-IsValid refl

-- "artifacts\r/x"
abbrev mixed : Text
mixed = artifacts ++ b'\\' ∷ b'r' ∷ b'/' ∷ b'x' ∷ []

abbrev normalized : Text
normalized = artifacts ++ b'/' ∷ b'r' ∷ b'/' ∷ b'x' ∷ []

validate-IsOwned_example : (normalized ≡ portable mixed) × IsOwned normalized
unfolding validate_owned_relative_path
validate-IsOwned_example = validate-IsOwned mixed normalized refl
