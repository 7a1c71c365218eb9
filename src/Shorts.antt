-- ===== src/Shorts.antt =====
-- src/core/repository.ts: the edits of a Short and its approval, with the checks at the end of that file.
-- A transaction that throws is rolled back. The table `short_projects` has unique ids, so `getShort`
-- before and after an update meets one row.
pub mod Revision
pub mod Invalidation
use Prim.Native.String.{String}
use short_editor.Prelude.{
  ℕ, ◌+◌, ◌==◌, if◌then◌else◌, Bool, true, false, not, ◌&&◌, ◌||◌, leb, ltb, List, [], ◌∷◌, Option,
  none, some, find, any, all, update_where, or_else, is_some,
}
use short_editor.Content.{
  SourceRange, CropFrame, CropControl, VideoLayer, Layer, video, other, Composition, CaptionState,
  AudioState, CopyPackage,
}
use short_editor.Timeline.{source_ranges_ok, output_duration}
use short_editor.Store.{
  Db, Short, Render, RenderState, Episode, EpisodeStatus, ScheduleEntry, EntryStatus, CopyState,
  CopySource, ErrorCode, revision_conflict, not_found, validation_error, invalid_state,
  source_missing, Result, ok, fail, ◌>>=◌, ◌>>◌, require, found_or,
}

abbrev pub short_has_id : ℕ → Short → Bool
short_has_id id s = s.id == id

unfoldable pub get_short : Db → ℕ → Result Short
get_short db id = found_or (find (short_has_id id) db.shorts) not_found

abbrev pub episode_has_id : ℕ → Episode → Bool
episode_has_id id e = e.id == id

unfoldable pub get_episode : Db → ℕ → Result Episode
get_episode db id = found_or (find (episode_has_id id) db.episodes) not_found

-- `controls.every((control) => control.atMs <= durationMs)`, for both tracks of each video layer.
abbrev pub layer_fits : ℕ → Layer → Bool
layer_fits limit (other n) = true
layer_fits limit (video layer) =
    all (λ (f : CropFrame). leb f.at_ms limit) layer.automatic
    && all (λ (c : CropControl). leb c.at_ms limit) layer.manual

unfoldable pub crop_times_ok : Composition → ℕ → Bool
crop_times_ok composition limit = all (layer_fits limit) composition.layers

unfoldable pub validate_composition_crop_times : Composition → ℕ → Result (Unit {0})
unfolding crop_times_ok
validate_composition_crop_times composition limit =
    require (crop_times_ok composition limit) validation_error

abbrev pub is_source_missing : EpisodeStatus → Bool
is_source_missing EpisodeStatus.source_missing = true
is_source_missing _ = false

unfoldable pub assert_source_available : Episode → Result (Unit {0})
assert_source_available e =
    require (not (e.missing || is_source_missing e.status)) ErrorCode.source_missing

unfoldable pub validate_source_ranges : List SourceRange → Option ℕ → Result (Unit {0})
validate_source_ranges ranges none = fail invalid_state
validate_source_ranges ranges (some limit) = do
  require (source_ranges_ok ranges) validation_error
  require (all (λ (r : SourceRange). leb r.end_ms limit) ranges) validation_error

abbrev pub is_succeeded : RenderState → Bool
is_succeeded RenderState.succeeded = true
is_succeeded _ = false

abbrev pub is_published : EntryStatus → Bool
is_published EntryStatus.published = true
is_published _ = false

abbrev pub staled : ℕ → Render → Render
staled now r = record r { state = RenderState.stale; updated_at = now }

-- `UPDATE renders SET state='stale' WHERE short_id=? AND state='succeeded' AND ...`
abbrev pub stale_renders : ℕ → (Render → Bool) → ℕ → List Render → List Render
stale_renders short_id extra now =
    update_where (λ r. r.short_id == short_id && is_succeeded r.state && extra r) (staled now)

abbrev pub needing_rerender : ℕ → ScheduleEntry → ScheduleEntry
needing_rerender now e = record e {
  needs_rerender = true;
  updated_at = now;
  revision = e.revision + 1;
}

-- `WHERE short_id=? AND status<>'published'`
abbrev pub flag_entries : ℕ → ℕ → List ScheduleEntry → List ScheduleEntry
flag_entries short_id now =
    update_where (λ e. e.short_id == short_id && not (is_published e.status)) (needing_rerender now)

-- `WHERE id=? AND revision=?`
abbrev pub at_revision : ℕ → ℕ → Short → Bool
at_revision id revision s = short_has_id id s && s.revision == revision

pub record ShortPatch : Type 0 where
  pub composition : Option Composition
  pub copy : Option CopyPackage
  pub title : Option String
  pub captions : Option CaptionState
  pub audio : Option AudioState
  pub copy_state : Option CopyState
  pub copy_source : Option CopySource

abbrev pub render_affecting : ShortPatch → Bool
render_affecting patch = is_some patch.composition || is_some patch.captions || is_some patch.audio

abbrev pub patched : ShortPatch → ℕ → Short → Short
patched patch now s = record s {
  title = or_else patch.title s.title;
  composition = or_else patch.composition s.composition;
  captions = or_else patch.captions s.captions;
  audio = or_else patch.audio s.audio;
  copy = or_else patch.copy s.copy;
  copy_state =
      if is_some patch.copy then or_else patch.copy_state CopyState.accepted else s.copy_state;
  copy_source =
      if is_some patch.copy
      then or_else patch.copy_source CopySource.user_accepted
      else s.copy_source;
  approved = if render_affecting patch then false else s.approved;
  revision = s.revision + 1;
  updated_at = now;
}

abbrev pub check_composition : Option Composition → Short → Result (Unit {0})
check_composition none s = ok tt
check_composition (some composition) s =
    validate_composition_crop_times composition (output_duration s.source_ranges)

-- The row at the expected revision is written, or the update is a conflict.
unfoldable pub write_short : Db → ℕ → ℕ → (Short → Short) → Result Db
write_short db id revision f = do
  require (any (at_revision id revision) db.shorts) revision_conflict
  ok (record db { shorts = update_where (at_revision id revision) f db.shorts })

unfoldable pub invalidate : ℕ → (Render → Bool) → ℕ → Db → Db
invalidate id extra now db = record db {
  renders = stale_renders id extra now db.renders;
  entries = flag_entries id now db.entries;
}

unfoldable pub update_short : Db → ℕ → ℕ → ShortPatch → ℕ → Result (Db × Short)
update_short db id expected patch now = do
  current ← get_short db id
  require (current.revision == expected) revision_conflict
  check_composition patch.composition current
  let next = patched patch now current
  written ← write_short db id expected (λ _. next)
  ok (
    if render_affecting patch
        then invalidate id (λ r. not (r.project_revision == next.revision)) now written
        else written,
    next,
  )

unfoldable pub update_short_timeline : Db → ℕ → ℕ → List SourceRange → ℕ → Result (Db × Short)
update_short_timeline db id expected ranges now = do
  current ← get_short db id
  require (current.revision == expected) revision_conflict
  episode ← get_episode db current.episode_id
  assert_source_available episode
  validate_source_ranges ranges episode.duration_ms
  validate_composition_crop_times current.composition (output_duration ranges)
  written ← write_short db id expected (λ s. record s {
    source_ranges = ranges;
    approved = false;
    revision = current.revision + 1;
    updated_at = now;
  })
  let next = invalidate id (λ _. true) now written
  short ← get_short next id
  ok (next, short)

abbrev pub edited_part : (Short → Short) → ℕ → ℕ → Short → Short
edited_part set expected now s =
    let t = set s in record t { approved = false; revision = expected + 1; updated_at = now }

-- `updateShortCaptions` and `updateShortAudio` differ in the column that they set.
unfoldable pub update_short_part : Db → ℕ → ℕ → (Short → Short) → ℕ → Result (Db × Short)
update_short_part db id expected set now = do
  current ← get_short db id
  require (current.revision == expected) revision_conflict
  written ← write_short db id expected (edited_part set expected now)
  let next = invalidate id (λ r. ltb r.project_revision (expected + 1)) now written
  short ← get_short next id
  ok (next, short)

unfoldable pub update_short_captions : Db → ℕ → ℕ → CaptionState → ℕ → Result (Db × Short)
unfolding update_short_part
update_short_captions db id expected captions now =
    update_short_part db id expected (λ s. record s { captions = captions }) now

unfoldable pub update_short_audio : Db → ℕ → ℕ → AudioState → ℕ → Result (Db × Short)
unfolding update_short_part
update_short_audio db id expected audio now =
    update_short_part db id expected (λ s. record s { audio = audio }) now

abbrev pub is_accepted : CopyState → Bool
is_accepted CopyState.accepted = true
is_accepted CopyState.proposed = false

unfoldable pub approve_short : Db → ℕ → ℕ → ℕ → Result (Db × Short)
approve_short db id expected now = do
  current ← get_short db id
  require (current.revision == expected) revision_conflict
  require (not current.approved) invalid_state
  require (is_accepted current.copy_state) invalid_state
  episode ← get_episode db current.episode_id
  assert_source_available episode
  validate_source_ranges current.source_ranges episode.duration_ms
  require (any (λ s. at_revision id expected s && not s.approved) db.shorts) revision_conflict
  let next = record db {
    shorts =
        update_where (λ s. at_revision id expected s && not s.approved)
          (λ s. record s { approved = true; revision = s.revision + 1; updated_at = now })
          db.shorts;
  }
  short ← get_short next id
  ok (next, short)
