-- ===== src/Schedule/Entries.antt =====
-- src/core/repository.ts, `getScheduleEntry` and `updateScheduleEntry`. The columns `timezone` and
-- `rationale`, which no condition reads, are left out.
use Prim.Native.String.{String}
use short_editor.Prelude.{
  ℕ, ◌+◌, ◌==◌, Bool, true, false, not, ◌&&◌, ◌||◌, List, Option, none, some, find, any,
  update_where, or_else, is_some,
}
use short_editor.Store.{
  Db, ScheduleEntry, EntryStatus, not_found, revision_conflict, invalid_state, schedule_collision,
  Result, ok, ◌>>=◌, ◌>>◌, require, found_or,
}
use short_editor.Shorts.{is_published}

abbrev pub entry_has_id : ℕ → ScheduleEntry → Bool
entry_has_id id e = e.id == id

unfoldable pub get_schedule_entry : Db → ℕ → Result ScheduleEntry
get_schedule_entry db id = found_or (find (entry_has_id id) db.entries) not_found

-- The fields that a patch gives; `youtube_url` may be given as `null`.
pub record EntryPatch : Type 0 where
  pub publish_at : Option ℕ
  pub status : Option EntryStatus
  pub priority : Option ℕ
  pub youtube_url : Option (Option String)

abbrev pub is_planned : EntryStatus → Bool
is_planned EntryStatus.planned = true
is_planned _ = false

abbrev pub is_draft : EntryStatus → Bool
is_draft EntryStatus.draft = true
is_draft _ = false

abbrev pub publishes : Option EntryStatus → Bool
publishes none = false
publishes (some s) = is_published s

abbrev pub patched_entry : EntryPatch → ℕ → ScheduleEntry → ScheduleEntry
patched_entry patch now e = record e {
  publish_at = or_else patch.publish_at e.publish_at;
  status = or_else patch.status e.status;
  priority = or_else patch.priority e.priority;
  youtube_url = or_else patch.youtube_url e.youtube_url;
  locked = is_published (or_else patch.status e.status);
  revision = e.revision + 1;
  updated_at = now;
}

-- `WHERE id=? AND revision=? AND locked=0`
abbrev pub is_unlocked_at : ℕ → ℕ → ScheduleEntry → Bool
is_unlocked_at id revision e = entry_has_id id e && e.revision == revision && not e.locked

-- `schedule_publish_slot_idx`, the unique index on `publish_at`, refuses the instant.
abbrev pub is_taken : ℕ → ℕ → List ScheduleEntry → Bool
is_taken id instant entries =
    any (λ (e : ScheduleEntry). not (entry_has_id id e) && e.publish_at == instant) entries

unfoldable pub update_schedule_entry : Db → ℕ → ℕ → EntryPatch → ℕ → Result (Db × ScheduleEntry)
update_schedule_entry db id expected patch now = do
  current ← get_schedule_entry db id
  require (current.revision == expected) revision_conflict
  require (not current.locked) invalid_state
  require (not (publishes patch.status && current.needs_rerender)) invalid_state
  require (not (is_planned current.status && is_draft (or_else patch.status current.status)))
      invalid_state
  let next = patched_entry patch now current
  require (is_published next.status || not (is_some next.youtube_url)) invalid_state
  require (any (is_unlocked_at id expected) db.entries) revision_conflict
  require (not (is_taken id next.publish_at db.entries)) schedule_collision
  ok (
    record db { entries = update_where (is_unlocked_at id expected) (λ _. next) db.entries },
    next,
  )
