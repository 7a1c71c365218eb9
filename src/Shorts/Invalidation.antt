-- ===== src/Shorts/Invalidation.antt =====
-- src/core/repository.ts: what an edit of a Short does to its approval, its Renders and its entries in
-- the schedule.
use short_editor.Prelude.{
  ℕ, ◌+◌, ◌≤◌, ◌≡◌, refl, ◌∙◌, ◌≢◌, Bool, true, false, not, ◌&&◌, List, arith, All,
  All-update_where_from, All-update_where_any, ◌==◌, ltb,
}
use short_editor.Store.{Db, Short, Render, RenderState, ScheduleEntry, EntryStatus, ok}
use short_editor.Shorts.{
  get_short, render_affecting, update_short, update_short_timeline, update_short_captions,
  update_short_audio, approve_short, write_short, invalidate, stale_renders, flag_entries,
  is_succeeded, is_published, needing_rerender, staled,
}
use short_editor.Shorts.Revision.{
  Edit, patches, sets_timeline, sets_captions, sets_audio, approves, apply_edit, approval,
  edit-Edited,
}

-- Edits after which an earlier Render no longer shows the Short.
abbrev pub affects_render : Edit → Bool
affects_render (patches patch) = render_affecting patch
affects_render (sets_timeline ranges) = true
affects_render (sets_captions captions) = true
affects_render (sets_audio audio) = true
affects_render approves = false

-- Renders of the Short were made at its revision or before.
abbrev pub AreBounded : ℕ → ℕ → List Render → Type 0
AreBounded id revision = All (λ r. r.short_id ≡ id → r.project_revision ≤ revision)

-- No Render of the Short counts as its result.
abbrev pub NoneSucceeded : ℕ → List Render → Type 0
NoneSucceeded id = All (λ r. r.short_id ≡ id → r.state ≢ RenderState.succeeded)

-- Each entry of the Short that is not published yet asks for a new Render.
abbrev pub AllFlagged : ℕ → List ScheduleEntry → Type 0
AllFlagged id =
    All (λ e. e.short_id ≡ id → e.status ≢ EntryStatus.published → e.needs_rerender ≡ true)

module _ (id : ℕ) (extra : Render → Bool) (now : ℕ) where
  stale_renders-NoneSucceeded :
      (renders : List Render) (revision : ℕ)
      → ((r : Render) → r.project_revision ≤ revision → extra r ≡ true)
      → AreBounded id revision renders
      → NoneSucceeded id (stale_renders id extra now renders)
  stale_renders-NoneSucceeded renders revision covers bounded =
      All-update_where_from (λ r. r.short_id ≡ id → r.project_revision ≤ revision)
        (λ r. r.short_id ≡ id → r.state ≢ RenderState.succeeded) _ (staled now) renders
        (λ r hit b. (λ own. (λ t. cc))) (λ r miss b. kept r miss b) bounded
    where
      kept :
          (r : Render)
          → r.short_id == id && is_succeeded r.state && extra r ≡ false
          → (r.short_id ≡ id → r.project_revision ≤ revision)
          → r.short_id ≡ id
          → r.state ≢ RenderState.succeeded
      kept r miss b own t = let c = covers r (b own) in ground arith

flag_entries-AllFlagged :
    (id now : ℕ) (entries : List ScheduleEntry) → AllFlagged id (flag_entries id now entries)
flag_entries-AllFlagged id now entries =
    All-update_where_any
      (λ e. e.short_id ≡ id → e.status ≢ EntryStatus.published → e.needs_rerender ≡ true) _
      (needing_rerender now) entries (λ e hit. (λ own pending. refl)) (λ e miss. missed e miss)
  where
    missed :
        (e : ScheduleEntry)
        → e.short_id == id && not (is_published e.status) ≡ false
        → e.short_id ≡ id
        → e.status ≢ EntryStatus.published
        → e.needs_rerender ≡ true
    missed e miss own pending = ground arith

-- What an edit does outside the table of the Shorts.
edit-effects :
    (db next : Db) (id expected : ℕ) (e : Edit) (now : ℕ) (s : Short)
    → apply_edit db id expected e now ≡ ok (next, s)
    → affects_render e ≡ true
    → (extra : Render → Bool) × ((r : Render) → r.project_revision ≤ expected → extra r ≡ true)
      × (next.renders ≡ stale_renders id extra now db.renders)
      × (next.entries ≡ flag_entries id now db.entries)
unfolding apply_edit update_short update_short_timeline update_short_captions update_short_audio
    invalidate write_short
edit-effects db next id expected (patches patch) now s h a =
    (λ r. not (r.project_revision == expected + 1), λ r b. ground arith, ground arith, ground arith)
edit-effects db next id expected (sets_timeline ranges) now s h a =
    (λ r. true, λ r b. refl, ground arith, ground arith)
edit-effects db next id expected (sets_captions captions) now s h a =
    (λ r. ltb r.project_revision (expected + 1), λ r b. ground arith, ground arith, ground arith)
edit-effects db next id expected (sets_audio audio) now s h a =
    (λ r. ltb r.project_revision (expected + 1), λ r b. ground arith, ground arith, ground arith)
edit-effects db next id expected approves now s h a = cc

affects-approval :
    (e : Edit) (current : Short) → affects_render e ≡ true → approval e current ≡ false
affects-approval (patches patch) current a = rw a
affects-approval (sets_timeline ranges) current a = refl
affects-approval (sets_captions captions) current a = refl
affects-approval (sets_audio audio) current a = refl
affects-approval approves current a = cc

-- Where no Render of the Short was made at a later revision, an edit of timeline, composition,
-- captions or audio that goes through leaves the Short unapproved, none of its Renders succeeded,
-- and each of its entries in the schedule that is not published asking for a new Render.
pub edit_invalidates :
    (db next : Db) (id expected : ℕ) (e : Edit) (now : ℕ) (current s : Short)
    → get_short db id ≡ ok current
    → apply_edit db id expected e now ≡ ok (next, s)
    → affects_render e ≡ true
    → AreBounded id current.revision db.renders
    → (s.approved ≡ false) × NoneSucceeded id next.renders × AllFlagged id next.entries
edit_invalidates db next id expected e now current s h done a bounded =
    let (extra, covers, renders, entries) = edit-effects db next id expected e now s done a in
    let (matched, stored, revised, approved) =
      edit-Edited db next id expected e now current s h done in
    (
      approved ∙ affects-approval e current a,
      rw renders (
          stale_renders-NoneSucceeded id extra now db.renders current.revision
            (λ r b. covers r (rw (← matched) b)) bounded),
      rw entries (flag_entries-AllFlagged id now db.entries),
    )

-- An edit of copy or title, and the approval, leave every Render and every entry as it was.
edit_keeps :
    (db next : Db) (id expected : ℕ) (e : Edit) (now : ℕ) (s : Short)
    → apply_edit db id expected e now ≡ ok (next, s)
    → affects_render e ≡ false
    → (next.renders ≡ db.renders) × (next.entries ≡ db.entries)
unfolding apply_edit update_short approve_short write_short
edit_keeps db next id expected (patches patch) now s h a = ground arith
edit_keeps db next id expected (sets_timeline ranges) now s h a = cc
edit_keeps db next id expected (sets_captions captions) now s h a = cc
edit_keeps db next id expected (sets_audio audio) now s h a = cc
edit_keeps db next id expected approves now s h a = ground arith
