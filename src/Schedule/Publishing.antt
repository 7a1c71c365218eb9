-- ===== src/Schedule/Publishing.antt =====
-- src/core/repository.ts, `updateScheduleEntry`: the entries that are published.
use Prim.Native.String.{String}
use short_editor.Prelude.{
  ℕ, ◌==◌, ◌≡◌, refl, sym, ◌∙◌, ap, subst, Bool, true, false, not, ◌&&◌, ◌||◌, List, Option, none,
  some, arith, find, All, All-find, All-update_where, find-holds, find-update_where, update_where,
  or_else, is_some, ==→eq,
}
use short_editor.Store.{
  Db, ScheduleEntry, EntryStatus, not_found, revision_conflict, invalid_state, schedule_collision,
  ok, found_or, >>=-eq-ok, >>-eq-ok, found_or-eq-ok, ok-injective,
}
use short_editor.Shorts.{is_published, flag_entries, needing_rerender}
use short_editor.Schedule.Entries.{
  EntryPatch, entry_has_id, get_schedule_entry, update_schedule_entry, patched_entry, publishes,
  is_planned, is_draft, is_unlocked_at, is_taken,
}

pub record IsSoundEntry (e : ScheduleEntry) : Type 0 where
  pub locked_when_published : e.locked ≡ is_published e.status
  pub url_when_published : is_published e.status ≡ false → e.youtube_url ≡ none
  pub current_when_published : is_published e.status ≡ true → e.needs_rerender ≡ false

-- What an update that went through has found and done.
pub record Updated (db : Db) (id expected : ℕ) (patch : EntryPatch) (now : ℕ) (next : Db)
    (r : ScheduleEntry) : Type 0 where
  pub current : ScheduleEntry
  pub held : find (entry_has_id id) db.entries ≡ some current
  pub revision : current.revision ≡ expected
  pub unlocked : current.locked ≡ false
  pub rendered : publishes patch.status && current.needs_rerender ≡ false
  pub stays_planned : is_planned current.status && is_draft r.status ≡ false
  pub unpublished_url : is_published r.status ≡ false → r.youtube_url ≡ none
  pub free : is_taken id r.publish_at db.entries ≡ false
  pub result : r ≡ patched_entry patch now current
  pub written :
      next ≡ record db { entries = update_where (is_unlocked_at id expected) (λ _. r) db.entries }

negated : (b : Bool) → not b ≡ true → b ≡ false
negated true h = cc
negated false h = refl

no_url : (p : Bool) (o : Option String) → p || not (is_some o) ≡ true → p ≡ false → o ≡ none
no_url true o h e = cc
no_url false none h e = refl
no_url false (some u) h e = cc

pub update_schedule_entry-Updated :
    (db next : Db) (id expected : ℕ) (patch : EntryPatch) (now : ℕ) (r : ScheduleEntry)
    → update_schedule_entry db id expected patch now ≡ ok (next, r)
    → Updated db id expected patch now next r
unfolding update_schedule_entry get_schedule_entry
update_schedule_entry-Updated db next id expected patch now r h =
    let (current, found, h₁) =
      >>=-eq-ok (found_or (find (entry_has_id id) db.entries) not_found) _ h in
    let (revision, h₂) = >>-eq-ok (current.revision == expected) revision_conflict _ h₁ in
    let (unlocked, h₃) = >>-eq-ok (not current.locked) invalid_state _ h₂ in
    let (rendered, h₄) =
      >>-eq-ok (not (publishes patch.status && current.needs_rerender)) invalid_state _ h₃ in
    let (stays, h₅) = >>-eq-ok _ invalid_state _ h₄ in
    let (url, h₆) = >>-eq-ok _ invalid_state _ h₅ in
    let (hit, h₇) = >>-eq-ok _ revision_conflict _ h₆ in
    let (free, h₈) = >>-eq-ok _ schedule_collision _ h₇ in
    let e = ok-injective h₈ in
    let same : patched_entry patch now current ≡ r = ap (λ x. x.1) e in
    subst (λ (x : ScheduleEntry). Updated db id expected patch now next x) same
      (record {
        current = current;
        held = found_or-eq-ok (find (entry_has_id id) db.entries) not_found found;
        revision = ==→eq current.revision expected revision;
        unlocked = negated current.locked unlocked;
        rendered = negated (publishes patch.status && current.needs_rerender) rendered;
        stays_planned =
            negated (is_planned current.status && is_draft (or_else patch.status current.status))
              stays;
        unpublished_url =
            no_url (is_published (or_else patch.status current.status))
              (or_else patch.youtube_url current.youtube_url) url;
        free = negated (is_taken id (or_else patch.publish_at current.publish_at) db.entries) free;
        result = refl;
        written = sym (ap (λ x. x.0) e);
      })

rendered_when :
    (o : Option EntryStatus) (s : EntryStatus) (stale : Bool)
    → is_published s ≡ false
    → publishes o && stale ≡ false
    → is_published (or_else o s) ≡ true
    → stale ≡ false
rendered_when none s stale unpublished guard t = cc
rendered_when (some p) s stale unpublished guard t = ground arith

module _ {db next : Db} {id expected : ℕ} {patch : EntryPatch} {now : ℕ} {r : ScheduleEntry}
    (u : Updated db id expected patch now next r) where
  sound_result : IsSoundEntry u.current → IsSoundEntry r
  sound_result s = record {
    locked_when_published =
        ap (λ e. e.locked) u.result ∙ sym (ap (λ e. is_published e.status) u.result);
    url_when_published = u.unpublished_url;
    current_when_published = λ t.
        ap (λ e. e.needs_rerender) u.result
        ∙ rendered_when patch.status u.current.status u.current.needs_rerender
            (sym s.locked_when_published ∙ u.unlocked) u.rendered
            (sym (ap (λ e. is_published e.status) u.result) ∙ t);
  }

  own_id : entry_has_id id r ≡ true
  own_id =
      ap (λ e. entry_has_id id e) u.result
      ∙ find-holds (entry_has_id id) db.entries u.current u.held

  updated_entries : next.entries ≡ update_where (is_unlocked_at id expected) (λ _. r) db.entries
  updated_entries = ap (λ d. d.entries) u.written

  pub sound_table : All IsSoundEntry db.entries → All IsSoundEntry next.entries
  sound_table h =
      let s =
        sound_result (All-find IsSoundEntry (entry_has_id id) db.entries u.current h u.held) in
      subst (All IsSoundEntry) (sym updated_entries) (
        All-update_where IsSoundEntry (is_unlocked_at id expected) (λ _. r) db.entries
          (λ e hit old. s) h)

  -- A row that is locked is the same after the update.
  pub locked_stays :
      (k : ℕ) (e : ScheduleEntry)
      → find (entry_has_id k) db.entries ≡ some e
      → e.locked ≡ true
      → find (entry_has_id k) next.entries ≡ some e
  locked_stays k e held locked =
      ap (λ es. find (entry_has_id k) es) updated_entries
      ∙ find-update_where (entry_has_id k) (is_unlocked_at id expected) (λ _. r) db.entries same_key
      ∙ rw held (ground (arith, locked))
    where
      same_key :
          (x : ScheduleEntry)
          → is_unlocked_at id expected x ≡ true
          → entry_has_id k r ≡ entry_has_id k x
      same_key x hit = ground (arith, own_id)

-- The update of an entry keeps three rules of the schedule: an entry is locked exactly when it is
-- published, only a published entry has a URL, and a published entry asks for no new Render.
pub update_schedule_entry-IsSoundEntry :
    (db next : Db) (id expected : ℕ) (patch : EntryPatch) (now : ℕ) (r : ScheduleEntry)
    → All IsSoundEntry db.entries
    → update_schedule_entry db id expected patch now ≡ ok (next, r)
    → All IsSoundEntry next.entries
update_schedule_entry-IsSoundEntry db next id expected patch now r sound h =
    sound_table (update_schedule_entry-Updated db next id expected patch now r h) sound

-- A published entry is final: in a schedule where published entries are locked, no update, of that
-- entry or another, changes it.
pub published_stays :
    (db next : Db) (id expected : ℕ) (patch : EntryPatch) (now : ℕ) (r : ScheduleEntry) (k : ℕ)
    (e : ScheduleEntry)
    → All IsSoundEntry db.entries
    → find (entry_has_id k) db.entries ≡ some e
    → e.status ≡ EntryStatus.published
    → update_schedule_entry db id expected patch now ≡ ok (next, r)
    → find (entry_has_id k) next.entries ≡ some e
published_stays db next id expected patch now r k e sound held published h =
    let s = All-find IsSoundEntry (entry_has_id k) db.entries e sound held in
    locked_stays (update_schedule_entry-Updated db next id expected patch now r h) k e held
      (s.locked_when_published ∙ ap is_published published)

-- Asking the entries of an edited Short for new Renders keeps three rules: an entry is locked
-- exactly when it is published, only a published entry has a URL, and a published entry asks for
-- no new Render.
flag_entries-IsSoundEntry :
    (id now : ℕ) (entries : List ScheduleEntry)
    → All IsSoundEntry entries
    → All IsSoundEntry (flag_entries id now entries)
flag_entries-IsSoundEntry id now entries h =
    All-update_where IsSoundEntry (λ e. e.short_id == id && not (is_published e.status))
      (needing_rerender now) entries
      (λ e hit s. record {
        locked_when_published = s.locked_when_published;
        url_when_published = s.url_when_published;
        current_when_published = λ t. ground (arith, hit, t);
      })
      h
