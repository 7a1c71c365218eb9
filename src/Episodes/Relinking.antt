-- ===== src/Episodes/Relinking.antt =====
-- src/core/repository.ts: an episode whose recording goes missing and comes back.
use short_editor.Prelude.{
  ℕ, ◌==◌, ◌≡◌, refl, ap, Bool, true, false, none, some, find, find-holds, find-update_where,
  update_where, or_else,
}
use short_editor.Store.{Db, Episode, EpisodeStatus, not_found, ok, found_or-eq-ok}
use short_editor.Shorts.{get_episode, episode_has_id, is_source_missing}
use short_editor.Episodes.{
  transition_allowed, assert_episode_transition, restore_status, now_missing,
  mark_episode_source_missing, now_restored, restore_episode_at_current_path,
}

-- The row that an update leaves under the id.
pub get-updated_episode :
    (db : Db) (id : ℕ) (p : Episode → Bool) (f : Episode → Episode) (current : Episode)
    → ((e : Episode) → (f e).id ≡ e.id)
    → find (episode_has_id id) db.episodes ≡ some current
    → p current ≡ true
    → get_episode (record db { episodes = update_where p f db.episodes }) id ≡ ok (f current)
unfolding get_episode
get-updated_episode db id p f current same held hit =
    let there =
      find-update_where (episode_has_id id) p f db.episodes (λ e t. ap (λ n. n == id) (same e)) in
    rw (there, held, hit)

get_episode-held :
    (db : Db) (id : ℕ) (e : Episode)
    → find (episode_has_id id) db.episodes ≡ some e
    → get_episode db id ≡ ok e
unfolding get_episode
get_episode-held db id e held = rw held

pub get_episode-find :
    (db : Db) (id : ℕ) (e : Episode)
    → get_episode db id ≡ ok e
    → find (episode_has_id id) db.episodes ≡ some e
unfolding get_episode
get_episode-find db id e found =
    found_or-eq-ok (find (episode_has_id id) db.episodes) not_found found

may_go_missing :
    (s : EpisodeStatus)
    → is_source_missing s ≡ false
    → transition_allowed s EpisodeStatus.source_missing none ≡ true
may_go_missing EpisodeStatus.discovered h = refl
may_go_missing EpisodeStatus.indexing h = refl
may_go_missing EpisodeStatus.analyzing h = refl
may_go_missing EpisodeStatus.ready h = refl
may_go_missing EpisodeStatus.error h = refl
may_go_missing EpisodeStatus.source_missing h = cc

module _ (db : Db) (id now : ℕ) (current : Episode)
    (held : find (episode_has_id id) db.episodes ≡ some current) where
  own_id : episode_has_id id current ≡ true
  own_id = find-holds (episode_has_id id) db.episodes current held

  abbrev marked_db : Db
  marked_db = record db {
    episodes =
        update_where (episode_has_id id) (now_missing (restore_status current.status) now)
          db.episodes;
  }

  mark_episode_source_missing_lem :
      is_source_missing current.status ≡ false
      → mark_episode_source_missing db id now
        ≡ ok (marked_db, now_missing (restore_status current.status) now current)
  unfolding mark_episode_source_missing assert_episode_transition
  mark_episode_source_missing_lem present = rw (
    get_episode-held db id current held,
    present,
    may_go_missing current.status present,
    get-updated_episode db id (episode_has_id id) (now_missing (restore_status current.status) now)
        current (λ e. refl) held own_id,
  )

  restore_episode_at_current_path_lem :
      is_source_missing current.status ≡ true
      → restore_episode_at_current_path db id now
        ≡ ok (
          record db {
            episodes =
                update_where
                  (episode_has_id id)
                  (now_restored (or_else current.relink_restore_status EpisodeStatus.indexing) now)
                  db.episodes;
          },
          now_restored (or_else current.relink_restore_status EpisodeStatus.indexing) now current,
        )
  unfolding restore_episode_at_current_path
  restore_episode_at_current_path_lem missing = rw (
    get_episode-held db id current held,
    missing,
    get-updated_episode db id (episode_has_id id)
        (now_restored (or_else current.relink_restore_status EpisodeStatus.indexing) now) current
        (λ e. refl) held own_id,
  )

-- The status that comes back: what was discovered or ready is so again, the rest is to be indexed.
abbrev pub again : EpisodeStatus → EpisodeStatus
again EpisodeStatus.discovered = EpisodeStatus.discovered
again EpisodeStatus.ready = EpisodeStatus.ready
again EpisodeStatus.indexing = EpisodeStatus.indexing
again EpisodeStatus.analyzing = EpisodeStatus.indexing
again EpisodeStatus.error = EpisodeStatus.indexing
again EpisodeStatus.source_missing = EpisodeStatus.indexing

-- The row once the recording has come back.
pub record IsBack (before after : Episode) (later : ℕ) : Type 0 where
  pub id : after.id ≡ before.id
  pub duration_ms : after.duration_ms ≡ before.duration_ms
  pub status : after.status ≡ again before.status
  pub missing : after.missing ≡ false
  pub cleared : after.relink_restore_status ≡ none
  pub updated_at : after.updated_at ≡ later

restore_status-again : (s : EpisodeStatus) → restore_status s ≡ again s
restore_status-again EpisodeStatus.discovered = refl
restore_status-again EpisodeStatus.indexing = refl
restore_status-again EpisodeStatus.analyzing = refl
restore_status-again EpisodeStatus.ready = refl
restore_status-again EpisodeStatus.error = refl
restore_status-again EpisodeStatus.source_missing = refl

-- An episode that is not missing, found under its id, can be marked as missing and then restored at
-- its path. It is marked as missing in between. Afterwards its status is discovered or ready if it
-- was, and otherwise indexing; it does not count as missing; and it has no status to restore to, also
-- where it had one before.
pub mark-restore :
    (db : Db) (id now later : ℕ) (current : Episode)
    → get_episode db id ≡ ok current
    → is_source_missing current.status ≡ false
    → (marked back : Db) × (missing after : Episode) × (mark_episode_source_missing db id now
        ≡ ok (marked, missing))
      × (missing.missing ≡ true)
      × (missing.status ≡ EpisodeStatus.source_missing)
      × (restore_episode_at_current_path marked id later ≡ ok (back, after))
      × IsBack current after later
mark-restore db id now later current found present =
    let held = get_episode-find db id current found in
    let missing = now_missing (restore_status current.status) now current in
    let marks = mark_episode_source_missing_lem db id now current held present in
    let marked = marked_db db id now current held in
    let there =
      get-updated_episode db id (episode_has_id id)
        (now_missing (restore_status current.status) now) current (λ e. refl) held
        (own_id db id now current held) in
    (
      marked,
      _,
      missing,
      now_restored (restore_status current.status) later current,
      marks,
      refl,
      refl,
      restore_episode_at_current_path_lem marked id later missing
          (get_episode-find marked id missing there) refl,
      record {
        id = refl;
        duration_ms = refl;
        status = restore_status-again current.status;
        missing = refl;
        cleared = refl;
        updated_at = refl;
      },
    )
