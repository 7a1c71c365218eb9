-- ===== src/Episodes.antt =====
-- src/shared/episode-transitions.ts, and of src/core/repository.ts `updateEpisodeStatus`,
-- `updateEpisodeMedia`, `markEpisodeSourceMissing`, `restoreEpisodeAtCurrentPath` and
-- `commitEpisodeRelink`.
pub mod Relinking
pub mod Replacing
pub mod Statuses
pub mod Touching
use short_editor.Prelude.{
  ℕ, ◌==◌, if◌then◌else◌, Bool, true, false, not, ◌&&◌, ◌||◌, List, [], ◌∷◌, Option, none, some,
  any, update_where, or_else, is_some,
}
use short_editor.Store.{
  Db, Episode, EpisodeStatus, Render, invalid_state, validation_error, source_identity_mismatch,
  Result, ok, fail, ◌>>=◌, ◌>>◌, require,
}
use short_editor.Shorts.{
  get_episode, episode_has_id, is_source_missing, staled, needing_rerender, is_succeeded,
  is_published,
}

abbrev pub status_code : EpisodeStatus → ℕ
status_code EpisodeStatus.discovered = 0
status_code EpisodeStatus.indexing = 1
status_code EpisodeStatus.analyzing = 2
status_code EpisodeStatus.ready = 3
status_code EpisodeStatus.error = 4
status_code EpisodeStatus.source_missing = 5

abbrev pub same_status : EpisodeStatus → EpisodeStatus → Bool
same_status a b = status_code a == status_code b

-- `episodeTransitionMatrix`
abbrev pub transition_targets : EpisodeStatus → List EpisodeStatus
transition_targets EpisodeStatus.discovered =
    EpisodeStatus.indexing ∷ EpisodeStatus.error ∷ EpisodeStatus.source_missing ∷ []
transition_targets EpisodeStatus.indexing =
    EpisodeStatus.analyzing ∷ EpisodeStatus.error ∷ EpisodeStatus.source_missing ∷ []
transition_targets EpisodeStatus.analyzing =
    EpisodeStatus.ready ∷ EpisodeStatus.error ∷ EpisodeStatus.source_missing ∷ []
transition_targets EpisodeStatus.ready = EpisodeStatus.analyzing ∷ EpisodeStatus.source_missing ∷ []
transition_targets EpisodeStatus.error = EpisodeStatus.indexing ∷ EpisodeStatus.source_missing ∷ []
transition_targets EpisodeStatus.source_missing = EpisodeStatus.indexing ∷ []

-- `restorableEpisodeStatuses`
abbrev pub is_restorable : EpisodeStatus → Bool
is_restorable EpisodeStatus.discovered = true
is_restorable EpisodeStatus.ready = true
is_restorable _ = false

abbrev pub restores_safe_state : EpisodeStatus → EpisodeStatus → Option EpisodeStatus → Bool
restores_safe_state from target none = false
restores_safe_state from target (some prior) =
    is_source_missing from && same_status prior target && is_restorable target

abbrev pub transition_allowed : EpisodeStatus → EpisodeStatus → Option EpisodeStatus → Bool
transition_allowed from target prior = not (
    same_status from target
    || (not (any (same_status target) (transition_targets from))
        && not (restores_safe_state from target prior)))

-- The last argument is `relinkContext?.priorSafeState`.
unfoldable pub assert_episode_transition :
    EpisodeStatus → EpisodeStatus → Option EpisodeStatus → Result EpisodeStatus
assert_episode_transition from target prior = do
  require (transition_allowed from target prior) invalid_state
  ok target

-- `WHERE id=? AND status=?`
abbrev pub is_episode_in : ℕ → EpisodeStatus → Episode → Bool
is_episode_in id status e = episode_has_id id e && same_status e.status status

abbrev pub with_status : EpisodeStatus → ℕ → Episode → Episode
with_status status now e = record e {
  status = status;
  missing = is_source_missing status;
  updated_at = now;
}

unfoldable pub update_episode_status :
    Db → ℕ → EpisodeStatus → Option EpisodeStatus → ℕ → Result (Db × Episode)
update_episode_status db id status prior now = do
  current ← get_episode db id
  target ← assert_episode_transition current.status status prior
  require (any (is_episode_in id current.status) db.episodes) invalid_state
  let next = record db {
    episodes = update_where (is_episode_in id current.status) (with_status status now) db.episodes;
  }
  episode ← get_episode next id
  ok (next, episode)

abbrev pub restore_status : EpisodeStatus → EpisodeStatus
restore_status status = if is_restorable status then status else EpisodeStatus.indexing

abbrev pub now_missing : EpisodeStatus → ℕ → Episode → Episode
now_missing restore now e = record e {
  status = EpisodeStatus.source_missing;
  missing = true;
  relink_restore_status = some restore;
  updated_at = now;
}

unfoldable pub mark_episode_source_missing : Db → ℕ → ℕ → Result (Db × Episode)
mark_episode_source_missing db id now = do
  current ← get_episode db id
  let marks = (do
    target ← assert_episode_transition current.status EpisodeStatus.source_missing none
    let next = record db {
      episodes =
          update_where (episode_has_id id) (now_missing (restore_status current.status) now)
            db.episodes;
    }
    episode ← get_episode next id
    ok (next, episode))
  if is_source_missing current.status then ok (db, current) else marks

abbrev pub now_restored : EpisodeStatus → ℕ → Episode → Episode
now_restored status now e = record e {
  status = status;
  missing = false;
  relink_restore_status = none;
  updated_at = now;
}

unfoldable pub restore_episode_at_current_path : Db → ℕ → ℕ → Result (Db × Episode)
restore_episode_at_current_path db id now = do
  current ← get_episode db id
  let status = or_else current.relink_restore_status EpisodeStatus.indexing
  let next = record db {
    episodes = update_where (episode_has_id id) (now_restored status now) db.episodes;
  }
  let restores = (do episode ← get_episode next id; ok (next, episode))
  if is_source_missing current.status then restores else ok (db, current)

-- `Partial<Pick<Episode, ...>>`: the fields that are given. `others` says that a field is among them
-- that is not modelled: the hash of the content, the size of the picture or a codec.
pub record EpisodeMedia : Type 0 where
  pub duration_ms : Option (Option ℕ)
  pub status : Option EpisodeStatus
  pub missing : Option Bool
  pub others : Bool

abbrev pub gives_any : EpisodeMedia → Bool
gives_any m = is_some m.duration_ms || is_some m.status || is_some m.missing || m.others

abbrev pub with_media : EpisodeMedia → ℕ → Episode → Episode
with_media m now e = record e {
  duration_ms = or_else m.duration_ms e.duration_ms;
  status = or_else m.status e.status;
  missing = or_else m.missing e.missing;
  updated_at = now;
}

unfoldable pub media_transition : Db → ℕ → Option EpisodeStatus → Result (Unit {0})
media_transition db id none = ok tt
media_transition db id (some status) = do
  current ← get_episode db id
  target ← assert_episode_transition current.status status none
  ok tt

unfoldable pub update_episode_media : Db → ℕ → EpisodeMedia → ℕ → Result Db
update_episode_media db id m now = do
  checked ← media_transition db id m.status
  ok (
      if gives_any m
      then record db { episodes = update_where (episode_has_id id) (with_media m now) db.episodes }
      else db)

-- What `commitEpisodeRelink` is called with and meets. `consumes` says whether the UPDATE of
-- `relink_comparisons` changes a row under the given id, and `path_free` that no other Episode has
-- the path. Of the columns of the source only the duration is modelled.
pub record Relink : Type 0 where
  pub duration_ms : ℕ
  pub force_indexing : Bool
  pub comparison : Option ℕ
  pub consumes : ℕ → Bool
  pub path_free : Bool

abbrev pub comparison_ok : Relink → Bool
comparison_ok r = elim r.comparison [ none ↦ true | some id ↦ r.consumes id ]

abbrev pub relink_status : Relink → Episode → EpisodeStatus
relink_status r current =
    if r.force_indexing
    then EpisodeStatus.indexing
    else or_else current.relink_restore_status EpisodeStatus.indexing

abbrev pub relinked : Relink → EpisodeStatus → ℕ → Episode → Episode
relinked r status now e = record e {
  duration_ms = some r.duration_ms;
  status = status;
  missing = false;
  relink_restore_status = none;
  updated_at = now;
}

-- `short_id IN (SELECT id FROM short_projects WHERE episode_id=?)`
abbrev pub is_render_of : Db → ℕ → Render → Bool
is_render_of db id r = any (λ s. s.id == r.short_id && s.episode_id == id) db.shorts

-- What was made of the earlier recording goes stale.
unfoldable pub stale_episode : ℕ → ℕ → Db → Db
stale_episode id now db = record db {
  renders =
      update_where (λ r. is_succeeded r.state && is_render_of db id r) (staled now) db.renders;
  entries =
      update_where (λ e. e.episode_id == id && not (is_published e.status)) (needing_rerender now)
        db.entries;
}

unfoldable pub commit_episode_relink : Db → ℕ → Relink → ℕ → Result (Db × Episode)
commit_episode_relink db id r now = do
  current ← get_episode db id
  require (is_source_missing current.status) invalid_state
  require (comparison_ok r) validation_error
  require r.path_free source_identity_mismatch
  let status = relink_status r current
  let moved = record db {
    episodes = update_where (episode_has_id id) (relinked r status now) db.episodes;
  }
  let next = if r.force_indexing then stale_episode id now moved else moved
  episode ← get_episode next id
  ok (next, episode)
