-- ===== src/Episodes/Replacing.antt =====
-- src/core/repository.ts, `commitEpisodeRelink` where the content is another: what was made of the
-- earlier recording is out of date.
use short_editor.Prelude.{ℕ, ◌≡◌, ◌≢◌, ◌⊎◌, true, false, List, none, some, update_where, All}
use short_editor.Store.{Db, Episode, EpisodeStatus, Short, Render, RenderState, EntryStatus, ok}
use short_editor.Shorts.{get_episode, episode_has_id}
use short_editor.Episodes.{Relink, relinked, stale_episode}

-- No Short of the Episode has the Render.
abbrev pub IsOfOthers : List Short → ℕ → Render → Type 0
IsOfOthers shorts id r = All (λ s. (s.id ≢ r.short_id) ⊎ (s.episode_id ≢ id)) shorts

-- The tables after the source of the Episode has been replaced by one with other content.
pub record IsReplaced (db next : Db) (id now : ℕ) (r : Relink) (e : Episode) : Type 0 where
  pub before : Episode
  pub found : get_episode db id ≡ ok before
  pub was_missing : before.status ≡ EpisodeStatus.source_missing
  pub status : e.status ≡ EpisodeStatus.indexing
  pub missing : e.missing ≡ false
  pub cleared : e.relink_restore_status ≡ none
  pub duration_ms : e.duration_ms ≡ some r.duration_ms
  pub on_record : get_episode next id ≡ ok e
  pub renders :
      All (λ v. (v.state ≢ RenderState.succeeded) ⊎ IsOfOthers db.shorts id v) next.renders
  pub entries :
      All
        (λ v.
          (v.episode_id ≢ id) ⊎ ((v.status ≡ EntryStatus.published) ⊎ (v.needs_rerender ≡ true)))
        next.entries
  pub shorts : next.shorts ≡ db.shorts

module _ (db : Db) (id now : ℕ) where
  module _ (r : Relink) (before : Episode) where
    abbrev moved : EpisodeStatus → Db
    moved status = record db {
      episodes = update_where (episode_has_id id) (relinked r status now) db.episodes;
    }

    abbrev after : Db
    after = stale_episode id now (moved EpisodeStatus.indexing)
