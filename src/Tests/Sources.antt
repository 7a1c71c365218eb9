-- ===== src/Tests/Sources.antt =====
-- Runs of the episodes.
use short_editor.Prelude.{◌≡◌, refl, true, [], ◌∷◌, All, none, some}
use short_editor.Store.{Db, Episode, EpisodeStatus, ok}
use short_editor.Shorts.{get_episode}
use short_editor.Episodes.{
  assert_episode_transition, update_episode_status, mark_episode_source_missing, now_missing,
  restore_episode_at_current_path, EpisodeMedia, with_media, media_transition, update_episode_media,
  Relink, relinked, stale_episode, commit_episode_relink,
}
use short_editor.Episodes.Relinking.{IsBack, mark-restore}
use short_editor.Episodes.Touching.{IsSoundEpisode}
use short_editor.Episodes.Statuses.{relinks, apply_change, apply_change-IsSoundEpisode}
use short_editor.Tests.{sample_episode, short_db}

sources : Unit {0}
unfolding apply_change get_episode assert_episode_transition update_episode_status
    mark_episode_source_missing restore_episode_at_current_path media_transition
    update_episode_media stale_episode commit_episode_relink
sources = tt

mark-restore_example :
    (marked back : Db) × (missing after : Episode) × (mark_episode_source_missing short_db 1 7
      ≡ ok (marked, missing))
    × (missing.missing ≡ true)
    × (missing.status ≡ EpisodeStatus.source_missing)
    × (restore_episode_at_current_path marked 1 9 ≡ ok (back, after))
    × IsBack sample_episode after 9
unfolding sources
mark-restore_example = mark-restore short_db 1 7 9 sample_episode refl refl

abbrev missing_episode : Episode
missing_episode = now_missing EpisodeStatus.ready 7 sample_episode

abbrev missing_db : Db
missing_db = record short_db { episodes = missing_episode ∷ [] }

-- The recording is found elsewhere, and its content has changed.
abbrev relink : Relink
relink = record {
  duration_ms = 60000;
  force_indexing = true;
  comparison = some 3;
  consumes = λ id. true;
  path_free = true;
}

abbrev relinked_episode : Episode
relinked_episode = relinked relink EpisodeStatus.indexing 9 missing_episode

abbrev relinked_db : Db
relinked_db = stale_episode 1 9 (record missing_db { episodes = relinked_episode ∷ [] })

apply_change-IsSoundEpisode_example : All IsSoundEpisode relinked_db.episodes
unfolding sources
apply_change-IsSoundEpisode_example =
    apply_change-IsSoundEpisode missing_db relinked_db 1 (relinks relink) 9
      (record { missing_status = refl; restorable = refl }, tt) tt refl

-- The media of a probe, given to an episode that is missing: it is to be indexed and still counts as
-- missing.
abbrev probed : EpisodeMedia
probed = record {
  duration_ms = some (some 60000);
  status = some EpisodeStatus.indexing;
  missing = none;
  others = true;
}

probed_test :
    update_episode_media missing_db 1 probed 9
    ≡ ok (record missing_db { episodes = with_media probed 9 missing_episode ∷ [] })
unfolding sources
probed_test = refl
