-- ===== src/Episodes/Statuses.antt =====
-- src/core/repository.ts: the status of an episode through its updates.
use short_editor.Prelude.{
  ℕ, ◌≡◌, ◌⊎◌, refl, sym, ap, subst, ◌∙◌, inl, inr, Bool, true, false, Option, none, some,
  update_where, All, All-update_where, All-both, Bool-cases, ==→eq, All-update_where_from,
  if◌then◌else◌,
}
use short_editor.Store.{
  Db, Episode, EpisodeStatus, invalid_state, validation_error, source_identity_mismatch, Result, ok,
  ◌>>=◌, >>=-eq-ok, >>-eq-ok, ok-injective,
}
use short_editor.Shorts.{get_episode, episode_has_id, is_source_missing}
use short_editor.Episodes.{
  update_episode_status, mark_episode_source_missing, restore_episode_at_current_path, EpisodeMedia,
  update_episode_media, with_media, media_transition, gives_any, Relink, commit_episode_relink,
  relinked, relink_status, stale_episode,
}
use short_editor.Episodes.Touching.{
  IsSoundEpisode, Touched, touched, Touched-IsSoundEpisode, sets-Touched, goes_missing-Touched,
  held_is_sound, comes_back-Touched,
}

-- The updates of an episode.
pub data Change : Type 0 where
  sets : EpisodeStatus → Option EpisodeStatus → Change
  gets_media : EpisodeMedia → Change
  goes_missing : Change
  comes_back : Change
  relinks : Relink → Change

-- The tables after a call.
unfoldable pub apply_change : Db → ℕ → Change → ℕ → Result Db
apply_change db id (sets status prior) now = do
  done ← update_episode_status db id status prior now
  ok done.0
apply_change db id (gets_media m) now = update_episode_media db id m now
apply_change db id goes_missing now = do done ← mark_episode_source_missing db id now; ok done.0
apply_change db id comes_back now = do done ← restore_episode_at_current_path db id now; ok done.0
apply_change db id (relinks r) now = do done ← commit_episode_relink db id r now; ok done.0

-- `updateEpisodeMedia` writes the status and leaves `missing` as it is. It is called with care where
-- it gives no `missing`, and either no status, or one that is present for an Episode that is.
abbrev pub IsCareful : Db → ℕ → Change → Type 0
IsCareful db id (gets_media m) =
    (m.missing ≡ none)
    × ((m.status ≡ none)
        ⊎ ((s : EpisodeStatus) × (m.status ≡ some s)
            × (is_source_missing s ≡ false)
            × All (λ e. (e.id ≡ id) → is_source_missing e.status ≡ false) db.episodes))
IsCareful db id _ = Unit

stale_if-episodes :
    (b : Bool) (id now : ℕ) (db : Db)
    → (if b then stale_episode id now db else db).episodes ≡ db.episodes
unfolding stale_episode
stale_if-episodes true id now db = refl
stale_if-episodes false id now db = refl

relink_status-present :
    (r : Relink) (current : Episode)
    → IsSoundEpisode current
    → is_source_missing (relink_status r current) ≡ false
relink_status-present r current s = elim (Bool-cases r.force_indexing) [
  | inl forced ↦ rw forced refl
  | inr kept ↦ rw kept s.restorable
]

module _ (db next : Db) (id now : ℕ) (sound : All IsSoundEpisode db.episodes) where
  commit_episode_relink-Touched :
      (r : Relink) (e : Episode)
      → commit_episode_relink db id r now ≡ ok (next, e)
      → Touched db next id now
  unfolding commit_episode_relink
  commit_episode_relink-Touched r e h =
      let (current, found, h₁) = >>=-eq-ok (get_episode db id) _ h in
      let (missing, h₂) = >>-eq-ok _ invalid_state _ h₁ in
      let (confirmed, h₃) = >>-eq-ok _ validation_error _ h₂ in
      let (free, h₄) = >>-eq-ok _ source_identity_mismatch _ h₃ in
      let (episode, again, h₅) = >>=-eq-ok (get_episode _ id) _ h₄ in
      let held = held_is_sound db next id now e sound current found in
      touched (episode_has_id id) (relinked r (relink_status r current) now)
        (λ k s. record {
          missing_status = sym (relink_status-present r current held);
          restorable = refl;
        })
        (sym (ap (λ x. x.0.episodes) (ok-injective h₅))
          ∙ stale_if-episodes r.force_indexing id now _)

  with_media-All :
      (m : EpisodeMedia)
      → IsCareful db id (gets_media m)
      → All IsSoundEpisode (update_where (episode_has_id id) (with_media m now) db.episodes)
  with_media-All m (given, inl unset) =
      All-update_where IsSoundEpisode (episode_has_id id) (with_media m now) db.episodes
        (λ e hit s. record {
          missing_status = rw (given, unset) s.missing_status;
          restorable = s.restorable;
        })
        sound
  with_media-All m (given, inr (status, set, there, present)) =
      All-update_where_from
        (λ e. IsSoundEpisode e × (e.id ≡ id → is_source_missing e.status ≡ false)) IsSoundEpisode
        (episode_has_id id) (with_media m now) db.episodes
        (λ e hit s. record {
          missing_status = rw (given, set, there) (s.0.missing_status ∙ s.1 (==→eq e.id id hit));
          restorable = s.0.restorable;
        })
        (λ e miss s. s.0) (All-both _ _ db.episodes sound present)

  update_episode_media-All :
      (m : EpisodeMedia)
      → IsCareful db id (gets_media m)
      → update_episode_media db id m now ≡ ok next
      → All IsSoundEpisode next.episodes
  unfolding update_episode_media
  update_episode_media-All m careful h =
      let (checked, allowed, h₁) = >>=-eq-ok (media_transition db id m.status) _ h in
      elim (Bool-cases (gives_any m)) [
        | inl some_given ↦
            subst (λ (d : Db). All IsSoundEpisode d.episodes) (ok-injective (rw some_given at h₁))
              (with_media-All m careful)
        | inr none_given ↦
            subst (λ (d : Db). All IsSoundEpisode d.episodes) (ok-injective (rw none_given at h₁))
              sound
      ]

  finished-All :
      (done : Db × Episode)
      → Touched db done.0 id now
      → ◌≡◌ {A = Result Db} (ok done.0) (ok next)
      → All IsSoundEpisode next.episodes
  finished-All done t last =
      subst (λ (d : Db). All IsSoundEpisode d.episodes) (ok-injective last)
        (Touched-IsSoundEpisode t sound)

-- Each of the five updates of an episode keeps two rules: an episode counts as missing exactly when
-- its status says so, and the status that it is to be restored to is not that one. Where the update
-- is `updateEpisodeMedia`, it gives no `missing`, and no status or, for an episode that is not
-- missing, one that is not missing either.
pub apply_change-IsSoundEpisode :
    (db next : Db) (id : ℕ) (c : Change) (now : ℕ)
    → All IsSoundEpisode db.episodes
    → IsCareful db id c
    → apply_change db id c now ≡ ok next
    → All IsSoundEpisode next.episodes
unfolding apply_change
apply_change-IsSoundEpisode db next id (sets status prior) now sound careful h =
    let (done, went, last) = >>=-eq-ok (update_episode_status db id status prior now) _ h in
    finished-All db next id now sound done
      (sets-Touched db done.0 id now done.1 sound status prior went) last
apply_change-IsSoundEpisode db next id (gets_media m) now sound careful h =
    update_episode_media-All db next id now sound m careful h
apply_change-IsSoundEpisode db next id goes_missing now sound careful h =
    let (done, went, last) = >>=-eq-ok (mark_episode_source_missing db id now) _ h in
    finished-All db next id now sound done (goes_missing-Touched db done.0 id now done.1 sound went)
      last
apply_change-IsSoundEpisode db next id comes_back now sound careful h =
    let (done, went, last) = >>=-eq-ok (restore_episode_at_current_path db id now) _ h in
    finished-All db next id now sound done (comes_back-Touched db done.0 id now done.1 sound went)
      last
apply_change-IsSoundEpisode db next id (relinks r) now sound careful h =
    let (done, went, last) = >>=-eq-ok (commit_episode_relink db id r now) _ h in
    finished-All db next id now sound done
      (commit_episode_relink-Touched db done.0 id now sound r done.1 went) last
