-- ===== src/Episodes/Touching.antt =====
-- src/core/repository.ts: what an update of the status of an episode does to the table.
use short_editor.Prelude.{
  ℕ, ◌≡◌, refl, sym, ap, subst, inl, inr, Bool, false, Option, none, find, update_where, or_else,
  All, All-find, All-update_where, Bool-cases,
}
use short_editor.Store.{
  Db, Episode, EpisodeStatus, not_found, invalid_state, ok, >>=-eq-ok, >>-eq-ok, found_or-eq-ok,
  ok-injective,
}
use short_editor.Shorts.{get_episode, episode_has_id, is_source_missing}
use short_editor.Episodes.{
  assert_episode_transition, is_episode_in, with_status, update_episode_status, restore_status,
  now_missing, mark_episode_source_missing, now_restored, restore_episode_at_current_path,
}

-- `missing` says that the status is `source_missing`, and the status to restore is another.
pub record IsSoundEpisode (e : Episode) : Type 0 where
  pub missing_status : e.missing ≡ is_source_missing e.status
  pub restorable :
      is_source_missing (or_else e.relink_restore_status EpisodeStatus.indexing) ≡ false

restore_status_present : (s : EpisodeStatus) → is_source_missing (restore_status s) ≡ false
restore_status_present EpisodeStatus.discovered = refl
restore_status_present EpisodeStatus.indexing = refl
restore_status_present EpisodeStatus.analyzing = refl
restore_status_present EpisodeStatus.ready = refl
restore_status_present EpisodeStatus.error = refl
restore_status_present EpisodeStatus.source_missing = refl

-- What a call that has gone through has done to the table: nothing, or an update of this kind.
pub data Touched (db next : Db) (id now : ℕ) : Type 0 where
  untouched : next ≡ db → Touched db next id now
  touched :
      (p : Episode → Bool) (f : Episode → Episode)
      → ((e : Episode) → IsSoundEpisode e → IsSoundEpisode (f e))
      → next.episodes ≡ update_where p f db.episodes
      → Touched db next id now

pub Touched-IsSoundEpisode :
    {db next : Db} {id now : ℕ}
    → Touched db next id now
    → All IsSoundEpisode db.episodes
    → All IsSoundEpisode next.episodes
Touched-IsSoundEpisode (untouched same) h =
    subst (λ (d : Db). All IsSoundEpisode d.episodes) (sym same) h
Touched-IsSoundEpisode {db} (touched p f keeps written) h =
    subst (All IsSoundEpisode) (sym written)
      (All-update_where IsSoundEpisode p f db.episodes (λ e hit. keeps e) h)

module _ (db next : Db) (id now : ℕ) (r : Episode) (sound : All IsSoundEpisode db.episodes) where
  pub sets-Touched :
      (status : EpisodeStatus) (prior : Option EpisodeStatus)
      → update_episode_status db id status prior now ≡ ok (next, r)
      → Touched db next id now
  unfolding update_episode_status
  sets-Touched status prior h =
      let (current, found, h₁) = >>=-eq-ok (get_episode db id) _ h in
      let (target, allowed, h₂) =
        >>=-eq-ok (assert_episode_transition current.status status prior) _ h₁ in
      let (hit, h₃) = >>-eq-ok _ invalid_state _ h₂ in
      let (episode, again, h₄) = >>=-eq-ok (get_episode _ id) _ h₃ in
      touched (is_episode_in id current.status) (with_status status now)
        (λ e s. record { missing_status = refl; restorable = s.restorable })
        (sym (ap (λ x. x.0.episodes) (ok-injective h₄)))

  pub goes_missing-Touched :
      mark_episode_source_missing db id now ≡ ok (next, r) → Touched db next id now
  unfolding mark_episode_source_missing
  goes_missing-Touched h =
      let (current, found, h₁) = >>=-eq-ok (get_episode db id) _ h in
      elim (Bool-cases (is_source_missing current.status)) [
        | inl missing ↦ untouched (sym (ap (λ x. x.0) (ok-injective (rw missing at h₁))))
        | inr present ↦
            let (target, allowed, h₂) =
              >>=-eq-ok (assert_episode_transition current.status EpisodeStatus.source_missing none)
                _ (rw present at h₁) in
            let (episode, again, h₃) = >>=-eq-ok (get_episode _ id) _ h₂ in
            touched (episode_has_id id) (now_missing (restore_status current.status) now)
              (λ e s. record {
                missing_status = refl;
                restorable = restore_status_present current.status;
              })
              (sym (ap (λ x. x.0.episodes) (ok-injective h₃)))
      ]

  pub held_is_sound : (current : Episode) → get_episode db id ≡ ok current → IsSoundEpisode current
  unfolding get_episode
  held_is_sound current found =
      All-find IsSoundEpisode (episode_has_id id) db.episodes current sound
        (found_or-eq-ok (find (episode_has_id id) db.episodes) not_found found)

  pub comes_back-Touched :
      restore_episode_at_current_path db id now ≡ ok (next, r) → Touched db next id now
  unfolding restore_episode_at_current_path
  comes_back-Touched h =
      let (current, found, h₁) = >>=-eq-ok (get_episode db id) _ h in
      elim (Bool-cases (is_source_missing current.status)) [
        | inl missing ↦
            let (episode, again, h₂) = >>=-eq-ok (get_episode _ id) _ (rw missing at h₁) in
            let safe = (held_is_sound current found).restorable in
            touched (episode_has_id id)
              (now_restored (or_else current.relink_restore_status EpisodeStatus.indexing) now)
              (λ e s. record { missing_status = sym safe; restorable = refl })
              (sym (ap (λ x. x.0.episodes) (ok-injective h₂)))
        | inr present ↦ untouched (sym (ap (λ x. x.0) (ok-injective (rw present at h₁))))
      ]
