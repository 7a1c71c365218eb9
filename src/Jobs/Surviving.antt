-- ===== src/Jobs/Surviving.antt =====
-- src/core/repository.ts, `recoverJobs`: the jobs that were closed before the restart.
use short_editor.Prelude.{
  ℕ, ◌==◌, ◌≡◌, ◌≢◌, refl, sym, ◌∙◌, ap, inl, inr, Bool, false, ◌&&◌, ◌||◌, ltb, List, [], ◌∷◌,
  Option, none, some, arith, find, find-holds, find-update_where, update_where, All, All-find,
  Bool-cases, ==→eq, &&_both,
}
use short_editor.Store.{Db, Job, Render, RenderState}
use short_editor.Jobs.{has_id, is_open, is_running}
use short_editor.Jobs.Rows.{HasDistinctIds, IsOnly}
use short_editor.Jobs.Recovery.{
  Pair, Tally, is_render, is_cancelled, pairs, recover_settled, recover_pair, recover_pairs,
  recover_others, recover_jobs,
}
use short_editor.Jobs.Restart.{All-IsOnly}

-- The row of `id` is `j`.
abbrev pub Holds : ℕ → Job → List Job → Type 0
Holds id j js = find (has_id id) js ≡ some j

module _ (id : ℕ) (j : Job) where
  -- An update that misses the row.
  missed-Holds :
      (p : Job → Bool) (f : Job → Job) (js : List Job)
      → ((k : Job) → (f k).id ≡ k.id)
      → p j ≡ false
      → Holds id j js
      → Holds id j (update_where p f js)
  missed-Holds p f js same miss h =
      rw (find-update_where (has_id id) p f js (λ k hit. rw (same k)), h, miss)

  pairs-All :
      (db : Db) (js : List Job)
      → is_open j.state ≡ false
      → j.id ≡ id
      → IsOnly j js
      → All (λ p. p.0.id ≢ id) (pairs db js)
  unfolding pairs
  pairs-All db [] closed own only = tt
  pairs-All db (k ∷ ks) closed own only = elim (Bool-cases (is_render k && is_open k.state)) [
    | inl hit ↦ rw hit (
      (λ e. cc (
        ap (λ x. is_open x.state) (only.0 (e ∙ sym own)),
        (&&_both (is_render k) (is_open k.state) hit).1,
        closed,
      )),
      pairs-All db ks closed own only.1,
    )
    | inr miss ↦ rw miss (pairs-All db ks closed own only.1)
  ]

module _ (id : ℕ) (j : Job) (own : j.id ≡ id) (now : ℕ) where
  other_id : (p : Job) → p.id ≢ id → (j.id == p.id) ≡ false
  other_id p differs = elim (Bool-cases (j.id == p.id)) [
    | inl same ↦ absurd (differs (sym (==→eq j.id p.id same) ∙ own))
    | inr other ↦ other
  ]

  settled-Holds :
      (p : Job) (r : Render) (state : RenderState) (t : Tally)
      → (j.id == p.id) ≡ false
      → Holds id j t.0.jobs
      → Holds id j (recover_settled now p r state t).0.jobs
  unfolding recover_settled
  settled-Holds p r RenderState.succeeded t other h =
      missed-Holds id j _ _ t.0.jobs (λ k. refl) (rw other) h
  settled-Holds p r RenderState.cancelled t other h =
      missed-Holds id j _ _ t.0.jobs (λ k. refl) (rw other) h
  settled-Holds p r RenderState.stale t other h =
      missed-Holds id j _ _ t.0.jobs (λ k. refl) (rw other) h
  settled-Holds p r RenderState.failed t other h =
      missed-Holds id j _ _ t.0.jobs (λ k. refl) (rw other) h
  settled-Holds p r RenderState.running t other h =
      missed-Holds id j _ _ t.0.jobs (λ k. refl) (rw other) h
  settled-Holds p r RenderState.queued t other h = elim (Bool-cases (is_running p.state)) [
    | inl running ↦ rw running (elim (Bool-cases (ltb p.attempts 3)) [
      | inl few ↦ rw few (missed-Holds id j _ _ t.0.jobs (λ k. refl) (rw other) h)
      | inr many ↦ rw many (missed-Holds id j _ _ t.0.jobs (λ k. refl) (rw other) h)
    ])
    | inr waiting ↦ rw waiting h
  ]

  recover_pair-Holds :
      (p : Job) (o : Option Render) (t : Tally)
      → p.id ≢ id
      → Holds id j t.0.jobs
      → Holds id j (recover_pair now (p, o) t).0.jobs
  unfolding recover_pair
  recover_pair-Holds p none t differs h =
      missed-Holds id j _ _ t.0.jobs (λ k. refl) (other_id p differs) h
  recover_pair-Holds p (some r) t differs h =
      elim (Bool-cases (p.cancel_requested || is_cancelled p.state)) [
        | inl asked ↦
            rw asked (missed-Holds id j _ _ t.0.jobs (λ k. refl) (rw (other_id p differs)) h)
        | inr unasked ↦ rw unasked (settled-Holds p r r.state t (other_id p differs) h)
      ]

  recover_pairs-Holds :
      (ps : List Pair) (t : Tally)
      → All (λ p. p.0.id ≢ id) ps
      → Holds id j t.0.jobs
      → Holds id j (recover_pairs now ps t).0.jobs
  unfolding recover_pairs
  recover_pairs-Holds [] t others h = h
  recover_pairs-Holds ((p, o) ∷ ps) t others h =
      recover_pairs-Holds ps (recover_pair now (p, o) t) others.1
        (recover_pair-Holds p o t others.0 h)

  recover_others-Holds :
      (t : Tally)
      → is_open j.state ≡ false
      → Holds id j t.0.jobs
      → Holds id j (recover_others now t).0.jobs
  unfolding recover_others
  recover_others-Holds t closed h =
      missed-Holds id j _ _ _ (λ k. refl) (ground (arith, closed))
        (missed-Holds id j _ _ _ (λ k. refl) (ground (arith, closed))
          (missed-Holds id j _ _ t.0.jobs (λ k. refl) (ground (arith, closed)) h))

-- The recovery at a start leaves a closed job as it was.
pub recover_jobs-Holds :
    (id : ℕ) (j : Job) (db : Db) (now : ℕ)
    → is_open j.state ≡ false
    → HasDistinctIds db.jobs
    → Holds id j db.jobs
    → Holds id j (recover_jobs db now).0.jobs
unfolding recover_jobs
recover_jobs-Holds id j db now closed distinct h =
    let own : j.id ≡ id = ==→eq _ _ (find-holds (has_id id) db.jobs j h) in
    let only =
      All-find (λ x. IsOnly x db.jobs) (has_id id) db.jobs j (All-IsOnly db.jobs distinct) h in
    recover_others-Holds id j own now (recover_pairs now (pairs db db.jobs) (db, 0)) closed (
      recover_pairs-Holds id j own now (pairs db db.jobs) (db, 0)
        (pairs-All id j db db.jobs closed own only) h)
