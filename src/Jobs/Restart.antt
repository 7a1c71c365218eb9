-- ===== src/Jobs/Restart.antt =====
-- src/core/repository.ts, `recoverJobs`: the queue that a restart begins with.
use short_editor.Prelude.{
  ℕ, ◌≤◌, ◌≡◌, ◌≢◌, refl, sym, ap, inl, inr, Bool, true, false, not, ◌&&◌, ltb, List, [], ◌∷◌,
  Option, none, arith, any, All, All-mono, All-both, All-update_where_from, Bool-cases, ==_self,
}
use short_editor.Store.{Db, Job, JobState}
use short_editor.Jobs.{whole, is_running, is_open}
use short_editor.Jobs.Rows.{HasDistinctIds, IsOnly, update_where-HasDistinctIds}
use short_editor.Jobs.Invariant.{IsSound, Inv}
use short_editor.Jobs.Recovery.{
  Tally, is_render, pairs, recover_pairs, recover_others, recover_jobs, recovery_required,
  recovered_cancel, requeued, runs_other, is_repeatable,
}
use short_editor.Jobs.Recovered.{IsRead, is_ahead, IsPending, ArePending, recover_pairs-ArePending}

pub All-IsOnly : (js : List Job) → HasDistinctIds js → All (λ x. IsOnly x js) js
All-IsOnly [] h = tt
All-IsOnly (j ∷ js) h = (
  (λ _. refl, All-mono _ _ js (λ x fresh t. absurd (fresh t)) h.0),
  All-mono _ _ js (λ x k. (λ t. absurd (k.0 (sym t)), k.1))
      (All-both (λ x. x.id ≢ j.id) (λ x. IsOnly x js) js h.0 (All-IsOnly js h.1)),
)

module _ (db : Db) where
  pairs-IsRead : (x : Job) (js : List Job) → IsOnly x js → All (IsRead x) (pairs db js)
  unfolding pairs
  pairs-IsRead x [] h = tt
  pairs-IsRead x (j ∷ js) h = elim (Bool-cases (is_render j && is_open j.state)) [
    | inl hit ↦ rw hit (
      λ t. (ap (λ k. k.attempts) (h.0 t), ap (λ k. k.cancel_requested) (h.0 t)),
      pairs-IsRead x js h.1,
    )
    | inr miss ↦ rw miss (pairs-IsRead x js h.1)
  ]

  abbrev IsCovered : List Job → Job → Type 0
  IsCovered js x = is_render x && is_running x.state ≡ true → any (is_ahead x) (pairs db js) ≡ true

  IsCovered-head : (j : Job) (js : List Job) → IsCovered (j ∷ js) j
  unfolding pairs
  IsCovered-head j js h = ground (arith, ==_self j.id)

  IsCovered-tail : (j x : Job) (js : List Job) → IsCovered js x → IsCovered (j ∷ js) x
  unfolding pairs
  IsCovered-tail j x js c h = let k = c h in ground arith

  All-IsCovered : (js : List Job) → All (IsCovered js) js
  All-IsCovered [] = tt
  All-IsCovered (j ∷ js) = (
    IsCovered-head j js,
    All-mono (IsCovered js) (IsCovered (j ∷ js)) js (λ x. IsCovered-tail j x js) (All-IsCovered js),
  )

  -- Before the loop.
  pairs-ArePending : (w : Option ℕ) (js : List Job) → Inv w js → ArePending (pairs db js) js
  pairs-ArePending w js v = (
    v.distinct,
    All-mono (λ x. IsSound w x × (IsOnly x js × IsCovered js x)) (IsPending (pairs db js)) js
        (λ x (s, (only, covered)). record {
          three_attempts = s.three_attempts;
          fewer_when_queued = s.fewer_when_queued;
          queued_uncancelled = s.queued_uncancelled;
          progress_in_range = s.progress_in_range;
          succeeded_whole = s.succeeded_whole;
          ahead = covered;
          read = pairs-IsRead x js only;
        })
        (All-both _ _ js v.sound (All-both _ _ js (All-IsOnly js v.distinct) (All-IsCovered js))),
  )

-- The statements after the loop, on one row.
abbrev asked_to_stop : Job → Bool
asked_to_stop j = runs_other j && j.cancel_requested

abbrev may_repeat : Job → Bool
may_repeat j = runs_other j && not j.cancel_requested && ltb j.attempts 3 && is_repeatable j

abbrev still_runs : Job → Bool
still_runs j = runs_other j && not j.cancel_requested

record IsLeft (x : Job) : Type 0 where
  three_attempts : x.attempts ≤ 3
  fewer_when_queued : x.state ≡ JobState.queued → x.attempts ≤ 2
  queued_uncancelled : x.state ≡ JobState.queued → x.cancel_requested ≡ false
  progress_in_range : x.progress ≤ whole
  succeeded_whole : x.state ≡ JobState.succeeded → x.progress ≡ whole
  other : is_running x.state ≡ true → still_runs x ≡ true

IsLeft-cancelled : (now : ℕ) (x : Job) → IsPending [] x → IsLeft (recovered_cancel now x)
IsLeft-cancelled now x s = ground (arith, s)

IsLeft-missed : (x : Job) → asked_to_stop x ≡ false → IsPending [] x → IsLeft x
IsLeft-missed x miss s = ground (arith, s)

IsLeft-repeated : (now : ℕ) (x : Job) → may_repeat x ≡ true → IsLeft x → IsLeft (requeued now x)
IsLeft-repeated now x hit s = ground (arith, s)

IsLeft-required : (now : ℕ) (x : Job) → IsLeft x → IsSound none (recovery_required now x)
IsLeft-required now x s = ground (arith, s)

IsLeft-idle : (x : Job) → still_runs x ≡ false → IsLeft x → IsSound none x
IsLeft-idle x miss s = ground (arith, s)

recover_others-Inv :
    (now : ℕ) (t : Tally) → ArePending [] t.0.jobs → Inv none (recover_others now t).0.jobs
unfolding recover_others
recover_others-Inv now t h =
    let cancelled =
      All-update_where_from (IsPending []) IsLeft asked_to_stop (recovered_cancel now) t.0.jobs
        (λ x hit. IsLeft-cancelled now x) IsLeft-missed h.1 in
    let repeated =
      All-update_where_from IsLeft IsLeft may_repeat (requeued now) _ (IsLeft-repeated now)
        (λ x miss s. s) cancelled in
    let same = update_where-HasDistinctIds in
    record {
      distinct =
          same still_runs (recovery_required now) (λ x. refl) _
            (same may_repeat (requeued now) (λ x. refl) _
              (same asked_to_stop (recovered_cancel now) (λ x. refl) t.0.jobs h.0));
      sound =
          All-update_where_from IsLeft (IsSound none) still_runs (recovery_required now) _
            (λ x hit. IsLeft-required now x) IsLeft-idle repeated;
    }

-- The recovery at a start makes a sound table (ids distinct; three attempts at most, two in the
-- queue; queued jobs not asked to stop; progress in range) in which no job runs, from a sound
-- table with whatever job the last run was working on when it ended.
pub recover_jobs-Inv :
    (w : Option ℕ) (db : Db) (now : ℕ) → Inv w db.jobs → Inv none (recover_jobs db now).0.jobs
unfolding recover_jobs
recover_jobs-Inv w db now v =
    recover_others-Inv now (recover_pairs now (pairs db db.jobs) (db, 0))
      (recover_pairs-ArePending now (pairs db db.jobs) (db, 0) (pairs-ArePending db w db.jobs v))
