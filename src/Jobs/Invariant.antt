-- ===== src/Jobs/Invariant.antt =====
-- src/core/jobs.ts: what holds of every row of `jobs` between two calls.
use short_editor.Prelude.{
  ℕ, ◌≤◌, ◌≡◌, refl, ◌⊎◌, inl, inr, Bool, true, false, List, [], ◌∷◌, ◌++◌, Option, none, some,
  arith, All, All-both, All-append, All-update_where, All-update_where_from, find-update_where,
  find, update_where, subst, ==→eq, ==_self, ℤ, Option-cases, Bool-cases, ◌&&◌, not,
}
use Prim.Native.String.{String}
use short_editor.Store.{Db, Job, JobState, Payload, ErrorCode, after, Result-cases}
use short_editor.Jobs
use short_editor.Jobs.{
  JobRequest, whole, runs, opens, has_id, claimable, is_openai, oldest, started, refused, completed,
  clamp_progress, cancelled_job, update_jobs, new_job,
}
use short_editor.Jobs.Rows.{
  IsFresh, HasDistinctIds, oldest-holds, oldest-find, oldest-IsOnly, update_where-HasDistinctIds,
  append-HasDistinctIds,
}
use short_editor.Jobs.Runner.{Outcome, returned, threw, settle}

-- One row, where `working` is the id of the job in the runner's hands.
pub record IsSound (working : Option ℕ) (j : Job) : Type 0 where
  pub one_running : j.state ≡ JobState.running → working ≡ some j.id
  pub three_attempts : j.attempts ≤ 3
  pub fewer_when_queued : j.state ≡ JobState.queued → j.attempts ≤ 2
  pub queued_uncancelled : j.state ≡ JobState.queued → j.cancel_requested ≡ false
  pub progress_in_range : j.progress ≤ whole
  pub succeeded_whole : j.state ≡ JobState.succeeded → j.progress ≡ whole

pub record Inv (working : Option ℕ) (jobs : List Job) : Type 0 where
  pub distinct : HasDistinctIds jobs
  pub sound : All (IsSound working) jobs

module _ (w : Option ℕ) (p : Job → Bool) (f : Job → Job) where
  update_jobs-Inv :
      (db : Db)
      → ((j : Job) → (f j).id ≡ j.id)
      → ((j : Job) → p j ≡ true → IsSound w j → IsSound w (f j))
      → Inv w db.jobs
      → Inv w (update_jobs p f db).jobs
  update_jobs-Inv db same keep v = record {
    distinct = update_where-HasDistinctIds p f same db.jobs v.distinct;
    sound = All-update_where (IsSound w) p f db.jobs keep v.sound;
  }

new_job-IsSound :
    (w : Option ℕ) (request : JobRequest) (payload : Payload) (id now : ℕ)
    → IsSound w (new_job request payload id now)
new_job-IsSound w request payload id now = ground arith

pub progress-Inv :
    (w : Option ℕ) (db : Db) (id : ℕ) (amount : ℤ) (stage : String) (now : ℕ)
    → Inv w db.jobs
    → Inv w (Jobs.progress db id amount stage now).jobs
unfolding Jobs.progress
progress-Inv w db id amount stage now v =
    update_jobs-Inv w (runs id) _ db (λ j. refl) (λ j hit s. ground arith) v

-- The calls that end the running job leave no job running.
module _ (id : ℕ) (f : Job → Job) where
  finish-Inv :
      (db : Db)
      → ((j : Job) → (f j).id ≡ j.id)
      → ((j : Job) → IsSound (some id) j → IsSound none (f j))
      → Inv (some id) db.jobs
      → Inv none (update_jobs (runs id) f db).jobs
  finish-Inv db same ended v = record {
    distinct = update_where-HasDistinctIds (runs id) f same db.jobs v.distinct;
    sound =
        All-update_where_from (IsSound (some id)) (IsSound none) (runs id) f db.jobs
          (λ j hit s. ended j s) (λ j miss s. idle j miss s) v.sound;
  }
    where
      idle : (j : Job) → runs id j ≡ false → IsSound (some id) j → IsSound none j
      idle j miss s = ground arith

complete-Inv :
    (db : Db) (id now : ℕ) → Inv (some id) db.jobs → Inv none (Jobs.complete db id now).jobs
unfolding Jobs.complete
complete-Inv db id now v = finish-Inv id _ db (λ j. refl) (λ j s. ground arith) v

finalize_cancelled-Inv :
    (db : Db) (id now : ℕ)
    → Inv (some id) db.jobs
    → Inv none (Jobs.finalize_cancelled db id now).jobs
unfolding Jobs.finalize_cancelled
finalize_cancelled-Inv db id now v = finish-Inv id _ db (λ j. refl) (λ j s. ground arith) v

fail_job-Inv :
    (db : Db) (id : ℕ) (e : ErrorCode) (now : ℕ)
    → Inv (some id) db.jobs
    → Inv none (Jobs.fail_job db id e now).jobs
unfolding Jobs.fail_job
fail_job-Inv db id e now v = finish-Inv id _ db (λ j. refl) (λ j s. ground arith) v

pub settle-Inv :
    (db : Db) (j : Job) (o : Outcome) (now : ℕ)
    → Inv (some j.id) db.jobs
    → Inv none (settle db j o now).jobs
unfolding settle
settle-Inv db j returned now v =
    ground (arith, complete-Inv db j.id now v, finalize_cancelled-Inv db j.id now v)
settle-Inv db j (threw e) now v =
    ground (arith, fail_job-Inv db j.id e now v, finalize_cancelled-Inv db j.id now v)

cancelled_job-IsSound :
    (w : Option ℕ) (id now : ℕ) (j : Job)
    → opens id j ≡ true
    → IsSound w j
    → IsSound w (cancelled_job now j)
cancelled_job-IsSound w id now j hit s = ground arith

pub cancel-jobs :
    (db : Db) (id now : ℕ)
    → ((after db (Jobs.cancel db id now)).jobs ≡ db.jobs)
      ⊎ ((after db (Jobs.cancel db id now)).jobs
          ≡ update_where (opens id) (cancelled_job now) db.jobs)
unfolding Jobs.cancel Jobs.cancel_render
cancel-jobs db id now = ground arith

pub cancel-Inv :
    (w : Option ℕ) (db : Db) (id now : ℕ)
    → Inv w db.jobs
    → Inv w (after db (Jobs.cancel db id now)).jobs
cancel-Inv w db id now v = elim (cancel-jobs db id now) [
  | inl same ↦ rw same v
  | inr marked ↦ rw marked (
      update_jobs-Inv w (opens id) (cancelled_job now) db (λ j. ground arith)
        (λ j hit s. cancelled_job-IsSound w id now j hit s) v)
]

started-IsSound :
    (now : ℕ) (j : Job) → claimable j ≡ true → IsSound none j → IsSound (some j.id) (started now j)
started-IsSound now j c s = ground arith

start_job-Inv :
    (db : Db) (j : Job) (now : ℕ)
    → oldest claimable db.jobs ≡ some j
    → Inv none db.jobs
    → Inv (some j.id) (Jobs.start_job db j.id now).jobs
unfolding Jobs.start_job
start_job-Inv db j now e v = record {
  distinct = update_where-HasDistinctIds (has_id j.id) (started now) (λ k. refl) db.jobs v.distinct;
  sound =
      All-update_where_from (λ k. IsSound none k × (k.id ≡ j.id → k ≡ j)) (IsSound (some j.id))
        (has_id j.id) (started now) db.jobs (λ k hit s. chosen k hit s) (λ k miss s. other k s.0)
        (All-both _ _ db.jobs v.sound (oldest-IsOnly claimable db.jobs j v.distinct e));
}
  where
    picked : claimable j ≡ true
    picked = oldest-holds claimable db.jobs j e

    chosen :
        (k : Job)
        → has_id j.id k ≡ true
        → IsSound none k × (k.id ≡ j.id → k ≡ j)
        → IsSound (some j.id) (started now k)
    chosen k hit s =
        let same : k ≡ j = s.1 (==→eq k.id j.id hit) in
        rw same (started-IsSound now j picked (subst (IsSound none) same s.0))

    other : (k : Job) → IsSound none k → IsSound (some j.id) k
    other k s = ground arith

abbrev pub id_of : Option Job → Option ℕ
id_of none = none
id_of (some j) = some j.id

-- The row that `claimNext` gives to the runner.
start_job-find :
    (db : Db) (j : Job) (now : ℕ)
    → oldest claimable db.jobs ≡ some j
    → HasDistinctIds db.jobs
    → find (has_id j.id) (Jobs.start_job db j.id now).jobs ≡ some (started now j)
unfolding Jobs.start_job
start_job-find db j now e d = rw (
  find-update_where (has_id j.id) (has_id j.id) (started now) db.jobs (λ k hit. refl),
  oldest-find claimable db.jobs j d e,
  ==_self j.id,
)

refuse_unauthorized-Inv :
    (db : Db) (id now : ℕ) → Inv none db.jobs → Inv none (Jobs.refuse_unauthorized db id now).jobs
unfolding Jobs.refuse_unauthorized
refuse_unauthorized-Inv db id now v =
    update_jobs-Inv none _ (refused now) db (λ j. refl) (λ j hit s. ground arith) v

module _ (available : ℕ → Bool) where
  abbrev pub is_unauthorized : Db → Job → Bool
  is_unauthorized db j =
      is_openai j.provider && not (Jobs.is_currently_authorized available db j.entity_id j.payload)

  -- The three ways in which `claimNext` ends.
  abbrev pub Claims : Db → ℕ → Db × Option Job → Type 0
  Claims db now r =
      ((oldest claimable db.jobs ≡ none) × (r ≡ (db, none)))
      ⊎ ((j : Job) × (oldest claimable db.jobs ≡ some j)
          × (((is_unauthorized db j ≡ true) × (r ≡ (Jobs.refuse_unauthorized db j.id now, none)))
              ⊎ ((is_unauthorized db j ≡ false)
                  × (r ≡ (Jobs.start_job db j.id now, some (started now j))))))

  pub claim_next-Claims :
      (db : Db) (now : ℕ)
      → HasDistinctIds db.jobs
      → Claims db now (Jobs.claim_next available db now)
  unfolding Jobs.claim_next
  claim_next-Claims db now d = elim (Option-cases (oldest claimable db.jobs)) [
    | inl nothing ↦ inl (nothing, rw (nothing, Jobs.claim_next))
    | inr (j, e) ↦ inr (
      j,
      e,
      elim (Bool-cases (is_unauthorized db j)) [
        | inl bad ↦ inl (bad, rw (e, Jobs.claim_next) (rw bad))
        | inr good ↦
            inr (good, rw (e, Jobs.claim_next) (rw good (rw (start_job-find db j now e d))))
      ],
    )
  ]

  pub claim_next-Inv :
      (db : Db) (now : ℕ)
      → Inv none db.jobs
      → let (next, job) = Jobs.claim_next available db now in Inv (id_of job) next.jobs
  claim_next-Inv db now v = elim (claim_next-Claims db now v.distinct) [
    | inl (nothing, e) ↦ rw e v
    | inr (j, e, inl (bad, r)) ↦ rw r (refuse_unauthorized-Inv db j.id now v)
    | inr (j, e, inr (good, r)) ↦ rw r (start_job-Inv db j now e v)
  ]

  pub enqueue-jobs :
      (db : Db) (request : JobRequest) (id now : ℕ)
      → ((after db (Jobs.enqueue available db request id now)).jobs ≡ db.jobs)
        ⊎ ((payload : Payload) × ((after db (Jobs.enqueue available db request id now)).jobs
              ≡ db.jobs ++ new_job request payload id now ∷ []))
  unfolding Jobs.enqueue Jobs.insert_job
  enqueue-jobs db request id now = elim (Result-cases (Jobs.job_payload available db request)) [
    | inl (payload, e) ↦ inr (payload, rw e)
    | inr (code, e) ↦ inl (rw e)
  ]

  pub enqueue-Inv :
      (w : Option ℕ) (db : Db) (request : JobRequest) (id now : ℕ)
      → IsFresh id db.jobs
      → Inv w db.jobs
      → Inv w (after db (Jobs.enqueue available db request id now)).jobs
  enqueue-Inv w db request id now fresh v = elim (enqueue-jobs db request id now) [
    | inl same ↦ rw same v
    | inr (payload, e) ↦ rw e (record {
      distinct = append-HasDistinctIds db.jobs (new_job request payload id now) fresh v.distinct;
      sound =
          All-append (IsSound w) db.jobs _ v.sound (new_job-IsSound w request payload id now, tt);
    })
  ]
