-- ===== src/Jobs/Terminal.antt =====
-- src/core/jobs.ts: a job that has succeeded, failed or been cancelled.
use short_editor.Prelude.{
  ℕ, ◌≡◌, refl, sym, inl, inr, Bool, true, false, List, some, arith, find, find-update_where,
  find-holds, ==→eq, update_where, Option-cases, Bool-cases, ◌∙◌, subst, ℤ,
}
use Prim.Native.String.{String}
use short_editor.Store.{Db, Job, JobType, ErrorCode, after}
use short_editor.Jobs
use short_editor.Jobs.{
  JobRequest, is_open, is_queued, has_id, claimable, oldest, opens, runs, cancelled_job, started,
}
use short_editor.Jobs.Rows.{HasDistinctIds, oldest-holds, oldest-find, find-append}
use short_editor.Jobs.Runner.{Runner, Outcome, returned, threw, settle, stop}
use short_editor.Jobs.Invariant.{claim_next-Claims, cancel-jobs, enqueue-jobs}
use short_editor.Jobs.Surviving.{Holds, recover_jobs-Holds}
use short_editor.Jobs.Trace.{
  Step, enqueues, enqueues_unique, inserts, cancels, progresses, works, begins, ends, starts, stops,
  restarts, Reach, here, next, RunnerInv, Reach-RunnerInv, begin_tick-cases, end_tick-cases,
  start-cases,
}

module _ (id : ℕ) (j : Job) (closed : is_open j.state ≡ false) where
  -- An update of open rows only passes a closed row by.
  closed-update :
      (p : Job → Bool) (f : Job → Job) (js : List Job)
      → ((k : Job) → (f k).id ≡ k.id)
      → ((k : Job) → p k ≡ true → is_open k.state ≡ true)
      → Holds id j js
      → Holds id j (update_where p f js)
  closed-update p f js same opened h = elim (Bool-cases (p j)) [
    | inl hit ↦ (let open_j = opened j hit in cc)
    | inr miss ↦ rw (find-update_where (has_id id) p f js (λ k hit. rw (same k)), h, miss)
  ]

  closed-progress :
      (db : Db) (k : ℕ) (amount : ℤ) (stage : String) (now : ℕ)
      → Holds id j db.jobs
      → Holds id j (Jobs.progress db k amount stage now).jobs
  unfolding Jobs.progress
  closed-progress db k amount stage now h =
      closed-update (runs k) _ db.jobs (λ x. refl) (λ x hit. ground arith) h

  closed-complete :
      (db : Db) (k now : ℕ) → Holds id j db.jobs → Holds id j (Jobs.complete db k now).jobs
  unfolding Jobs.complete
  closed-complete db k now h =
      closed-update (runs k) _ db.jobs (λ x. refl) (λ x hit. ground arith) h

  closed-finalize_cancelled :
      (db : Db) (k now : ℕ)
      → Holds id j db.jobs
      → Holds id j (Jobs.finalize_cancelled db k now).jobs
  unfolding Jobs.finalize_cancelled
  closed-finalize_cancelled db k now h =
      closed-update (runs k) _ db.jobs (λ x. refl) (λ x hit. ground arith) h

  closed-fail_job :
      (db : Db) (k : ℕ) (e : ErrorCode) (now : ℕ)
      → Holds id j db.jobs
      → Holds id j (Jobs.fail_job db k e now).jobs
  unfolding Jobs.fail_job
  closed-fail_job db k e now h =
      closed-update (runs k) _ db.jobs (λ x. refl) (λ x hit. ground arith) h

  closed-settle :
      (db : Db) (k : Job) (o : Outcome) (now : ℕ)
      → Holds id j db.jobs
      → Holds id j (settle db k o now).jobs
  unfolding settle
  closed-settle db k returned now h =
      ground (arith, closed-complete db k.id now h, closed-finalize_cancelled db k.id now h)
  closed-settle db k (threw e) now h =
      ground (arith, closed-fail_job db k.id e now h, closed-finalize_cancelled db k.id now h)

  closed-cancel :
      (db : Db) (k now : ℕ) → Holds id j db.jobs → Holds id j (after db (Jobs.cancel db k now)).jobs
  closed-cancel db k now h = elim (cancel-jobs db k now) [
    | inl same ↦ rw same h
    | inr marked ↦ rw marked (
        closed-update (opens k) (cancelled_job now) db.jobs (λ x. ground arith)
          (λ x hit. ground arith) h)
  ]

  closed-start_job :
      (db : Db) (k : Job) (now : ℕ)
      → HasDistinctIds db.jobs
      → oldest claimable db.jobs ≡ some k
      → Holds id j db.jobs
      → Holds id j (Jobs.start_job db k.id now).jobs
  unfolding Jobs.start_job
  closed-start_job db k now d e h = elim (Bool-cases (has_id k.id j)) [
    | inl hit ↦ absurd (claimed (==→eq j.id k.id hit))
    | inr miss ↦
        rw (
          find-update_where (has_id id) (has_id k.id) (started now) db.jobs (λ x hit. refl),
          h,
          miss,
        )
  ]
    where
      claimed : j.id ≡ k.id → ⊥
      claimed at =
          let own : j.id ≡ id = ==→eq j.id id (find-holds (has_id id) db.jobs j h) in
          let at_k : find (has_id id) db.jobs ≡ some k =
            subst (λ n. find (has_id n) db.jobs ≡ some k) (sym at ∙ own)
              (oldest-find claimable db.jobs k d e) in
          ground (arith, oldest-holds claimable db.jobs k e)

  closed-claim_next :
      (available : ℕ → Bool) (db : Db) (now : ℕ)
      → HasDistinctIds db.jobs
      → Holds id j db.jobs
      → Holds id j (Jobs.claim_next available db now).0.jobs
  unfolding Jobs.refuse_unauthorized
  closed-claim_next available db now d h = elim (claim_next-Claims available db now d) [
    | inl (nothing, r) ↦ rw r h
    | inr (k, e, inl (bad, r)) ↦
        rw r (closed-update _ _ db.jobs (λ x. refl) (λ x hit. ground arith) h)
    | inr (k, e, inr (good, r)) ↦ rw r (closed-start_job db k now d e h)
  ]

  closed-enqueue :
      (available : ℕ → Bool) (db : Db) (request : JobRequest) (k now : ℕ)
      → Holds id j db.jobs
      → Holds id j (after db (Jobs.enqueue available db request k now)).jobs
  closed-enqueue available db request k now h = elim (enqueue-jobs available db request k now) [
    | inl same ↦ rw same h
    | inr (payload, e) ↦ rw e (find-append (has_id id) db.jobs _ j h)
  ]

  closed-enqueue_unique :
      (available : ℕ → Bool) (db : Db) (request : JobRequest) (k now : ℕ)
      → Holds id j db.jobs
      → Holds id j (after db (Jobs.enqueue_unique available db request k now)).jobs
  unfolding Jobs.enqueue_unique
  closed-enqueue_unique available db request k now h =
      elim (Option-cases (oldest (Jobs.pending_like request) db.jobs)) [
        | inl absent ↦
            rw (absent, Jobs.enqueue_unique) (closed-enqueue available db request k now h)
        | inr (m, e) ↦ rw (e, Jobs.enqueue_unique) h
      ]

  module _ (available : ℕ → Bool) (installed : JobType → Bool) where
    closed-Step :
        {r s : Runner}
        → RunnerInv available installed r
        → Step available installed r s
        → Holds id j r.db.jobs
        → Holds id j s.db.jobs
    unfolding Jobs.insert_job stop
    closed-Step {r} v (enqueues request k now fresh) h =
        closed-enqueue available r.db request k now h
    closed-Step {r} v (enqueues_unique request k now fresh) h =
        closed-enqueue_unique available r.db request k now h
    closed-Step {r} v (inserts k fresh new) h = find-append (has_id id) r.db.jobs _ j h
    closed-Step {r} v (cancels k now) h = closed-cancel r.db k now h
    closed-Step {r} v (progresses k amount stage now) h = closed-progress r.db k amount stage now h
    closed-Step {r} v (works db same) h = rw same h
    closed-Step {r} v (begins now) h = elim (begin_tick-cases available installed r now) [
      | inl same ↦ rw same h
      | inr (idle, e) ↦ rw e (closed-claim_next available r.db now v.distinct h)
    ]
    closed-Step {r} v (ends o now) h = elim (end_tick-cases available installed r o now) [
      | inl same ↦ rw same h
      | inr (k, busy, e) ↦ rw e (closed-settle r.db k _ now h)
    ]
    closed-Step {r} v starts h = rw (start-cases available installed r).0 h
    closed-Step {r} v stops h = h
    closed-Step {r} v (restarts now) h = recover_jobs-Holds id j r.db now closed v.distinct h

    -- In the table of a sound runner, a job that has succeeded, failed or been cancelled keeps its
    -- row, unchanged, through every history of calls and restarts.
    pub closed-Reach :
        {r s : Runner}
        → RunnerInv available installed r
        → Reach available installed r s
        → Holds id j r.db.jobs
        → Holds id j s.db.jobs
    closed-Reach v here h = h
    closed-Reach v (next before step) h =
        closed-Step (Reach-RunnerInv available installed v before) step (closed-Reach v before h)
