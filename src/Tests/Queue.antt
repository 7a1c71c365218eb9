-- ===== src/Tests/Queue.antt =====
-- Runs of the job queue and of its recovery.
use short_editor.Prelude.{ℕ, ◌≡◌, refl, Bool, true, false, [], ◌∷◌, none, some, arith}
use short_editor.Store.{
  Db, Job, JobType, JobState, openai, Payload, plain, cloud, ScopeType, Authorization,
}
use short_editor.Jobs.{
  JobRequest, oldest, claim_next, enqueue, job_payload, cloud_payload, is_currently_authorized,
  find_cloud_authorization, insert_job, start_job, complete, cancellation_requested, started,
}
use short_editor.Jobs.Runner.{Runner, returned, begin_tick, end_tick, settle}
use short_editor.Jobs.Invariant.{Inv}
use short_editor.Jobs.Trace.{Reach, here, next, begins, ends, RunnerInv, Reach-RunnerInv}
use short_editor.Jobs.Surviving.{Holds}
use short_editor.Jobs.Terminal.{closed-Reach}
use short_editor.Jobs.Settling.{state_of, Verdict, settle-Verdict}
use short_editor.Jobs.Cloud.{
  IsGrantedPayload, claim_next-IsGrantedPayload, enqueue-IsGrantedPayload,
}
use short_editor.Jobs.Recovery.{
  recover_jobs, recover_others, recover_pairs, recover_pair, recover_settled, pairs,
}
use short_editor.Jobs.Restart.{recover_jobs-Inv}
use short_editor.Tests.{analyze_job, empty_db, jobs_db}

runner : Unit {0}
unfolding claim_next oldest start_job is_currently_authorized begin_tick end_tick settle complete
    cancellation_requested
runner = tt

cloud_queue : Unit {0}
unfolding runner find_cloud_authorization enqueue job_payload cloud_payload insert_job
cloud_queue = tt

recovery : Unit {0}
unfolding recover_jobs recover_others recover_pairs recover_pair recover_settled pairs
recovery = tt

abbrev available : ℕ → Bool
available n = true

abbrev installed : JobType → Bool
installed t = true

-- A job that has failed, and one that waits.
abbrev two_jobs : Db
two_jobs = jobs_db (analyze_job 1 0 JobState.failed 3 ∷ analyze_job 2 1 JobState.queued 0 ∷ [])

abbrev idle : Runner
idle = record { db = two_jobs; claimed = none; stopping = false; ticking = true }

idle-RunnerInv : RunnerInv available installed idle
idle-RunnerInv = record {
  distinct = ((λ e. cc, tt), (tt, tt));
  sound = (ground arith, (ground arith, tt));
}

abbrev worked : Runner
worked = end_tick installed (begin_tick available idle 5) returned 6

worked-Reach : Reach available installed idle worked
worked-Reach = next (next here (begins 5)) (ends returned 6)

worked_test : state_of 2 worked.db ≡ some JobState.succeeded
unfolding runner
worked_test = refl

Reach-RunnerInv_example : RunnerInv available installed worked
Reach-RunnerInv_example = Reach-RunnerInv available installed idle-RunnerInv worked-Reach

closed-Reach_example : Holds 1 (analyze_job 1 0 JobState.failed 3) worked.db.jobs
closed-Reach_example =
    closed-Reach 1 (analyze_job 1 0 JobState.failed 3) refl available installed idle-RunnerInv
      worked-Reach refl

-- The runner holds job 2 and its handler returns.
abbrev busy : Db
busy = jobs_db (analyze_job 2 1 JobState.running 1 ∷ [])

settle-Verdict_example :
    (s : JobState) × (state_of 2 (settle busy (analyze_job 2 1 JobState.running 1) returned 9)
      ≡ some s)
    × Verdict busy (analyze_job 2 1 JobState.running 1) returned s
settle-Verdict_example =
    settle-Verdict busy (analyze_job 2 1 JobState.running 1) 9 refl refl returned

-- A grant for analysis, and a job that an openai model is to do under it.
abbrev grant : Authorization
grant = record {
  id = 4;
  scope_type = ScopeType.project;
  scope_id = 1;
  provider = openai;
  operation_classes = "candidate" ∷ [];
  credential_handle = some 9;
  revoked_at = none;
}

abbrev cloud_request : JobRequest
cloud_request = record {
  type = JobType.candidates;
  entity_id = some 1;
  payload = plain 3;
  provider = some openai;
  operation_class = some "candidate";
  scope = none;
}

abbrev granted_db : Db
granted_db = record empty_db { authorizations = grant ∷ [] }

abbrev granted_payload : Payload
granted_payload = cloud "candidate" ScopeType.project 1 9 (plain 3)

abbrev cloud_job : Job
cloud_job = record (analyze_job 3 7 JobState.queued 0) {
  type = JobType.candidates;
  provider = some openai;
  payload = granted_payload;
}

abbrev cloud_db : Db
cloud_db = record granted_db { jobs = cloud_job ∷ [] }

claim_next-IsGrantedPayload_example : IsGrantedPayload available cloud_db granted_payload
unfolding cloud_queue
claim_next-IsGrantedPayload_example =
    claim_next-IsGrantedPayload available cloud_db 8 (started 8 cloud_job) (tt, tt) refl refl

-- The application ended while job 2 was running.
interrupted-Inv : Inv (some 2) busy.jobs
interrupted-Inv = record { distinct = (tt, tt); sound = (ground arith, tt) }

recovered_test : state_of 2 (recover_jobs busy 20).0 ≡ some JobState.queued
unfolding recovery
recovered_test = refl

recover_jobs-Inv_example : Inv none (recover_jobs busy 20).0.jobs
recover_jobs-Inv_example = recover_jobs-Inv (some 2) busy 20 interrupted-Inv

enqueue-IsGrantedPayload_example :
    IsGrantedPayload available granted_db granted_payload
    × (cloud_db ≡ insert_job granted_db cloud_job)
unfolding cloud_queue
enqueue-IsGrantedPayload_example =
    enqueue-IsGrantedPayload available granted_db cloud_db cloud_request 3 7 cloud_job refl refl
