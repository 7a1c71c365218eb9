-- ===== src/Jobs.antt =====
-- src/core/jobs.ts, the class `JobQueue`, with `insertJob`, `listJobs` and `findCloudAuthorization` of
-- src/core/repository.ts. `now` stands for the clock and an `id` argument for `randomUUID()`.
pub mod Rows
pub mod Runner
pub mod Invariant
pub mod Trace
pub mod Settling
pub mod Cloud
pub mod Terminal
pub mod Recovery
pub mod Recovered
pub mod Restart
pub mod Surviving
use Prim.Native.String.{String}
use text.Mathlib.Text.{◌==◌ as str_eq}
use short_editor.Prelude.{
  ℕ, ◌+◌, ◌==◌, min, ℤ, pos, negsuc, if◌then◌else◌, Bool, true, false, not, ◌&&◌, ◌||◌, leb, List,
  [], ◌∷◌, ◌++◌, Option, none, some, find, any, update_where, option_eq, is_some,
}
use short_editor.Store.{
  Job, JobType, JobState, RenderState, Render, Provider, local, openai, ScopeType, project, batch,
  Payload, plain, snapshot, cloud, Authorization, Db, ErrorCode, Result, ok, fail, ◌>>=◌, ◌>>◌,
  require, found_or,
}

pub record JobRequest : Type 0 where
  pub type : JobType
  pub entity_id : Option ℕ
  pub payload : Payload
  pub provider : Option Provider
  pub operation_class : Option String
  pub scope : Option (ScopeType × ℕ)

abbrev pub whole : ℕ
whole = 1000000

abbrev pub is_queued : JobState → Bool
is_queued JobState.queued = true
is_queued _ = false

abbrev pub is_running : JobState → Bool
is_running JobState.running = true
is_running _ = false

-- `state IN ('queued','running')`
abbrev pub is_open : JobState → Bool
is_open s = is_queued s || is_running s

abbrev pub has_id : ℕ → Job → Bool
has_id id j = j.id == id

abbrev pub render_has_id : ℕ → Render → Bool
render_has_id id r = r.id == id

abbrev pub render_is_queued : RenderState → Bool
render_is_queued RenderState.queued = true
render_is_queued _ = false

abbrev pub render_is_running : RenderState → Bool
render_is_running RenderState.running = true
render_is_running _ = false

abbrev pub render_is_succeeded : RenderState → Bool
render_is_succeeded RenderState.succeeded = true
render_is_succeeded _ = false

abbrev pub same_scope : ScopeType → ScopeType → Bool
same_scope project project = true
same_scope batch batch = true
same_scope _ _ = false

abbrev pub same_provider : Provider → Provider → Bool
same_provider local local = true
same_provider openai openai = true
same_provider _ _ = false

abbrev pub includes : List String → String → Bool
includes ss s = any (λ t. str_eq t s) ss

-- `WHERE scope_type=? AND scope_id=? AND provider=? AND revoked_at IS NULL`
abbrev pub grants : ScopeType → ℕ → Provider → Authorization → Bool
grants scope id provider a =
    same_scope a.scope_type scope
    && a.scope_id == id
    && same_provider a.provider provider
    && not (is_some a.revoked_at)

unfoldable pub find_cloud_authorization :
    Db → ScopeType → ℕ → Provider → String → Option Authorization
find_cloud_authorization db scope id provider operation =
    elim (find (grants scope id provider) db.authorizations) [
      | none ↦ none
      | some a ↦ if includes a.operation_classes operation then some a else none
    ]

unfoldable pub insert_job : Db → Job → Db
insert_job db j = record db { jobs = db.jobs ++ j ∷ [] }

-- A string that is absent or empty is falsy.
abbrev pub non_empty : Option String → Option String
non_empty none = none
non_empty (some s) = if str_eq s "" then none else some s

abbrev pub default_scope : Option (ScopeType × ℕ) → ℕ → ScopeType × ℕ
default_scope none entity = (project, entity)
default_scope (some scope) entity = scope

abbrev pub new_job : JobRequest → Payload → ℕ → ℕ → Job
new_job request payload id now = record {
  id = id;
  type = request.type;
  entity_id = request.entity_id;
  provider = request.provider;
  state = JobState.queued;
  progress = 0;
  stage = "queued";
  attempts = 0;
  cancel_requested = false;
  error_code = none;
  payload_reference = none;
  payload = payload;
  created_at = now;
  updated_at = now;
}

abbrev pub is_openai : Option Provider → Bool
is_openai (some openai) = true
is_openai _ = false

abbrev pub type_code : JobType → ℕ
type_code JobType.probe = 0
type_code JobType.hash = 1
type_code JobType.analyze = 2
type_code JobType.candidates = 3
type_code JobType.render = 4
type_code JobType.watched_folder_scan = 5
type_code JobType.source_reconcile = 6

abbrev pub same_type : JobType → JobType → Bool
same_type a b = type_code a == type_code b

abbrev pub update_jobs : (Job → Bool) → (Job → Job) → Db → Db
update_jobs p f db = record db { jobs = update_where p f db.jobs }

-- `WHERE id=? AND state='running'`
abbrev pub runs : ℕ → Job → Bool
runs id j = has_id id j && is_running j.state

abbrev pub opens : ℕ → Job → Bool
opens id j = has_id id j && is_open j.state

abbrev pub claimable : Job → Bool
claimable j = is_queued j.state && not j.cancel_requested

-- `ORDER BY created_at LIMIT 1`; rows of one instant come in insertion order.
unfoldable pub oldest : (Job → Bool) → List Job → Option Job
oldest p [] = none
oldest p (j ∷ js) = elim (oldest p js) [
  | none ↦ if p j then some j else none
  | some k ↦ if p j && leb j.created_at k.created_at then some j else some k
]

abbrev pub refused : ℕ → Job → Job
refused now j = record j {
  state = JobState.failed;
  stage = "failed";
  error_code = some ErrorCode.cloud_not_authorized;
  updated_at = now;
}

unfoldable pub refuse_unauthorized : Db → ℕ → ℕ → Db
refuse_unauthorized db id now = update_jobs (λ j. has_id id j && is_queued j.state) (refused now) db

abbrev pub started : ℕ → Job → Job
started now j = record j {
  state = JobState.running;
  stage = "starting";
  attempts = j.attempts + 1;
  updated_at = now;
}

unfoldable pub start_job : Db → ℕ → ℕ → Db
start_job db id now = update_jobs (has_id id) (started now) db

-- `Math.max(0, Math.min(1, progress))`, in millionths.
abbrev pub clamp_progress : ℤ → ℕ
clamp_progress (pos n) = min whole n
clamp_progress (negsuc n) = 0

unfoldable pub progress : Db → ℕ → ℤ → String → ℕ → Db
progress db id amount stage now =
    update_jobs (runs id)
      (λ j. record j { progress = clamp_progress amount; stage = stage; updated_at = now }) db

abbrev pub completed : ℕ → Job → Job
completed now j = record j {
  state = JobState.succeeded;
  progress = whole;
  stage = "complete";
  updated_at = now;
}

unfoldable pub complete : Db → ℕ → ℕ → Db
complete db id now = update_jobs (runs id) (completed now) db

abbrev pub finally_cancelled : ℕ → Job → Job
finally_cancelled now j = record j {
  state = JobState.cancelled;
  stage = "cancelled";
  updated_at = now;
}

unfoldable pub finalize_cancelled : Db → ℕ → ℕ → Db
finalize_cancelled db id now = update_jobs (runs id) (finally_cancelled now) db

abbrev pub failed_with : ErrorCode → ℕ → Job → Job
failed_with error now j = record j {
  state = JobState.failed;
  stage = "failed";
  error_code = some error;
  updated_at = now;
}

unfoldable pub fail_job : Db → ℕ → ErrorCode → ℕ → Db
fail_job db id error now = update_jobs (runs id) (failed_with error now) db

-- `cancel_requested=1`, and a queued job is cancelled at once.
abbrev pub cancelled_job : ℕ → Job → Job
cancelled_job now j =
    if is_queued j.state
    then record j {
      cancel_requested = true;
      state = JobState.cancelled;
      stage = "cancelled";
      error_code = some ErrorCode.job_cancelled;
      updated_at = now;
    }
    else record j { cancel_requested = true; updated_at = now }

abbrev pub queued_render : ℕ → Render → Bool
queued_render id r = render_has_id id r && render_is_queued r.state

abbrev pub cancelled_render : ℕ → Render → Render
cancelled_render now r = record r {
  state = RenderState.cancelled;
  error_code = some ErrorCode.job_cancelled;
  updated_at = now;
}

abbrev pub render_succeeded : Db → ℕ → Bool
render_succeeded db id = elim (find (render_has_id id) db.renders) [
  | none ↦ false
  | some r ↦ render_is_succeeded r.state
]

-- The Render of a cancelled job: a queued one is cancelled with it, a finished one refuses.
unfoldable pub cancel_render : Db → JobState → Option ℕ → ℕ → Result Db
cancel_render db state none now = ok db
cancel_render db state (some id) now =
    if is_queued state
    then (if any (queued_render id) db.renders
        then ok (record db {
          renders = update_where (queued_render id) (cancelled_render now) db.renders;
        })
        else fail ErrorCode.invalid_state)
    else if render_succeeded db id
    then fail ErrorCode.invalid_state
    else ok db

unfoldable pub cancel : Db → ℕ → ℕ → Result (Db × Unit {0})
cancel db id now = do
  row ← found_or (find (has_id id) db.jobs) ErrorCode.invalid_state
  require (is_open row.state) ErrorCode.invalid_state
  let marked = update_jobs (opens id) (cancelled_job now) db
  next ← cancel_render marked row.state row.payload_reference now
  ok (next, tt)

unfoldable pub cancellation_requested : Db → ℕ → Bool
cancellation_requested db id = elim (find (has_id id) db.jobs) [
  | none ↦ false
  | some j ↦ j.cancel_requested
]

unfoldable pub render_completed : Db → ℕ → Bool
render_completed db id = elim (find (has_id id) db.jobs) [
  | none ↦ false
  | some j ↦ elim j.payload_reference [ none ↦ false | some r ↦ render_succeeded db r ]
]

-- The test of `enqueueUnique` for a job of this kind that is still open.
abbrev pub pending_like : JobRequest → Job → Bool
pending_like request j =
    same_type j.type request.type && is_open j.state && option_eq j.entity_id request.entity_id

-- `available` is the callback `credentialHandleAvailable`.
module _ (available : ℕ → Bool) where
  -- The payload of a cloud job, if it is authorized.
  unfoldable pub cloud_payload : Db → JobRequest → Result Payload
  cloud_payload db request = do
    entity ← found_or request.entity_id ErrorCode.cloud_not_authorized
    operation ← found_or (non_empty request.operation_class) ErrorCode.cloud_not_authorized
    let scope = default_scope request.scope entity
    authorization ←
        found_or (find_cloud_authorization db scope.0 scope.1 openai operation)
          ErrorCode.cloud_not_authorized
    handle ← found_or authorization.credential_handle ErrorCode.cloud_not_authorized
    require (available handle) ErrorCode.cloud_not_authorized
    ok (cloud operation scope.0 scope.1 handle request.payload)

  unfoldable pub job_payload : Db → JobRequest → Result Payload
  job_payload db request =
      if is_openai request.provider then cloud_payload db request else ok request.payload

  unfoldable pub enqueue : Db → JobRequest → ℕ → ℕ → Result (Db × Job)
  enqueue db request id now = do
    payload ← job_payload db request
    let job = new_job request payload id now
    ok (insert_job db job, job)

  unfoldable pub enqueue_unique : Db → JobRequest → ℕ → ℕ → Result (Db × Job)
  enqueue_unique db request id now = elim (oldest (pending_like request) db.jobs) [
    | none ↦ enqueue db request id now
    | some j ↦ ok (db, j)
  ]

  unfoldable pub is_currently_authorized : Db → Option ℕ → Payload → Bool
  is_currently_authorized db none payload = false
  is_currently_authorized db (some entity) (plain n) = false
  is_currently_authorized db (some entity) (snapshot s) = false
  is_currently_authorized db (some entity) (cloud operation scope id handle options) =
      elim (find_cloud_authorization db scope id openai operation) [
        | none ↦ false
        | some a ↦ option_eq a.credential_handle (some handle) && available handle
      ]

  -- The chosen job, marked as running; an openai job whose authorization is gone fails instead.
  unfoldable pub claim_next : Db → ℕ → Db × Option Job
  claim_next db now = elim (oldest claimable db.jobs) [
    | none ↦ (db, none)
    | some j ↦
        if is_openai j.provider && not (is_currently_authorized db j.entity_id j.payload)
        then (refuse_unauthorized db j.id now, none)
        else (let started = start_job db j.id now in (started, find (has_id j.id) started.jobs))
  ]
