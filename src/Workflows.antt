-- ===== src/Workflows.antt =====
-- src/shared/workflow-contracts.ts and src/core/short-workflows.ts: the rows of the Short workflows, the
-- world that a call sees, and the calls that the coordinator makes of the core.
pub mod Rows
pub mod Choices
pub mod Steps
pub mod Finishing
pub mod Calls
pub mod Resuming
pub mod Trail
pub mod Rules
pub mod Updates
pub mod Moving
pub mod Drafting
pub mod Ending
pub mod Keeping
pub mod Histories
pub mod Retrying
pub mod Rounds
pub mod Dropping
pub mod Ends
pub mod Picking
use short_editor.Prelude.{ℕ, ◌+◌, Bool, true, false, List, Option, none, some}
use short_editor.Paths.{Text}
use short_editor.Store.{
  Db, ErrorCode, dependency_unavailable, provider_unavailable, internal_error, Result, fail, ok,
}

-- `shortWorkflowStates`
pub data WorkflowState : Type 0 where
  importing analyzing selecting_candidate assembling_draft : WorkflowState
  awaiting_review preflighting rendering exporting failed cancelled completed : WorkflowState

pub data Preset : Type 0 where
  hook lower_third end_card : Preset

-- `motionGraphicLayerSchema`, but for its texts, theme and region.
pub record MotionGraphicLayer : Type 0 where
  pub preset : Preset
  pub start_ms : ℕ
  pub end_ms : ℕ

pub record Graphics : Type 0 where
  pub enabled : Bool
  pub presets : List Preset

pub record WorkflowInput : Type 0 where
  pub source_path : Text
  pub target_duration_ms : ℕ
  pub template_id : Option ℕ
  pub captions_enabled : Bool
  pub graphics : Graphics
  pub export_directory : Option Text
  pub auto_approve : Bool  -- `reviewMode === "auto_approve"`
  pub idempotency_key : Option Text

pub record Failure : Type 0 where
  pub code : ErrorCode
  pub retryable : Bool
  pub stage : WorkflowState

-- A row of `short_workflows`.
pub record Workflow : Type 0 where
  pub id : ℕ
  pub request_hash : ℕ
  pub state : WorkflowState
  pub revision : ℕ
  pub input : WorkflowInput
  pub progress : ℕ  -- millionths
  pub graphics_proposal : List MotionGraphicLayer
  pub episode_id : Option ℕ
  pub analysis_job_id : Option ℕ
  pub candidate_id : Option ℕ
  pub short_id : Option ℕ
  pub preflight_id : Option ℕ
  pub render_id : Option ℕ
  pub render_job_id : Option ℕ
  pub export_path : Option (Text × Text)  -- a directory and the name of a file in it
  pub failure : Option Failure
  pub created_at : ℕ
  pub updated_at : ℕ

-- `activeStates`
abbrev pub is_active : WorkflowState → Bool
is_active WorkflowState.failed = false
is_active WorkflowState.cancelled = false
is_active WorkflowState.completed = false
is_active _ = true

-- The database and the process: `rest` is what the tables of `Db` leave out, `advancing` the ids that
-- the coordinator is at work on, `next_id` what `randomUUID()` draws from.
pub record World (R : Type 0) : Type 0 where
  pub db : Db
  pub rest : R
  pub workflows : List Workflow
  pub advancing : List ℕ
  pub next_id : ℕ
  pub clock : ℕ

-- An `AppError`.
pub record Fault : Type 0 where
  pub code : ErrorCode
  pub retryable : Bool

-- How a call ends. It leaves what it has written even where it throws.
pub data Outcome (A : Type 0) : Type 0 where
  threw : Fault → Outcome A
  returned : A → Outcome A

abbrev pub Run : Type 0 → Type 0 → Type 0
Run R A = World R → World R × Outcome A

-- A synchronous call of the core, which does not reach the rows of the workflows.
abbrev pub CoreCall : Type 0 → Type 0 → Type 0
CoreCall R A = Db → R → (Db × R) × Outcome A

-- `errorRegistry[code].retryable`
abbrev pub registry_retryable : ErrorCode → Bool
registry_retryable ErrorCode.dependency_unavailable = true
registry_retryable ErrorCode.provider_unavailable = true
registry_retryable _ = false

abbrev pub fault_of : ErrorCode → Fault
fault_of code = record { code = code; retryable = registry_retryable code }

module _ {A : Type 0} where
  abbrev pub read_as : Result A → Outcome A
  read_as (fail code) = threw (fault_of code)
  read_as (ok a) = returned a

module _ {R A : Type 0} where
  unfoldable pub pure : A → Run R A
  pure a w = (w, returned a)

  unfoldable pub throw : Fault → Run R A
  throw e w = (w, threw e)

  unfoldable pub found : Option A → ErrorCode → Run R A
  unfolding pure throw
  found none code = throw (fault_of code)
  found (some a) code = pure a

  unfoldable pub gets : (World R → A) → Run R A
  gets f w = (w, returned (f w))

  -- A query of the tables.
  unfoldable pub query : (Db → Result A) → Run R A
  query f w = (w, read_as (f w.db))

  abbrev pub written_as : Result (Db × A) → Run R A
  written_as (fail code) w = (w, threw (fault_of code))
  written_as (ok (next, a)) w = (record w { db = next }, returned a)

  -- A transaction on the tables, rolled back where it throws.
  unfoldable pub transact : (Db → Result (Db × A)) → Run R A
  transact f w = written_as (f w.db) w

  unfoldable pub call : CoreCall R A → Run R A
  call f w =
      let ((db, rest), outcome) = f w.db w.rest in (record w { db = db; rest = rest }, outcome)

module _ {R A B : Type 0} where
  -- What follows a call: nothing where it threw.
  abbrev pub resume_from : World R × Outcome A → (A → Run R B) → World R × Outcome B
  resume_from (v, threw e) f = (v, threw e)
  resume_from (v, returned a) f = f a v

  infixl 5 ◌>>=◌
  unfoldable pub ◌>>=◌ : Run R A → (A → Run R B) → Run R B
  ◌>>=◌ m f w = resume_from (m w) f

module _ {R B : Type 0} where
  infixl 5 ◌>>◌
  abbrev pub ◌>>◌ : Run R (Unit {0}) → Run R B → Run R B
  m >> k = m >>= λ nothing. k

module _ {R : Type 0} where
  unfoldable pub demand : Bool → ErrorCode → Run R (Unit {0})
  unfolding pure throw
  demand true code = pure tt
  demand false code = throw (fault_of code)

  unfoldable pub draw : Run R ℕ
  draw w = (record w { next_id = w.next_id + 1 }, returned w.next_id)

  -- `new Date()`
  unfoldable pub now : Run R ℕ
  now w = (w, returned w.clock)

pub record ImportedEpisode : Type 0 where
  pub id : ℕ
  pub source_path : Text

pub record Imports : Type 0 where
  pub imported : List ImportedEpisode
  pub duplicates : List ImportedEpisode
  pub relinked : List ImportedEpisode

pub record Candidate : Type 0 where
  pub id : ℕ
  pub revision : ℕ
  pub start_ms : ℕ
  pub end_ms : ℕ
  pub score : ℕ  -- millionths
  pub approved : Bool

-- `CandidateContentPackage`: the revision it is on, and whether a copy has been accepted.
pub record ContentPackage : Type 0 where
  pub candidate_revision : ℕ
  pub accepted : Bool
  pub proposed : ℕ

pub data Copying : Type 0 where
  copied exists broken : Copying

-- What `createShort` keys a request by.
pub data RequestKey : Type 0 where
  keyed : Text → RequestKey
  described : WorkflowInput → RequestKey

-- What the coordinator uses of other services. A call that it awaits may change the whole world, since
-- other calls run meanwhile.
pub record Core (R : Type 0) : Type 0 where
  pub import_paths : Text → Run R Imports
  pub preflight_workflow_render : ℕ → ℕ → List MotionGraphicLayer → Run R (ℕ × Bool)
  pub find_directory : Text → Run R (Option Text)
  pub copy_file : Text → Text × Text → Run R Copying
  pub file_hash : Text × Text → Run R (Option ℕ)
  pub has_accepted_transcript : ℕ → Db → R → Bool
  pub generate_candidates : ℕ → CoreCall R (List Candidate)
  pub get_candidate : ℕ → CoreCall R Candidate
  pub get_content_package : ℕ → CoreCall R ContentPackage
  pub accept_content_package : ℕ → ℕ → ℕ → CoreCall R (Unit {0})
  pub review_candidate : ℕ → ℕ → CoreCall R (Unit {0})
  pub create_short : ℕ → Option ℕ → CoreCall R ℕ
  pub digest : RequestKey → ℕ
  pub resolve_path : Text → Text
  pub id_text : ℕ → Text
  pub has_artifacts : Bool
