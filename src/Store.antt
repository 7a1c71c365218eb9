-- ===== src/Store.antt =====
-- src/core/database.ts and the row types of src/shared/contracts.ts: the tables that the job queue,
-- the render attempts and the Short projects share, and the errors of src/shared/errors.ts.
use short_editor.Prelude.{
  ℕ, ◌≡◌, refl, ap, ◌⊎◌, inl, inr, Bool, true, false, List, Option, none, some,
}
use short_editor.Content.{SourceRange, Composition, CaptionState, AudioState, CopyPackage}
use Prim.Native.String.{String}

-- `ApiErrorCode`.
pub data ErrorCode : Type 0 where
  not_found validation_error revision_conflict source_missing source_identity_mismatch : ErrorCode
  dependency_unavailable provider_unavailable provider_output_invalid : ErrorCode
  cloud_not_authorized cloud_confirmation_required invalid_state schedule_collision : ErrorCode
  job_cancelled artifact_corrupt internal_error : ErrorCode

pub data JobType : Type 0 where
  probe hash analyze candidates render watched_folder_scan source_reconcile : JobType

pub data JobState : Type 0 where
  queued running succeeded failed cancelled : JobState

pub data RenderState : Type 0 where
  queued running succeeded failed cancelled stale : RenderState

pub data Provider : Type 0 where
  local openai : Provider

pub data ScopeType : Type 0 where
  project batch : ScopeType

pub data SidecarFormat : Type 0 where
  srt webvtt : SidecarFormat

-- What `startRenderAttempt` writes into the payload of its job.
pub record RenderSnapshot : Type 0 where
  pub short_id : ℕ
  pub project_revision : ℕ
  pub render_id : ℕ
  pub preflight_id : ℕ
  pub sidecar_format : Option SidecarFormat

-- `payload_json`: the payload that `enqueue` builds for a cloud job, a render snapshot, or other
-- JSON, of which nothing is read.
pub data Payload : Type 0 where
  plain : ℕ → Payload
  snapshot : RenderSnapshot → Payload
  cloud : String → ScopeType → ℕ → ℕ → Payload → Payload

pub record Job : Type 0 where
  pub id : ℕ
  pub type : JobType
  pub entity_id : Option ℕ
  pub provider : Option Provider
  pub state : JobState
  pub progress : ℕ  -- millionths
  pub stage : String
  pub attempts : ℕ
  pub cancel_requested : Bool
  pub error_code : Option ErrorCode
  pub payload_reference : Option ℕ  -- the id behind `render:`
  pub payload : Payload
  pub created_at : ℕ
  pub updated_at : ℕ

-- `RenderDeterminism`: digests of the normalized streams, and the Render they were compared with.
pub data Comparison : Type 0 where
  baseline matched mismatch : Comparison

pub record Evidence : Type 0 where
  pub identity_hash : ℕ
  pub video_sha256 : ℕ
  pub video_bytes : ℕ
  pub audio_sha256 : ℕ
  pub audio_bytes : ℕ

pub record Determinism : Type 0 where
  pub evidence : Evidence
  pub comparison : Comparison
  pub reference_render_id : Option ℕ

pub record Render : Type 0 where
  pub id : ℕ
  pub short_id : ℕ
  pub project_revision : ℕ
  pub lineage_id : ℕ
  pub previous_render_id : Option ℕ
  pub attempt : ℕ
  pub preflight_id : Option ℕ
  pub output_path : Option (List ℕ)
  pub sidecar_path : Option (List ℕ)
  pub state : RenderState
  pub error_code : Option ErrorCode
  pub content_hash : Option ℕ
  pub decision_hash : Option ℕ
  pub determinism : Option Determinism
  pub valid : Option Bool  -- `validation.valid`
  pub created_at : ℕ
  pub updated_at : ℕ

-- The fields of `RenderPreflightResult` that decide whether a Render may start.
pub record Preflight : Type 0 where
  pub id : ℕ
  pub short_id : ℕ
  pub revision : ℕ
  pub passed : Bool
  pub snapshot_hash : ℕ

pub data EpisodeStatus : Type 0 where
  discovered indexing analyzing ready error source_missing : EpisodeStatus

pub record Episode : Type 0 where
  pub id : ℕ
  pub duration_ms : Option ℕ
  pub status : EpisodeStatus
  pub missing : Bool
  pub relink_restore_status : Option EpisodeStatus
  pub updated_at : ℕ

pub data CopyState : Type 0 where
  proposed accepted : CopyState

pub data CopySource : Type 0 where
  candidate_proposal candidate_accepted user_accepted legacy_accepted : CopySource

pub record Short : Type 0 where
  pub id : ℕ
  pub episode_id : ℕ
  pub candidate_id : ℕ
  pub title : String
  pub source_ranges : List SourceRange
  pub composition : Composition
  pub captions : CaptionState
  pub audio : AudioState
  pub copy : CopyPackage
  pub copy_state : CopyState
  pub copy_source : CopySource
  pub approved : Bool
  pub revision : ℕ
  pub updated_at : ℕ

pub data EntryStatus : Type 0 where
  draft planned published : EntryStatus

pub record ScheduleEntry : Type 0 where
  pub id : ℕ
  pub short_id : ℕ
  pub render_id : ℕ
  pub episode_id : ℕ
  pub publish_at : ℕ
  pub status : EntryStatus
  pub priority : ℕ
  pub locked : Bool
  pub youtube_url : Option String
  pub needs_rerender : Bool
  pub revision : ℕ
  pub updated_at : ℕ

pub record Authorization : Type 0 where
  pub id : ℕ
  pub scope_type : ScopeType
  pub scope_id : ℕ
  pub provider : Provider
  pub operation_classes : List String
  pub credential_handle : Option ℕ
  pub revoked_at : Option ℕ

-- The rows of the tables, in insertion order.
pub record Db : Type 0 where
  pub jobs : List Job
  pub renders : List Render
  pub preflights : List Preflight
  pub shorts : List Short
  pub episodes : List Episode
  pub entries : List ScheduleEntry
  pub authorizations : List Authorization

-- What a call returns, or the code of the `AppError` that it throws. A statement that throws inside a
-- transaction is rolled back, so an error carries no state.
pub data Result {ℓ} (A : Type ℓ) : Type ℓ where
  fail : ErrorCode → Result A
  ok : A → Result A

module _ {ℓ κ} {A : Type ℓ} {B : Type κ} where
  infixl 5 ◌>>=◌
  -- Statements in sequence: the first error ends the call.
  abbrev pub ◌>>=◌ : Result A → (A → Result B) → Result B
  fail code >>= rest = fail code
  ok value >>= rest = rest value

  -- What a call that has returned says of its first statement and of the others.
  pub >>=-eq-ok :
      (first : Result A) (rest : A → Result B) {last : B}
      → (first >>= rest) ≡ ok last
      → (value : A) × (first ≡ ok value) × (rest value ≡ ok last)
  >>=-eq-ok (fail code) rest returned = cc
  >>=-eq-ok (ok value) rest returned = (value, refl, returned)

module _ {ℓ} {A : Type ℓ} where
  infixl 5 ◌>>◌
  abbrev pub ◌>>◌ : Result (Unit {0}) → Result A → Result A
  check >> rest = check >>= λ nothing. rest

  -- `if (!row) throw new AppError(code, ...)`
  abbrev pub found_or : Option A → ErrorCode → Result A
  found_or (some row) code = ok row
  found_or none code = fail code

  -- What the database holds after a call: a failed one is rolled back.
  abbrev pub after : Db → Result (Db × A) → Db
  after db (fail code) = db
  after db (ok (next, value)) = next

-- `if (!test) throw new AppError(code, ...)`
abbrev pub require : Bool → ErrorCode → Result (Unit {0})
require test code = elim test [ true ↦ ok tt | false ↦ fail code ]

module _ {ℓ} {A : Type ℓ} where
  pub Result-cases :
      (r : Result A) → ((a : A) × (r ≡ ok a)) ⊎ ((code : ErrorCode) × (r ≡ fail code))
  Result-cases (fail code) = inr (code, refl)
  Result-cases (ok a) = inl (a, refl)

  pub >>-eq-ok :
      (test : Bool) (code : ErrorCode) (rest : Result A) {last : A}
      → (require test code >> rest) ≡ ok last
      → (test ≡ true) × (rest ≡ ok last)
  >>-eq-ok false code rest returned = cc
  >>-eq-ok true code rest returned = (refl, returned)

  pub found_or-eq-ok :
      (o : Option A) (code : ErrorCode) {row : A} → found_or o code ≡ ok row → o ≡ some row
  found_or-eq-ok (some row) code returned = cc
  found_or-eq-ok none code returned = cc

  pub ok-injective : {a b : A} → ok a ≡ ok b → a ≡ b
  ok-injective {a = a} same = ap (λ r. elim r [ fail code ↦ a | ok value ↦ value ]) same
