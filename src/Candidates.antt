-- ===== src/Candidates.antt =====
-- src/core/candidates.ts and the types of src/shared/contracts.ts it reads: the candidates that are
-- made from the highlights of an analysis. A text is the list of its code units; a time is in
-- milliseconds. A score is a number of millionths where the source has a fraction from 0 to 1.
use short_editor.Prelude.{ℕ, List, Option}
mod Comparing
pub mod Texts
pub mod Windows
mod Slices
pub mod Widening
pub mod Aligning
pub mod Scores
pub mod Clusters
pub mod Generation
pub mod Library
pub mod Reviews
pub mod Standing
pub mod Reviewed
pub mod Decided
pub mod Separate
pub mod Tried
pub mod Listed
pub mod Greedy
pub mod Accounts

abbrev pub Text : Type 0
Text = List ℕ

-- `TranscriptSegment`, as far as candidates read it.
pub record TranscriptSegment : Type 0 where
  pub start_ms : ℕ
  pub end_ms : ℕ
  pub text : Text

pub record ScoreBreakdown : Type 0 where
  pub hook : ℕ
  pub coherence : ℕ
  pub payoff : ℕ
  pub independence : ℕ
  pub delivery : ℕ
  pub visual_activity : ℕ

pub data ReviewStatus : Type 0 where
  pending approved rejected : ReviewStatus

pub data CandidateState : Type 0 where
  active superseded : CandidateState

-- The aggregate score is in parts of a hundred million, since its weights are hundredths.
pub record ClipCandidate : Type 0 where
  pub id : Text
  pub episode_id : ℕ
  pub start_ms : ℕ
  pub end_ms : ℕ
  pub transcript : Text
  pub topic : Text
  pub hook : Text
  pub reason : Text
  pub score : ℕ
  pub scores : ScoreBreakdown
  pub duplicate_group : Option Text
  pub review_status : ReviewStatus
  pub artifact_id : Option ℕ
  pub transcript_revision : ℕ
  pub provider : Option ℕ
  pub generation_run_id : Option Text
  pub revision : ℕ
  pub state : CandidateState
  pub created_at : ℕ
  pub updated_at : ℕ

pub record AnalysisHighlight : Type 0 where
  pub start_ms : ℕ
  pub end_ms : ℕ
  pub title : Text
  pub reason : Text
  pub scores : ScoreBreakdown

-- `AnalysisCandidateGenerationContext`
pub record AnalysisContext : Type 0 where
  pub episode_id : ℕ
  pub transcript_revision : ℕ
  pub segments : List TranscriptSegment
  pub count : Option ℕ
  pub analysis_artifact_id : ℕ
  pub provider : ℕ
  pub highlights : List AnalysisHighlight
