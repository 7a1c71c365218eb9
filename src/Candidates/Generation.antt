-- ===== src/Candidates/Generation.antt =====
-- src/core/candidates.ts, `generateCandidates` from the highlights of an analysis. The digest of a
-- text (SHA-256 of node:crypto, in hexadecimal) and the ids that `randomUUID` gives, by the number of
-- the call, are parameters.
use short_editor.Prelude.{
  ℕ, suc, ◌+◌, ◌-◌, min, max, leb, if◌then◌else◌, length, take, List, [], ◌∷◌, ◌++◌, map, none,
  some, sort, or_else,
}
use short_editor.Candidates.{
  Text, ClipCandidate, TranscriptSegment, AnalysisHighlight, AnalysisContext, ReviewStatus,
  CandidateState,
}
use short_editor.Candidates.Texts.{trim, join_texts, normalize_whitespace}
use short_editor.Candidates.Windows.{start_at, end_at, align_highlight}
use short_editor.Candidates.Scores.{precedes, passes_quality, aggregate_score}
use short_editor.Candidates.Clusters.{
  Cluster, cluster_proposals, temporal_duplicates, semantic_duplicates, representative,
}

pub record Rejections : Type 0 where
  pub duration : ℕ
  pub quality : ℕ
  pub overlap : ℕ
  pub semantic_duplication : ℕ

-- The variables of the loop over the highlights.
pub record CandidateTally : Type 0 where
  pub eligible_window_count : ℕ
  pub duration : ℕ
  pub quality : ℕ
  pub proposals : List ClipCandidate

-- `CandidateGenerationDiagnostic`: the counts that are requested and generated, and with fewer than
-- five candidates the windows there were and what became of the others.
pub data Diagnostic : Type 0 where
  sufficient : ℕ → ℕ → Diagnostic
  insufficient_material insufficient_novel_material : ℕ → ℕ → ℕ → Rejections → Diagnostic

pub record Generated : Type 0 where
  pub candidates : List ClipCandidate
  pub diagnostic : Diagnostic

-- `segments[0]!.text`
abbrev first_text : List TranscriptSegment → Text
first_text [] = []
first_text (s ∷ rest) = s.text

-- The candidate of a highlight and the segments it is aligned to.
unfoldable pub candidate_from_segments :
    AnalysisContext → AnalysisHighlight → List TranscriptSegment → Text → ℕ → ClipCandidate
candidate_from_segments context h segments id now = record {
  id = id;
  episode_id = context.episode_id;
  start_ms = start_at segments 0;
  end_ms = end_at segments (length segments - 1);
  transcript =
      normalize_whitespace
        (join_texts (32 ∷ []) (map (λ (s : TranscriptSegment). trim s.text) segments));
  topic = h.title;
  hook = trim (first_text segments);
  reason = h.reason;
  score = aggregate_score h.scores;
  scores = h.scores;
  duplicate_group = none;
  review_status = ReviewStatus.pending;
  artifact_id = some context.analysis_artifact_id;
  transcript_revision = context.transcript_revision;
  provider = some context.provider;
  generation_run_id = none;
  revision = 1;
  state = CandidateState.active;
  created_at = now;
  updated_at = now;
}

-- `Math.min(10, Math.max(5, context.count ?? 8))`
unfoldable pub requested_count : AnalysisContext → ℕ
requested_count context = min 10 (max 5 (or_else context.count 8))

abbrev pub total_of : (Cluster → ℕ) → List Cluster → ℕ
total_of f [] = 0
total_of f (c ∷ cs) = f c + total_of f cs

abbrev pub empty_tally : CandidateTally
empty_tally = record { eligible_window_count = 0; duration = 0; quality = 0; proposals = [] }

module _ (random_uuid : ℕ → Text) (clock : ℕ → ℕ) where
  -- The body of the loop over the highlights.
  unfoldable pub tally_highlight :
      AnalysisContext → CandidateTally → AnalysisHighlight → CandidateTally
  tally_highlight context t h = elim (align_highlight context.segments h) [
    | none ↦ record t { duration = suc t.duration }
    | some aligned ↦
        let proposal =
          candidate_from_segments context h aligned (random_uuid t.eligible_window_count)
            (clock t.eligible_window_count) in
        if passes_quality proposal
        then record t {
          eligible_window_count = suc t.eligible_window_count;
          proposals = t.proposals ++ (proposal ∷ []);
        }
        else record t {
          eligible_window_count = suc t.eligible_window_count;
          quality = suc t.quality;
        }
  ]

  unfoldable pub tally_highlights :
      AnalysisContext → CandidateTally → List AnalysisHighlight → CandidateTally
  tally_highlights context t [] = t
  tally_highlights context t (h ∷ hs) = tally_highlights context (tally_highlight context t h) hs

  unfoldable pub tally_of : AnalysisContext → CandidateTally
  tally_of context = tally_highlights context empty_tally context.highlights

  unfoldable pub clusters_of : AnalysisContext → List Cluster
  clusters_of context = cluster_proposals (sort precedes (tally_of context).proposals)

  unfoldable pub rejections_of : AnalysisContext → Rejections
  rejections_of context =
      let t = tally_of context in
      let clusters = clusters_of context in
      record {
        duration = t.duration;
        quality = t.quality;
        overlap = total_of temporal_duplicates clusters;
        semantic_duplication = total_of semantic_duplicates clusters;
      }

module _ (digest : Text → Text) (random_uuid : ℕ → Text) (clock : ℕ → ℕ) where
  unfoldable pub generated_candidates : AnalysisContext → List ClipCandidate
  generated_candidates context =
      take (requested_count context)
        (sort precedes (map (representative digest) (clusters_of random_uuid clock context)))

  unfoldable pub diagnostic_of : AnalysisContext → Diagnostic
  diagnostic_of context =
      let generated = length (generated_candidates context) in
      if leb 5 generated
      then Diagnostic.sufficient (requested_count context) generated
      else Diagnostic.insufficient_material (requested_count context) generated
          (tally_of random_uuid clock context).eligible_window_count
          (rejections_of random_uuid clock context)

  unfoldable pub generate_candidates : AnalysisContext → Generated
  generate_candidates context = record {
    candidates = generated_candidates context;
    diagnostic = diagnostic_of context;
  }
