-- ===== src/Tests/Clips.antt =====
-- Runs of the candidates.
use short_editor.Prelude.{
  take, sort, ℕ, ◌+◌, ◌*◌, ◌≡◌, ◌≤◌, ◌⊎◌, refl, true, List, [], ◌∷◌, map, length, none, All,
  IsSorted,
}
use short_editor.Candidates.{
  Text, TranscriptSegment, ScoreBreakdown, ClipCandidate, AnalysisHighlight, AnalysisContext,
}
use short_editor.Candidates.Texts.{normalized_transcript, is_near_duplicate}
use short_editor.Candidates.Windows.{grow, align_from, aligned_window, align_highlight, Growth}
use short_editor.Candidates.Widening.{IsFit}
use short_editor.Candidates.Aligning.{aligned_window-ends}
use short_editor.Candidates.Scores.{
  compare_components, compare_candidates, precedes, aggregate_score, passes_quality, intersects,
  candidates_conflict,
}
use short_editor.Candidates.Clusters.{
  push_or_begin, clusters_after, cluster_proposals, temporal_duplicates, semantic_duplicates,
  duplicate_group_for, representative,
}
use short_editor.Candidates.Separate.{apart}
use short_editor.Candidates.Generation.{
  candidate_from_segments, requested_count, tally_highlight, tally_highlights, tally_of,
  clusters_of, rejections_of, generated_candidates, diagnostic_of, generate_candidates, Diagnostic,
}
use short_editor.Candidates.Tried.{try_ends, try_starts, try_windows}
use short_editor.Candidates.Listed.{IsEligible, generate_candidates-apart, generate_candidates-All}
use short_editor.Candidates.Greedy.{greedy, ungrouped, generate_candidates-greedy}
use short_editor.Candidates.Accounts.{generate_candidates-accounts}

-- Segments of 15 seconds, of one word each.
abbrev segment : ℕ → TranscriptSegment
segment n = record {
  start_ms = 15000 * n;
  end_ms = 15000 * n + 15000;
  text = 32 ∷ (97 + n) ∷ 32 ∷ [];
}

abbrev pub segments : List TranscriptSegment
segments = segment 0 ∷ segment 1 ∷ segment 2 ∷ segment 3 ∷ segment 4 ∷ []

abbrev scored : ℕ → ScoreBreakdown
scored n = record {
  hook = n;
  coherence = n;
  payoff = n;
  independence = n;
  delivery = n;
  visual_activity = n;
}

abbrev highlight : ℕ → ℕ → ℕ → AnalysisHighlight
highlight start end score = record {
  start_ms = start;
  end_ms = end;
  title = [];
  reason = [];
  scores = scored score;
}

-- A highlight, a better one of the same moment, one that is elsewhere, a poor one, and one that is
-- past the end.
abbrev pub context : AnalysisContext
context = record {
  episode_id = 1;
  transcript_revision = 1;
  segments = segments;
  count = none;
  analysis_artifact_id = 2;
  provider = 3;
  highlights =
      highlight 1000 20000 700000
      ∷ highlight 2000 21000 800000
      ∷ highlight 46000 50000 900000
      ∷ highlight 46000 50000 300000
      ∷ highlight 90000 95000 900000
      ∷ [];
}

abbrev pub same_digest : Text → Text
same_digest text = text

abbrev pub clock : ℕ → ℕ
clock n = 5

abbrev pub uuid : ℕ → Text
uuid n = n ∷ []

unfoldable pub clips : Unit {0}
unfolding normalized_transcript is_near_duplicate grow align_from aligned_window align_highlight
    compare_components compare_candidates aggregate_score passes_quality intersects
    candidates_conflict push_or_begin clusters_after cluster_proposals temporal_duplicates
    semantic_duplicates duplicate_group_for representative candidate_from_segments requested_count
    tally_highlight tally_highlights tally_of clusters_of rejections_of generated_candidates
    diagnostic_of generate_candidates try_ends try_starts try_windows
clips = tt

-- The highlight of four seconds is widened by its earlier neighbour.
aligned_test : aligned_window segments (highlight 46000 50000 900000) ≡ Growth.window 2 3
unfolding clips
aligned_test = refl

candidates_test :
    map
      (λ (c : ClipCandidate). c.start_ms)
      (generate_candidates same_digest uuid clock context).candidates
    ≡ 30000 ∷ 0 ∷ []
unfolding clips
candidates_test = refl

transcript_test :
    map
      (λ (c : ClipCandidate). c.transcript)
      (generate_candidates same_digest uuid clock context).candidates
    ≡ (99 ∷ 32 ∷ 100 ∷ []) ∷ (97 ∷ 32 ∷ 98 ∷ []) ∷ []
unfolding clips
transcript_test = refl

abbrev diagnosed : Diagnostic
diagnosed =
    Diagnostic.insufficient_material 8 2 4
      (record { duration = 1; quality = 1; overlap = 1; semantic_duplication = 0 })

diagnostic_test : (generate_candidates same_digest uuid clock context).diagnostic ≡ diagnosed
unfolding clips
diagnostic_test = refl

-- Of fifteen pairs the five of a single segment are too short.
tried_test : (try_windows segments).duration ≡ 5
unfolding clips
tried_test = refl

near_duplicate_test : is_near_duplicate (65 ∷ 32 ∷ 98 ∷ []) (98 ∷ 45 ∷ 97 ∷ []) ≡ true
unfolding clips
near_duplicate_test = refl

aligned_window-ends_example :
    (aligned_window segments (highlight 46000 50000 900000) ≡ Growth.unusable)
    ⊎ ((a : ℕ) × (b : ℕ) × (aligned_window segments (highlight 46000 50000 900000)
          ≡ Growth.window a b)
        × IsFit segments a b)
aligned_window-ends_example = aligned_window-ends segments (highlight 46000 50000 900000)

generate_candidates-apart_example :
    IsSorted precedes (generate_candidates same_digest uuid clock context).candidates
    × IsSorted apart (generate_candidates same_digest uuid clock context).candidates
generate_candidates-apart_example = generate_candidates-apart same_digest uuid clock context

generate_candidates-All_example :
    (length (generate_candidates same_digest uuid clock context).candidates ≤ 10)
    × All (IsEligible context) (generate_candidates same_digest uuid clock context).candidates
generate_candidates-All_example = generate_candidates-All same_digest uuid clock context

generate_candidates-accounts_example :
    (4 + 1 ≡ length context.highlights)
    × (1 + 1 + 0 + 2 ≡ 4)
    × (2 ≡ length (generate_candidates same_digest uuid clock context).candidates)
    × (2 + 1 ≤ 5)
unfolding clips
generate_candidates-accounts_example =
    generate_candidates-accounts same_digest uuid clock context 8 2 4
      (record { duration = 1; quality = 1; overlap = 1; semantic_duplication = 0 }) refl

generate_candidates-greedy_example :
    map ungrouped (generate_candidates same_digest uuid clock context).candidates
    ≡ take 8 (map ungrouped (greedy [] (sort precedes (tally_of uuid clock context).proposals)))
unfolding clips
generate_candidates-greedy_example = generate_candidates-greedy same_digest uuid clock context
