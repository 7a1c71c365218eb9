-- ===== src/Tests/Library.antt =====
-- Runs of the candidates that are kept.
use short_editor.Prelude.{ℕ, ◌≡◌, refl, List, [], ◌∷◌, map, none}
use short_editor.Store.{ok}
use short_editor.Candidates.{Text, ClipCandidate, ReviewStatus, CandidateState, ScoreBreakdown}
use short_editor.Candidates.Library.{
  Library, GenerationInput, Strategy, retained_decisions, retained_pending, novel, supersede,
  saved_diagnostic, proposed_copy, save_candidate_generation,
}
use short_editor.Candidates.Generation.{Diagnostic}
use short_editor.Candidates.Reviews.{
  list_candidates, get_candidate, review_candidate, newest_copy, get_candidate_content_package,
  accept_candidate_content_package, generate_and_save, LibraryCall, library_call, library_calls,
}
use short_editor.Candidates.Standing.{IsStanding}
use short_editor.Candidates.Reviewed.{library_calls-IsStanding}
use short_editor.Candidates.Decided.{save-keeps_decided}
use short_editor.Tests.Clips.{context, same_digest, uuid, clock, clips}

abbrev no_candidates : Library
no_candidates = record { candidates = []; artifacts = []; runs = [] }

abbrev copy_id : Text → Text
copy_id id = 9 ∷ id

abbrev later_uuid : ℕ → Text
later_uuid n = 1 ∷ n ∷ []

abbrev first_run : LibraryCall
first_run = LibraryCall.generate context Strategy.replace_pending uuid clock (70 ∷ []) copy_id 5

-- The candidate of the third proposal is approved, and what is pending is replaced.
abbrev calls : List LibraryCall
calls =
    first_run
    ∷ LibraryCall.review (uuid 2) 1 ReviewStatus.approved 6
    ∷ LibraryCall.generate context Strategy.replace_pending later_uuid clock (71 ∷ []) copy_id 7
    ∷ []

library : Unit {0}
unfolding clips retained_decisions retained_pending novel supersede saved_diagnostic proposed_copy
    save_candidate_generation list_candidates get_candidate review_candidate newest_copy
    get_candidate_content_package accept_candidate_content_package generate_and_save library_call
    library_calls
library = tt

abbrev after_calls : Library
after_calls = library_calls same_digest no_candidates calls

states_test : map (λ (c : ClipCandidate). c.revision) after_calls.candidates ≡ 2 ∷ 2 ∷ 1 ∷ []
unfolding library
states_test = refl

listed_test :
    map (λ (c : ClipCandidate). c.start_ms) (list_candidates after_calls 1) ≡ 30000 ∷ 0 ∷ []
unfolding library
listed_test = refl

library_calls-IsStanding_example : IsStanding after_calls
library_calls-IsStanding_example = library_calls-IsStanding same_digest no_candidates calls tt

abbrev half : ScoreBreakdown
half = record {
  hook = 600000;
  coherence = 600000;
  payoff = 600000;
  independence = 600000;
  delivery = 600000;
  visual_activity = 600000;
}

-- A candidate that has been approved, and one of the same moment that is pending.
abbrev candidate_of : ℕ → ReviewStatus → ClipCandidate
candidate_of id status = record {
  id = id ∷ [];
  episode_id = 1;
  start_ms = 0;
  end_ms = 30000;
  transcript = 97 ∷ [];
  topic = 97 ∷ [];
  hook = 97 ∷ [];
  reason = 97 ∷ [];
  score = 60000000;
  scores = half;
  duplicate_group = none;
  review_status = status;
  artifact_id = none;
  transcript_revision = 1;
  provider = none;
  generation_run_id = none;
  revision = 2;
  state = CandidateState.active;
  created_at = 1;
  updated_at = 2;
}

abbrev decided_library : Library
decided_library = record {
  candidates = candidate_of 1 ReviewStatus.approved ∷ [];
  artifacts = [];
  runs = [];
}

abbrev same_moment : GenerationInput
same_moment = record {
  episode_id = 1;
  strategy = Strategy.replace_pending;
  requested_count = 8;
  proposals = candidate_of 2 ReviewStatus.pending ∷ [];
  diagnostic = Diagnostic.sufficient 8 8;
}

conflict_test :
    (save_candidate_generation decided_library same_moment
      (70 ∷ [])
      copy_id
      7).1.retained_decision_conflict_count
    ≡ 1
unfolding library
conflict_test = refl

save-keeps_decided_example :
    get_candidate
      (save_candidate_generation decided_library same_moment (70 ∷ []) copy_id 7).0
      (1 ∷ [])
    ≡ ok (candidate_of 1 ReviewStatus.approved)
unfolding library
save-keeps_decided_example =
    save-keeps_decided decided_library same_moment 7 (70 ∷ []) (1 ∷ []) copy_id
      (candidate_of 1 ReviewStatus.approved) refl refl
