-- ===== src/Candidates/Reviews.antt =====
-- src/core/repository.ts: the candidates that are listed, reviewed and whose copy is accepted, and the
-- call of src/core/service.ts that generates and saves them from an analysis.
use short_editor.Prelude.{
  ℕ, ◌+◌, ◌==◌, leb, any, select, find, or_else, Bool, ◌&&◌, List, [], ◌∷◌, Option, none, some,
  sort, update_where,
}
use short_editor.Store.{
  Result, ok, fail, ◌>>=◌, ◌>>◌, require, found_or, not_found, revision_conflict, invalid_state,
}
use short_editor.Candidates.{Text, ClipCandidate, ReviewStatus, AnalysisContext}
use short_editor.Candidates.Texts.{same_text}
use short_editor.Candidates.Scores.{precedes}
use short_editor.Candidates.Generation.{generate_candidates}
use short_editor.Candidates.Library.{
  Library, CopyContent, CopyArtifact, Strategy, GenerationRun, is_of, is_active_candidate,
  save_candidate_generation,
}

unfoldable pub list_candidates : Library → ℕ → List ClipCandidate
list_candidates l episode = sort precedes (select (is_of episode) l.candidates)

unfoldable pub get_candidate : Library → Text → Result ClipCandidate
get_candidate l id =
    found_or (find (λ (c : ClipCandidate). same_text c.id id) l.candidates) not_found

-- `WHERE id=? AND revision=? AND state='active'`
abbrev pub is_at_revision : Text → ℕ → ClipCandidate → Bool
is_at_revision id revision c = same_text c.id id && c.revision == revision && is_active_candidate c

abbrev pub reviewed_row : ReviewStatus → ℕ → ClipCandidate → ClipCandidate
reviewed_row status now c = record c {
  review_status = status;
  revision = c.revision + 1;
  updated_at = now;
}

abbrev pub revised_row : ℕ → ClipCandidate → ClipCandidate
revised_row now c = record c { revision = c.revision + 1; updated_at = now }

unfoldable pub review_candidate :
    Library → Text → ℕ → ReviewStatus → ℕ → Result (Library × ClipCandidate)
review_candidate l id expected status now = do
  current ← get_candidate l id
  require (current.revision == expected) revision_conflict
  require (is_active_candidate current) invalid_state
  require (any (is_at_revision id expected) l.candidates) revision_conflict
  let next = record l {
    candidates = update_where (is_at_revision id expected) (reviewed_row status now) l.candidates;
  }
  reviewed ← get_candidate next id
  ok (next, reviewed)

-- `ORDER BY created_at DESC LIMIT 1` over the artifacts of a candidate.
abbrev later_copy : CopyArtifact → CopyArtifact → Bool
later_copy a b = leb b.created_at a.created_at

abbrev pub first_copy : List CopyArtifact → Option CopyArtifact
first_copy [] = none
first_copy (a ∷ rest) = some a

unfoldable pub newest_copy : Library → Text → Option CopyArtifact
newest_copy l id =
    first_copy
      (sort later_copy (select (λ (a : CopyArtifact). same_text a.entity_id id) l.artifacts))

-- The candidate's revision and the newest copy, proposed and accepted.
unfoldable pub get_candidate_content_package : Library → Text → Result (ℕ × CopyArtifact)
get_candidate_content_package l id = do
  candidate ← get_candidate l id
  copy ← found_or (newest_copy l id) not_found
  ok (candidate.revision, copy)

unfoldable pub accept_candidate_content_package :
    Library → Text → ℕ → CopyContent → ℕ → Result (Library × (ℕ × CopyArtifact))
accept_candidate_content_package l id expected copy now = do
  current ← get_candidate l id
  require (current.revision == expected) revision_conflict
  require (is_active_candidate current) invalid_state
  artifact ← found_or (newest_copy l id) not_found
  require (any (is_at_revision id expected) l.candidates) revision_conflict
  let next = record l {
    artifacts =
        update_where (λ (a : CopyArtifact). same_text a.id artifact.id)
          (λ a. record a { accepted_projection = some copy }) l.artifacts;
    candidates = update_where (is_at_revision id expected) (revised_row now) l.candidates;
  }
  shown ← get_candidate_content_package next id
  ok (next, shown)

-- `generateCandidates` of the service, after the analysis has been read; the schema's default count
-- is eight.
unfoldable pub generate_and_save :
    (Text → Text)
    → (ℕ → Text)
    → (ℕ → ℕ)
    → Library
    → AnalysisContext
    → Strategy
    → Text
    → (Text → Text)
    → ℕ
    → Library × GenerationRun
generate_and_save digest random_uuid clock l context strategy id artifact_id now =
    let result = generate_candidates digest random_uuid clock context in
    save_candidate_generation l
      (record {
        episode_id = context.episode_id;
        strategy = strategy;
        requested_count = or_else context.count 8;
        proposals = result.candidates;
        diagnostic = result.diagnostic;
      })
      id artifact_id now

-- The calls that change the candidates, each generation with the ids and times that it draws.
pub data LibraryCall : Type 0 where
  generate :
      AnalysisContext → Strategy → (ℕ → Text) → (ℕ → ℕ) → Text → (Text → Text) → ℕ → LibraryCall
  review : Text → ℕ → ReviewStatus → ℕ → LibraryCall
  accept_copy : Text → ℕ → CopyContent → ℕ → LibraryCall

-- A call that throws is rolled back.
abbrev pub after_call {ℓ} : {A : Type ℓ} → Library → Result (Library × A) → Library
after_call l (fail code) = l
after_call l (ok (next, value)) = next

module _ (digest : Text → Text) where
  unfoldable pub library_call : Library → LibraryCall → Library
  library_call l (LibraryCall.generate context strategy random_uuid clock id artifact_id now) =
      (generate_and_save digest random_uuid clock l context strategy id artifact_id now).0
  library_call l (LibraryCall.review id expected status now) =
      after_call l (review_candidate l id expected status now)
  library_call l (LibraryCall.accept_copy id expected copy now) =
      after_call l (accept_candidate_content_package l id expected copy now)

  unfoldable pub library_calls : Library → List LibraryCall → Library
  library_calls l [] = l
  library_calls l (c ∷ cs) = library_calls (library_call l c) cs
