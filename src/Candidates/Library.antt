-- ===== src/Candidates/Library.antt =====
-- src/core/repository.ts: the candidates of the episodes, the copy that is proposed with each, and the
-- runs that generated them. Of the table `analysis_artifacts` only the rows of candidates are here.
-- Their state follows the accepted projection. JSON is not written out, and the digest of a proposed
-- copy, which nothing reads, is left out.
use short_editor.Prelude.{
  ℕ, ◌+◌, ◌==◌, leb, if◌then◌else◌, length, any, select, is_some, Bool, true, false, not, ◌&&◌,
  List, [], ◌∷◌, ◌++◌, map, Option, none, some, update_where,
}
use short_editor.Candidates.{Text, ClipCandidate, ReviewStatus, CandidateState}
use short_editor.Candidates.Texts.{same_text}
use short_editor.Candidates.Scores.{candidates_conflict}
use short_editor.Candidates.Generation.{Diagnostic, Rejections}

-- `ContentPackage`
pub record CopyContent : Type 0 where
  pub cleaned_transcript : Text
  pub rewrite : Text
  pub hook_variants : List Text
  pub titles : List Text
  pub description : Text
  pub hashtags : List Text
  pub thumbnail_text : Text

pub record CopyArtifact : Type 0 where
  pub id : Text
  pub entity_id : Text
  pub raw_output : CopyContent
  pub accepted_projection : Option CopyContent
  pub created_at : ℕ

pub data Strategy : Type 0 where
  replace_pending append_pending : Strategy

-- The arguments of `saveCandidateGeneration` that its conditions read or that a run counts.
pub record GenerationInput : Type 0 where
  pub episode_id : ℕ
  pub strategy : Strategy
  pub requested_count : ℕ
  pub proposals : List ClipCandidate
  pub diagnostic : Diagnostic

pub record GenerationRun : Type 0 where
  pub id : Text
  pub episode_id : ℕ
  pub strategy : Strategy
  pub requested_count : ℕ
  pub proposed_count : ℕ
  pub inserted_count : ℕ
  pub retained_decision_conflict_count : ℕ
  pub retained_pending_conflict_count : ℕ
  pub diagnostic : Diagnostic
  pub created_at : ℕ

pub record Library : Type 0 where
  pub candidates : List ClipCandidate
  pub artifacts : List CopyArtifact
  pub runs : List GenerationRun

abbrev pub is_active_candidate : ClipCandidate → Bool
is_active_candidate c = elim c.state [
  | CandidateState.active ↦ true
  | CandidateState.superseded ↦ false
]

abbrev pub is_pending : ClipCandidate → Bool
is_pending c = elim c.review_status [ ReviewStatus.pending ↦ true | _ ↦ false ]

-- The subquery on the artifacts of a candidate.
abbrev pub has_accepted_copy : Library → ClipCandidate → Bool
has_accepted_copy l c =
    any (λ (a : CopyArtifact). same_text a.entity_id c.id && is_some a.accepted_projection)
      l.artifacts

abbrev pub is_undecided : Library → ClipCandidate → Bool
is_undecided l c = is_pending c && not (has_accepted_copy l c)

abbrev pub is_of : ℕ → ClipCandidate → Bool
is_of episode c = c.episode_id == episode && is_active_candidate c

unfoldable pub retained_decisions : Library → GenerationInput → List ClipCandidate
retained_decisions l input =
    select (λ c. is_of input.episode_id c && not (is_undecided l c)) l.candidates

unfoldable pub retained_pending : Library → GenerationInput → List ClipCandidate
retained_pending l input = elim input.strategy [
  | Strategy.append_pending ↦
      select (λ c. is_of input.episode_id c && is_undecided l c) l.candidates
  | Strategy.replace_pending ↦ []
]

abbrev pub meets : List ClipCandidate → ClipCandidate → Bool
meets retained p = any (λ c. candidates_conflict c p) retained

-- The proposals that conflict with no candidate that is kept.
unfoldable pub novel : Library → GenerationInput → List ClipCandidate
novel l input =
    select
      (λ p. not (meets (retained_decisions l input) p) && not (meets (retained_pending l input) p))
      input.proposals

abbrev pub superseded_row : ℕ → ClipCandidate → ClipCandidate
superseded_row now c = record c {
  state = CandidateState.superseded;
  revision = c.revision + 1;
  updated_at = now;
}

-- The UPDATE of the strategy `replace_pending`.
unfoldable pub supersede : Library → GenerationInput → ℕ → List ClipCandidate
supersede l input now = elim input.strategy [
  | Strategy.replace_pending ↦
      update_where (λ c. is_of input.episode_id c && is_undecided l c) (superseded_row now)
        l.candidates
  | Strategy.append_pending ↦ l.candidates
]

abbrev none_rejected : Rejections
none_rejected = record { duration = 0; quality = 0; overlap = 0; semantic_duplication = 0 }

-- What the diagnostic becomes of `inserted` candidates.
unfoldable pub saved_diagnostic : GenerationInput → ℕ → Diagnostic
saved_diagnostic input inserted =
    if leb 5 inserted
    then Diagnostic.sufficient input.requested_count inserted
    else elim input.diagnostic [
      | Diagnostic.sufficient requested generated ↦
          Diagnostic.insufficient_novel_material input.requested_count inserted
            (length input.proposals) none_rejected
      | Diagnostic.insufficient_material requested generated windows r ↦
          Diagnostic.insufficient_material requested inserted windows r
      | Diagnostic.insufficient_novel_material requested generated windows r ↦
          Diagnostic.insufficient_novel_material requested inserted windows r
    ]

-- The copy that `insertCandidateContentPackage` proposes.
unfoldable pub proposed_copy : Text → ClipCandidate → CopyArtifact
proposed_copy id c = record {
  id = id;
  entity_id = c.id;
  raw_output = record {
    cleaned_transcript = c.transcript;
    rewrite = [];
    hook_variants = c.hook ∷ [];
    titles = c.topic ∷ [];
    description = [];
    hashtags = [];
    thumbnail_text = [];
  };
  accepted_projection = none;
  created_at = c.created_at;
}

abbrev pub inserted_row : Text → ℕ → ClipCandidate → ClipCandidate
inserted_row run_id now c = record c {
  generation_run_id = some run_id;
  revision = 1;
  state = CandidateState.active;
  updated_at = now;
}

-- The rows of the run `id`; `artifact_id` gives the ids of the artifacts, by the candidate's.
unfoldable pub save_candidate_generation :
    Library → GenerationInput → Text → (Text → Text) → ℕ → Library × GenerationRun
save_candidate_generation l input id artifact_id now =
    let inserted = map (inserted_row id now) (novel l input) in
    let met = select (meets (retained_decisions l input)) input.proposals in
    let met_pending =
      select (λ p. not (meets (retained_decisions l input) p) && meets (retained_pending l input) p)
        input.proposals in
    let run : GenerationRun = record {
      id = id;
      episode_id = input.episode_id;
      strategy = input.strategy;
      requested_count = input.requested_count;
      proposed_count = length input.proposals;
      inserted_count = length inserted;
      retained_decision_conflict_count = length met;
      retained_pending_conflict_count = length met_pending;
      diagnostic = saved_diagnostic input (length inserted);
      created_at = now;
    } in
    (
      record {
        candidates = supersede l input now ++ inserted;
        artifacts =
            l.artifacts ++ map (λ (c : ClipCandidate). proposed_copy (artifact_id c.id) c) inserted;
        runs = l.runs ++ (run ∷ []);
      },
      run,
    )
