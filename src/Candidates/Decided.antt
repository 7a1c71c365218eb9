-- ===== src/Candidates/Decided.antt =====
-- src/core/repository.ts, `saveCandidateGeneration`: the candidates that have been decided on.
use short_editor.Prelude.{
  ◌≡◌, refl, ap, ◌∙◌, Bool, true, false, ◌&&◌, List, [], ◌∷◌, ◌++◌, some, find, find-update_where,
  inl, inr, Bool-cases, ℕ,
}
use short_editor.Store.{ok, found_or, not_found, found_or-eq-ok}
use short_editor.Candidates.{Text, ClipCandidate}
use short_editor.Candidates.Texts.{same_text}
use short_editor.Candidates.Library.{
  Library, GenerationInput, is_of, is_undecided, supersede, superseded_row,
  save_candidate_generation,
}
use short_editor.Candidates.Reviews.{get_candidate}
use short_editor.Candidates.Standing.{Strategy-cases}

never : (b : Bool) → (b && false) ≡ false
never true = refl
never false = refl

find-append :
    (p : ClipCandidate → Bool) (xs ys : List ClipCandidate) (c : ClipCandidate)
    → find p xs ≡ some c
    → find p (xs ++ ys) ≡ some c
find-append p [] ys c h = cc
find-append p (x ∷ xs) ys c h = elim (Bool-cases (p x)) [
  | inl hit ↦ (let same : some x ≡ some c = rw hit at h in rw hit same)
  | inr miss ↦ rw miss (find-append p xs ys c (rw miss at h))
]

module _ (l : Library) (input : GenerationInput) (now : ℕ) where
  supersede-keeps :
      (id : Text) (c : ClipCandidate)
      → find (λ (x : ClipCandidate). same_text x.id id) l.candidates ≡ some c
      → is_undecided l c ≡ false
      → find (λ (x : ClipCandidate). same_text x.id id) (supersede l input now) ≡ some c
  unfolding supersede
  supersede-keeps id c found decided = elim (Strategy-cases input.strategy) [
    | inr e ↦ rw (supersede, e) found
    | inl e ↦
        rw (supersede, e)
          (find-update_where (λ (x : ClipCandidate). same_text x.id id)
              (λ x. is_of input.episode_id x && is_undecided l x) (superseded_row now) l.candidates
              (λ x h. refl)
            ∙ rw found (rw decided (rw (never (is_of input.episode_id c)) refl)))
  ]

  -- A candidate that has been approved or rejected, or whose copy has been accepted, is left as it is
  -- by a generation, whatever its strategy and its proposals.
  pub save-keeps_decided :
      (run_id id : Text) (artifact_id : Text → Text) (c : ClipCandidate)
      → get_candidate l id ≡ ok c
      → is_undecided l c ≡ false
      → get_candidate (save_candidate_generation l input run_id artifact_id now).0 id ≡ ok c
  unfolding save_candidate_generation get_candidate
  save-keeps_decided run_id id artifact_id c h decided =
      let found =
        found_or-eq-ok (find (λ (x : ClipCandidate). same_text x.id id) l.candidates) not_found h in
      ap (λ o. found_or o not_found)
        (find-append (λ (x : ClipCandidate). same_text x.id id) (supersede l input now) _ c
          (supersede-keeps id c found decided))
