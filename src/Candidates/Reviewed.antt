-- ===== src/Candidates/Reviewed.antt =====
-- src/core/repository.ts and src/core/service.ts: what the calls on candidates keep.
use short_editor.Prelude.{
  ℕ, ◌==◌, any, update_where, inl, inr, ◌≡◌, sym, ap, List, [], ◌∷◌, All-mono, IsSorted,
  IsSorted-update_where,
}
use short_editor.Store.{
  ok, Result-cases, >>=-eq-ok, >>-eq-ok, ok-injective, found_or, not_found, revision_conflict,
  invalid_state,
}
use short_editor.Candidates.{Text, ClipCandidate, ReviewStatus}
use short_editor.Candidates.Scores.{candidates_conflict, intersects}
use short_editor.Candidates.Listed.{generate_candidates-apart, generate_candidates-All}
use short_editor.Candidates.Library.{Library, CopyContent, CopyArtifact, is_active_candidate}
use short_editor.Candidates.Reviews.{
  get_candidate, reviewed_row, revised_row, is_at_revision, review_candidate, newest_copy,
  get_candidate_content_package, accept_candidate_content_package, generate_and_save, LibraryCall,
  library_call, library_calls,
}
use short_editor.Candidates.Standing.{are_compatible, IsStanding, save-IsStanding}

review-candidates :
    (l next : Library) (id : Text) (expected : ℕ) (status : ReviewStatus) (now : ℕ)
    (c : ClipCandidate)
    → review_candidate l id expected status now ≡ ok (next, c)
    → next.candidates
      ≡ update_where (is_at_revision id expected) (reviewed_row status now) l.candidates
unfolding review_candidate
review-candidates l next id expected status now c e =
    let (current, found, e₁) = >>=-eq-ok (get_candidate l id) _ e in
    let (at, e₂) = >>-eq-ok (current.revision == expected) revision_conflict _ e₁ in
    let (active, e₃) = >>-eq-ok (is_active_candidate current) invalid_state _ e₂ in
    let (there, e₄) =
      >>-eq-ok (any (is_at_revision id expected) l.candidates) revision_conflict _ e₃ in
    let (reviewed, shown, e₅) = >>=-eq-ok (get_candidate _ id) _ e₄ in
    sym (ap (λ (p : Library × ClipCandidate). (p.0).candidates) (ok-injective e₅))

accept-candidates :
    (l next : Library) (id : Text) (expected : ℕ) (copy : CopyContent) (now : ℕ)
    (v : ℕ × CopyArtifact)
    → accept_candidate_content_package l id expected copy now ≡ ok (next, v)
    → next.candidates ≡ update_where (is_at_revision id expected) (revised_row now) l.candidates
unfolding accept_candidate_content_package
accept-candidates l next id expected copy now v e =
    let (current, found, e₁) = >>=-eq-ok (get_candidate l id) _ e in
    let (at, e₂) = >>-eq-ok (current.revision == expected) revision_conflict _ e₁ in
    let (active, e₃) = >>-eq-ok (is_active_candidate current) invalid_state _ e₂ in
    let (artifact, newest, e₄) = >>=-eq-ok (found_or (newest_copy l id) not_found) _ e₃ in
    let (there, e₅) =
      >>-eq-ok (any (is_at_revision id expected) l.candidates) revision_conflict _ e₄ in
    let (shown, got, e₆) = >>=-eq-ok (get_candidate_content_package _ id) _ e₅ in
    sym (ap (λ (p : Library × (ℕ × CopyArtifact)). (p.0).candidates) (ok-injective e₆))

-- An update that leaves alone what a conflict is read from.
reviewed-IsSorted :
    (l : Library) (id : Text) (expected : ℕ) (status : ReviewStatus) (now : ℕ)
    → IsStanding l
    → IsSorted are_compatible
        (update_where (is_at_revision id expected) (reviewed_row status now) l.candidates)
unfolding candidates_conflict intersects
reviewed-IsSorted l id expected status now h =
    IsSorted-update_where are_compatible (is_at_revision id expected) (reviewed_row status now)
      (λ x y k. k) (λ x y k. k) l.candidates h

revised-IsSorted :
    (l : Library) (id : Text) (expected now : ℕ)
    → IsStanding l
    → IsSorted are_compatible
        (update_where (is_at_revision id expected) (revised_row now) l.candidates)
unfolding candidates_conflict intersects
revised-IsSorted l id expected now h =
    IsSorted-update_where are_compatible (is_at_revision id expected) (revised_row now) (λ x y k. k)
      (λ x y k. k) l.candidates h

module _ (digest : Text → Text) where
  library_call-IsStanding :
      (l : Library) (c : LibraryCall) → IsStanding l → IsStanding (library_call digest l c)
  unfolding library_call generate_and_save
  library_call-IsStanding l
        (LibraryCall.generate context strategy random_uuid clock id artifact_id now) h =
      save-IsStanding l _ id now artifact_id
        (generate_candidates-apart digest random_uuid clock context).1
        (All-mono _ _ _ (λ c k. k.0) (generate_candidates-All digest random_uuid clock context).1) h
  library_call-IsStanding l (LibraryCall.review id expected status now) h =
      elim (Result-cases (review_candidate l id expected status now)) [
        | inl ((next, c), e) ↦
            rw (library_call, e)
              (rw (review-candidates l next id expected status now c e)
                (reviewed-IsSorted l id expected status now h))
        | inr (code, e) ↦ rw (library_call, e) h
      ]
  library_call-IsStanding l (LibraryCall.accept_copy id expected copy now) h =
      elim (Result-cases (accept_candidate_content_package l id expected copy now)) [
        | inl ((next, v), e) ↦
            rw (library_call, e)
              (rw (accept-candidates l next id expected copy now v e)
                (revised-IsSorted l id expected now h))
        | inr (code, e) ↦ rw (library_call, e) h
      ]

  -- Where no two active candidates of an episode conflict, an earlier with a later, none do after any
  -- calls that generate candidates from an analysis, by either strategy, review them or accept their
  -- copy.
  pub library_calls-IsStanding :
      (l : Library) (cs : List LibraryCall) → IsStanding l → IsStanding (library_calls digest l cs)
  unfolding library_calls
  library_calls-IsStanding l [] h = h
  library_calls-IsStanding l (c ∷ cs) h =
      library_calls-IsStanding (library_call digest l c) cs (library_call-IsStanding l c h)
