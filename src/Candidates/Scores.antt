-- ===== src/Candidates/Scores.antt =====
-- src/core/candidates.ts: the order of candidates, their quality, and the candidates that conflict.
use Prim.Native.Nat.{compare, Ordering}
use short_editor.Prelude.{ℕ, ◌+◌, ◌*◌, ◌-◌, min, max, ◌≡◌, leb, ltb, Bool, true, false, ◌&&◌, ◌||◌}
use short_editor.Candidates.{ClipCandidate, ScoreBreakdown}
use short_editor.Candidates.Comparing.{
  then_by, lexical_compare, at_most, IsComparator, nat_laws, text_laws, then_by_laws, by_key_laws,
  reversed_laws, at_most_total, at_most_trans,
}
use short_editor.Candidates.Texts.{normalized_transcript, is_near_duplicate}

-- The components in the order of `componentOrder`, the higher first.
unfoldable pub compare_components : ScoreBreakdown → ScoreBreakdown → Ordering
compare_components a b = then_by (compare b.hook a.hook) (
    then_by (compare b.coherence a.coherence) (
      then_by (compare b.payoff a.payoff) (
        then_by (compare b.independence a.independence)
          (then_by (compare b.delivery a.delivery) (compare b.visual_activity a.visual_activity)))))

unfoldable pub compare_candidates : ClipCandidate → ClipCandidate → Ordering
compare_candidates a b = then_by (compare b.score a.score) (
    then_by (compare_components a.scores b.scores) (
      then_by (compare a.start_ms b.start_ms) (
        then_by (compare a.end_ms b.end_ms) (
          then_by
            (lexical_compare (normalized_transcript a.transcript)
              (normalized_transcript b.transcript))
            (lexical_compare a.id b.id)))))

-- The test of the sort by `compareCandidates`.
abbrev pub precedes : ClipCandidate → ClipCandidate → Bool
precedes a b = at_most (compare_candidates a b)

-- `clamp` of the weighted sum: a score of 1 is a hundred million parts.
unfoldable pub aggregate_score : ScoreBreakdown → ℕ
aggregate_score s = min 100000000 (
    s.hook * 25
    + s.coherence * 20
    + s.payoff * 20
    + s.independence * 20
    + s.delivery * 10
    + s.visual_activity * 5)

unfoldable pub passes_quality : ClipCandidate → Bool
passes_quality c =
    leb 55000000 c.score && leb 600000 c.scores.coherence && leb 550000 c.scores.independence

-- `intersectionRatio(a, b) > 0.35`, the quotient written out as a product.
unfoldable pub intersects : ClipCandidate → ClipCandidate → Bool
intersects a b =
    ltb (35 * min (a.end_ms - a.start_ms) (b.end_ms - b.start_ms))
      (100 * (min a.end_ms b.end_ms - max a.start_ms b.start_ms))

unfoldable pub candidates_conflict : ClipCandidate → ClipCandidate → Bool
candidates_conflict left right =
    intersects left right || is_near_duplicate left.transcript right.transcript

components_laws : IsComparator compare_components
unfolding compare_components
components_laws =
    let highest = reversed_laws nat_laws in
    then_by_laws (by_key_laws highest (λ (s : ScoreBreakdown). s.hook)) (
      then_by_laws (by_key_laws highest (λ (s : ScoreBreakdown). s.coherence)) (
        then_by_laws (by_key_laws highest (λ (s : ScoreBreakdown). s.payoff)) (
          then_by_laws (by_key_laws highest (λ (s : ScoreBreakdown). s.independence)) (
            then_by_laws (by_key_laws highest (λ (s : ScoreBreakdown). s.delivery))
              (by_key_laws highest (λ (s : ScoreBreakdown). s.visual_activity))))))

candidates_laws : IsComparator compare_candidates
unfolding compare_candidates
candidates_laws =
    then_by_laws (by_key_laws (reversed_laws nat_laws) (λ (c : ClipCandidate). c.score)) (
      then_by_laws (by_key_laws components_laws (λ (c : ClipCandidate). c.scores)) (
        then_by_laws (by_key_laws nat_laws (λ (c : ClipCandidate). c.start_ms)) (
          then_by_laws (by_key_laws nat_laws (λ (c : ClipCandidate). c.end_ms)) (
            then_by_laws
              (by_key_laws text_laws (λ (c : ClipCandidate). normalized_transcript c.transcript))
              (by_key_laws text_laws (λ (c : ClipCandidate). c.id))))))

pub precedes_total : (x y : ClipCandidate) → precedes x y ≡ false → precedes y x ≡ true
precedes_total = at_most_total candidates_laws

pub precedes_trans :
    (x y z : ClipCandidate) → precedes x y ≡ true → precedes y z ≡ true → precedes x z ≡ true
precedes_trans = at_most_trans candidates_laws
