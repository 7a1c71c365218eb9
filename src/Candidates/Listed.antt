-- ===== src/Candidates/Listed.antt =====
-- src/core/candidates.ts: the candidates that `generateCandidates` lists.
use short_editor.Prelude.{
  take, length-take, ℕ, ◌+◌, ◌-◌, ◌≡◌, ◌≤◌, refl, ap, ◌∙◌, Bool, true, List, [], ◌∷◌, ◌++◌, map,
  inl, inr, Bool-cases, All, All-append, All-mono, All-sort, All-take, IsSorted, IsSorted-take,
  sort, sort_sorted, sort-IsSorted, arith, some, Option-cases, length,
}
use short_editor.Candidates.{
  Text, ClipCandidate, AnalysisContext, AnalysisHighlight, TranscriptSegment,
}
use short_editor.Candidates.Scores.{
  precedes, precedes_total, precedes_trans, candidates_conflict, intersects, compare_candidates,
  passes_quality,
}
use short_editor.Candidates.Windows.{
  start_at, end_at, align_highlight, min_duration_ms, max_duration_ms,
}
use short_editor.Candidates.Aligning.{align_highlight_lem}
use short_editor.Candidates.Clusters.{
  Cluster, cluster_proposals, head_or, representative, duplicate_group_for,
}
use short_editor.Candidates.Separate.{
  apart, firsts, All-firsts, firsts-apart, AreOrdered, AreOrdered-clusters,
}
use short_editor.Candidates.Generation.{
  CandidateTally, empty_tally, tally_highlight, tally_highlights, tally_of, clusters_of,
  generated_candidates, generate_candidates, requested_count, candidate_from_segments,
}

-- Eligible for the list: of good quality and length, from the start of a run to its end.
abbrev pub IsEligible : AnalysisContext → ClipCandidate → Type 0
IsEligible context c =
    (c.episode_id ≡ context.episode_id)
    × (passes_quality c ≡ true)
    × (min_duration_ms + c.start_ms ≤ c.end_ms)
    × (c.end_ms ≤ max_duration_ms + c.start_ms)
    × ((before : List TranscriptSegment) × (run : List TranscriptSegment) × (after : List
          TranscriptSegment)
        × (context.segments ≡ before ++ (run ++ after))
        × (c.start_ms ≡ start_at run 0)
        × (c.end_ms ≡ end_at run (length run - 1)))

module _ (digest : Text → Text) (random_uuid : ℕ → Text) (clock : ℕ → ℕ) where
  -- The first proposal of a cluster, in the group of the cluster.
  unfoldable pub grouped : Cluster → ClipCandidate
  grouped c = record (c.first) {
    duplicate_group = some (duplicate_group_for digest (c.first ∷ c.others));
  }

  representative-first :
      (c : Cluster) → IsSorted precedes (c.first ∷ c.others) → representative digest c ≡ grouped c
  unfolding representative grouped
  representative-first c h =
      ap (λ l. record (head_or c.first l) { duplicate_group = some (duplicate_group_for digest l) })
        (sort_sorted precedes (c.first ∷ c.others) h)

  map-grouped :
      (cs : List Cluster)
      → All (λ (c : Cluster). IsSorted precedes (c.first ∷ c.others)) cs
      → map (representative digest) cs ≡ map grouped cs
  map-grouped [] h = refl
  map-grouped (c ∷ cs) h = rw (representative-first c h.0, map-grouped cs h.1) refl

  module _ {κ} (Q : ClipCandidate → Type κ)
      (keeps : (c : Cluster) → Q c.first → Q (grouped c)) where
    All-grouped : (cs : List Cluster) → All Q (firsts cs) → All Q (map grouped cs)
    All-grouped [] h = tt
    All-grouped (c ∷ cs) h = (keeps c h.0, All-grouped cs h.1)

  module _ (r : ClipCandidate → ClipCandidate → Bool)
      (keeps : (x : ClipCandidate) (c : Cluster) → r x c.first ≡ true → r x (grouped c) ≡ true)
      (keeps_left : (c : Cluster) (x : ClipCandidate)
        → r c.first x ≡ true
        → r (grouped c) x ≡ true) where
    IsSorted-grouped : (cs : List Cluster) → IsSorted r (firsts cs) → IsSorted r (map grouped cs)
    IsSorted-grouped [] h = tt
    IsSorted-grouped (c ∷ cs) h = (
      All-grouped (λ x. r (grouped c) x ≡ true) (keeps (grouped c)) cs
          (All-mono _ _ (firsts cs) (keeps_left c) h.0),
      IsSorted-grouped cs h.1,
    )

  all_before_none : (ps : List ClipCandidate) → All (λ (p : ClipCandidate). Unit {0}) ps
  all_before_none [] = tt
  all_before_none (p ∷ ps) = (tt, all_before_none ps)

  module _ (context : AnalysisContext) where
    clusters-AreOrdered : AreOrdered (clusters_of random_uuid clock context)
    unfolding clusters_of cluster_proposals
    clusters-AreOrdered =
        let proposals = sort precedes (tally_of random_uuid clock context).proposals in
        AreOrdered-clusters [] proposals
          (sort-IsSorted precedes precedes_total precedes_trans
            (tally_of random_uuid clock context).proposals)
          (all_before_none proposals) (tt, tt)

    -- The representatives are in order as they come from the clusters.
    in_order_grouped : IsSorted precedes (map grouped (clusters_of random_uuid clock context))
    unfolding grouped compare_candidates
    in_order_grouped =
        IsSorted-grouped precedes (λ x c h. h) (λ c x h. h) (clusters_of random_uuid clock context)
          clusters-AreOrdered.1

    apart_grouped : IsSorted apart (map grouped (clusters_of random_uuid clock context))
    unfolding grouped candidates_conflict intersects clusters_of cluster_proposals
    apart_grouped =
        IsSorted-grouped apart (λ x c h. h) (λ c x h. h) (clusters_of random_uuid clock context)
          (firsts-apart [] (sort precedes (tally_of random_uuid clock context).proposals) tt)

    pub listed :
        generated_candidates digest random_uuid clock context
        ≡ take (requested_count context) (map grouped (clusters_of random_uuid clock context))
    unfolding generated_candidates
    listed = ap (take (requested_count context)) (
        ap (sort precedes)
          (map-grouped (clusters_of random_uuid clock context) clusters-AreOrdered.0)
        ∙ sort_sorted precedes (map grouped (clusters_of random_uuid clock context))
            in_order_grouped)

    -- The candidates that are generated are in the order of `compareCandidates`, and none conflicts
    -- with one that comes after it, by `candidatesConflict`.
    pub generate_candidates-apart :
        IsSorted precedes (generate_candidates digest random_uuid clock context).candidates
        × IsSorted apart (generate_candidates digest random_uuid clock context).candidates
    unfolding generate_candidates
    generate_candidates-apart = rw listed (
      IsSorted-take precedes (requested_count context)
          (map grouped (clusters_of random_uuid clock context)) in_order_grouped,
      IsSorted-take apart (requested_count context)
          (map grouped (clusters_of random_uuid clock context)) apart_grouped,
    )

    tally_highlight-All :
        (t : CandidateTally) (x : AnalysisHighlight)
        → All (IsEligible context) t.proposals
        → All (IsEligible context) (tally_highlight random_uuid clock context t x).proposals
    unfolding tally_highlight candidate_from_segments
    tally_highlight-All t x h = elim (Option-cases (align_highlight context.segments x)) [
      | inl unusable ↦ rw (tally_highlight, unusable) h
      | inr (ws, aligned) ↦
          let (lasts, before, after, run) = align_highlight_lem context.segments x ws aligned in
          let proposal =
            candidate_from_segments context x ws (random_uuid t.eligible_window_count)
              (clock t.eligible_window_count) in
          elim (Bool-cases (passes_quality proposal)) [
            | inl good ↦
                rw (tally_highlight, aligned, good)
                  (All-append _ t.proposals (proposal ∷ []) h
                    ((refl, good, lasts.0, lasts.1, (before, ws, after, run, refl, refl)), tt))
            | inr poor ↦ rw (tally_highlight, aligned, poor) h
          ]
    ]

    tally_highlights-All :
        (t : CandidateTally) (hs : List AnalysisHighlight)
        → All (IsEligible context) t.proposals
        → All (IsEligible context) (tally_highlights random_uuid clock context t hs).proposals
    unfolding tally_highlights
    tally_highlights-All t [] h = h
    tally_highlights-All t (x ∷ xs) h =
        tally_highlights-All (tally_highlight random_uuid clock context t x) xs
          (tally_highlight-All t x h)

    clusters_of-All : All (IsEligible context) (map grouped (clusters_of random_uuid clock context))
    unfolding grouped passes_quality clusters_of cluster_proposals tally_of
    clusters_of-All =
        All-grouped (IsEligible context) (λ c h. h) (clusters_of random_uuid clock context)
          (All-firsts (IsEligible context) []
            (sort precedes (tally_of random_uuid clock context).proposals)
            (All-sort precedes (IsEligible context) (tally_of random_uuid clock context).proposals
              (tally_highlights-All empty_tally context.highlights tt))
            tt)

    -- At most ten candidates are generated. Each is of the episode and passes
    -- the floors of quality, lasts from 20 to 90
    -- seconds, and begins and ends with a run of the segments of the transcript.
    pub generate_candidates-All :
        (length (generate_candidates digest random_uuid clock context).candidates ≤ 10)
        × All (IsEligible context) (generate_candidates digest random_uuid clock context).candidates
    unfolding generate_candidates requested_count
    generate_candidates-All = rw listed (
      rw
          (length-take (requested_count context)
            (map grouped (clusters_of random_uuid clock context)))
          (omega arith),
      All-take (IsEligible context) (requested_count context)
          (map grouped (clusters_of random_uuid clock context)) clusters_of-All,
    )
