-- ===== src/Candidates/Accounts.antt =====
-- src/core/candidates.ts: what the diagnostic counts.
use short_editor.Prelude.{
  ℕ, suc, ◌+◌, ◌-◌, ◌≡◌, ◌≤◌, refl, sym, ap, ◌∙◌, List, [], ◌∷◌, map, inl, inr, Bool-cases,
  Option-cases, sort, length, length-sort, length-take, length-select, length-append, arith, min,
  leb,
}
use short_editor.Candidates.{Text, ClipCandidate, AnalysisContext, AnalysisHighlight}
use short_editor.Candidates.Scores.{precedes, candidates_conflict, passes_quality, intersects}
use short_editor.Candidates.Windows.{align_highlight}
use short_editor.Candidates.Clusters.{
  Cluster, push_or_begin, clusters_after, cluster_proposals, in_order, head_or, after_head,
  temporal_duplicates, semantic_duplicates, representative,
}
use short_editor.Candidates.Generation.{
  CandidateTally, empty_tally, tally_highlight, tally_highlights, tally_of, clusters_of,
  generated_candidates, generate_candidates, requested_count, candidate_from_segments, total_of,
  Diagnostic, Rejections, rejections_of, diagnostic_of,
}

length-map : (f : Cluster → ClipCandidate) (cs : List Cluster) → length (map f cs) ≡ length cs
length-map f [] = refl
length-map f (c ∷ cs) = omega (arith, length-map f cs)

length-after_head : (cs : List ClipCandidate) → length (after_head cs) ≡ length cs - 1
length-after_head [] = omega arith
length-after_head (c ∷ cs) = omega arith

abbrev size : Cluster → ℕ
size c = suc (length c.others)

-- The others of a cluster are the duplicates in time and those in words.
duplicates_lem : (c : Cluster) → size c ≡ suc (temporal_duplicates c + semantic_duplicates c)
unfolding temporal_duplicates semantic_duplicates
duplicates_lem c = omega (
  arith,
  length-sort precedes (c.first ∷ c.others),
  length-after_head (in_order c),
  length-select (intersects (head_or c.first (in_order c))) (after_head (in_order c)),
)

total-size :
    (cs : List Cluster)
    → total_of size cs
      ≡ length cs + (total_of temporal_duplicates cs + total_of semantic_duplicates cs)
total-size [] = refl
total-size (c ∷ cs) = omega (arith, duplicates_lem c, total-size cs)

size-push :
    (p : ClipCandidate) (cs : List Cluster)
    → total_of size (push_or_begin p cs) ≡ suc (total_of size cs)
unfolding push_or_begin
size-push p [] = refl
size-push p (c ∷ cs) = elim (Bool-cases (candidates_conflict c.first p)) [
  | inl meets ↦ rw (push_or_begin, meets) (omega (arith, length-append c.others (p ∷ [])))
  | inr misses ↦ rw (push_or_begin, misses) (omega (arith, size-push p cs))
]

size-clusters :
    (cs : List Cluster) (ps : List ClipCandidate)
    → total_of size (clusters_after cs ps) ≡ length ps + total_of size cs
unfolding clusters_after
size-clusters cs [] = omega arith
size-clusters cs (p ∷ ps) = omega (arith, size-clusters (push_or_begin p cs) ps, size-push p cs)

-- Each highlight that was met has no window, or a window that is poor or a proposal.
abbrev Balances : ℕ → CandidateTally → Type 0
Balances met t =
    (t.eligible_window_count + t.duration ≡ met)
    × (t.eligible_window_count ≡ t.quality + length t.proposals)

module _ (random_uuid : ℕ → Text) (clock : ℕ → ℕ) (context : AnalysisContext) where
  Balances-highlight :
      (met : ℕ) (t : CandidateTally) (h : AnalysisHighlight)
      → Balances met t
      → Balances (suc met) (tally_highlight random_uuid clock context t h)
  unfolding tally_highlight
  Balances-highlight met t h (all_met, windows) =
      elim (Option-cases (align_highlight context.segments h)) [
        | inl unusable ↦ rw (tally_highlight, unusable) (omega (arith, all_met), windows)
        | inr (ws, aligned) ↦
            let proposal =
              candidate_from_segments context h ws (random_uuid t.eligible_window_count)
                (clock t.eligible_window_count) in
            elim (Bool-cases (passes_quality proposal)) [
              | inl good ↦
                  rw (tally_highlight, aligned, good)
                    (
                      omega (arith, all_met),
                      omega (arith, windows, length-append t.proposals (proposal ∷ [])),
                    )
              | inr poor ↦
                  rw (tally_highlight, aligned, poor)
                    (omega (arith, all_met), omega (arith, windows))
            ]
      ]

  Balances-highlights :
      (met : ℕ) (t : CandidateTally) (hs : List AnalysisHighlight)
      → Balances met t
      → Balances (length hs + met) (tally_highlights random_uuid clock context t hs)
  unfolding tally_highlights
  Balances-highlights met t [] b = (omega (arith, b.0), b.1)
  Balances-highlights met t (h ∷ hs) b =
      let (all_met, windows) =
        Balances-highlights (suc met) (tally_highlight random_uuid clock context t h) hs
          (Balances-highlight met t h b) in
      (omega (arith, all_met), windows)

  Balances-tally : Balances (length context.highlights) (tally_of random_uuid clock context)
  unfolding tally_of
  Balances-tally =
      let (all_met, windows) = Balances-highlights 0 empty_tally context.highlights (refl, refl) in
      (omega (arith, all_met), windows)

  size-clusters_of :
      total_of size (clusters_of random_uuid clock context)
      ≡ length (tally_of random_uuid clock context).proposals
  unfolding clusters_of cluster_proposals
  size-clusters_of = omega (
    arith,
    size-clusters [] (sort precedes (tally_of random_uuid clock context).proposals),
    length-sort precedes (tally_of random_uuid clock context).proposals,
  )

module _ (digest : Text → Text) (random_uuid : ℕ → Text) (clock : ℕ → ℕ)
    (context : AnalysisContext) where
  abbrev generated_count : ℕ
  generated_count = length (generated_candidates digest random_uuid clock context)

  abbrev window_count : ℕ
  window_count = (tally_of random_uuid clock context).eligible_window_count

  length-generated :
      generated_count
      ≡ min (requested_count context) (length (clusters_of random_uuid clock context))
  unfolding generated_candidates
  length-generated =
      length-take (requested_count context)
        (sort precedes (map (representative digest) (clusters_of random_uuid clock context)))
      ∙ ap (min (requested_count context)) (
          length-sort precedes (map (representative digest) (clusters_of random_uuid clock context))
          ∙ length-map (representative digest) (clusters_of random_uuid clock context))

  five_requested : 5 ≤ requested_count context
  unfolding requested_count
  five_requested = omega arith

  -- What the diagnostic says of the highlights, for its counts.
  abbrev Accounts : ℕ → ℕ → Rejections → Type 0
  Accounts generated windows r =
      (windows + r.duration ≡ length context.highlights)
      × (r.quality + r.overlap + r.semantic_duplication + generated ≡ windows)
      × (generated ≡ generated_count)
      × (generated + 1 ≤ 5)

  accounted :
      generated_count + 1 ≤ 5
      → Accounts generated_count window_count (rejections_of random_uuid clock context)
  unfolding rejections_of
  accounted few =
      let (all_met, windows) = Balances-tally random_uuid clock context in
      (
        all_met,
        omega (
          arith,
          windows,
          few,
          five_requested,
          length-generated,
          size-clusters_of random_uuid clock context,
          total-size (clusters_of random_uuid clock context),
        ),
        refl,
        few,
      )

  -- Where the diagnostic is that the material is insufficient, fewer than five candidates are
  -- generated, as many as it says, and each highlight is accounted for: it is counted as rejected for
  -- its length, its quality, its overlap or what it says, or it is a candidate.
  pub generate_candidates-accounts :
      (requested generated windows : ℕ) (r : Rejections)
      → (generate_candidates digest random_uuid clock context).diagnostic
        ≡ Diagnostic.insufficient_material requested generated windows r
      → (windows + r.duration ≡ length context.highlights)
        × (r.quality + r.overlap + r.semantic_duplication + generated ≡ windows)
        × (generated ≡ length (generate_candidates digest random_uuid clock context).candidates)
        × (generated + 1 ≤ 5)
  unfolding generate_candidates diagnostic_of
  generate_candidates-accounts requested generated windows r h =
      elim (Bool-cases (leb 5 generated_count)) [
        | inl enough ↦
            (let no : Diagnostic.sufficient (requested_count context) generated_count
                  ≡ Diagnostic.insufficient_material requested generated windows r =
                rw (diagnostic_of, enough) at h in
              cc)
        | inr few ↦
            let told : Diagnostic.insufficient_material (requested_count context) generated_count
                  window_count (rejections_of random_uuid clock context)
                ≡ Diagnostic.insufficient_material requested generated windows r =
              rw (diagnostic_of, few) at h in
            let same_count : generated_count ≡ generated = cc in
            let same_windows : window_count ≡ windows = cc in
            let same : rejections_of random_uuid clock context ≡ r = cc in
            rw (sym same_count, sym same_windows, sym same) (accounted (ground (arith, few)))
      ]
