-- ===== src/Candidates/Greedy.antt =====
-- src/core/candidates.ts: the candidates are those that a greedy choice takes from the proposals.
use short_editor.Prelude.{
  ℕ, ◌≡◌, refl, ap, ◌∙◌, if◌then◌else◌, List, [], ◌∷◌, ◌++◌, map, inl, inr, Bool-cases, any, sort,
  take, none, zero, suc,
}
use short_editor.Candidates.{Text, ClipCandidate, AnalysisContext}
use short_editor.Candidates.Scores.{precedes, candidates_conflict}
use short_editor.Candidates.Clusters.{Cluster, push_or_begin, clusters_after, cluster_proposals}
use short_editor.Candidates.Separate.{firsts}
use short_editor.Candidates.Generation.{tally_of, clusters_of, requested_count, generate_candidates}
use short_editor.Candidates.Listed.{grouped, listed}

-- The proposals that conflict with none chosen before, in their order; `chosen` so far.
abbrev pub greedy : List ClipCandidate → List ClipCandidate → List ClipCandidate
greedy chosen [] = chosen
greedy chosen (p ∷ ps) =
    let with = greedy (chosen ++ (p ∷ [])) ps in
    let without = greedy chosen ps in
    if any (λ c. candidates_conflict c p) chosen then without else with

firsts-push :
    (p : ClipCandidate) (cs : List Cluster)
    → firsts (push_or_begin p cs) ≡ (
        if any (λ c. candidates_conflict c p) (firsts cs) then firsts cs else firsts cs ++ (p ∷ []))
unfolding push_or_begin
firsts-push p [] = refl
firsts-push p (c ∷ cs) = elim (Bool-cases (candidates_conflict c.first p)) [
  | inl meets ↦ rw (push_or_begin, meets) refl
  | inr misses ↦ elim (Bool-cases (any (λ d. candidates_conflict d p) (firsts cs))) [
    | inl later ↦
        rw (push_or_begin, misses, later) (ap (λ l. c.first ∷ l) (rw later at (firsts-push p cs)))
    | inr new ↦
        rw (push_or_begin, misses, new) (ap (λ l. c.first ∷ l) (rw new at (firsts-push p cs)))
  ]
]

firsts-clusters :
    (cs : List Cluster) (ps : List ClipCandidate)
    → firsts (clusters_after cs ps) ≡ greedy (firsts cs) ps
unfolding clusters_after
firsts-clusters cs [] = refl
firsts-clusters cs (p ∷ ps) =
    firsts-clusters (push_or_begin p cs) ps
    ∙ elim (Bool-cases (any (λ d. candidates_conflict d p) (firsts cs))) [
      | inl known ↦ rw known (ap (λ l. greedy l ps) (rw known at (firsts-push p cs)))
      | inr new ↦ rw new (ap (λ l. greedy l ps) (rw new at (firsts-push p cs)))
    ]

-- A candidate without the group it is in.
abbrev pub ungrouped : ClipCandidate → ClipCandidate
ungrouped c = record c { duplicate_group = none }

module _ (digest : Text → Text) (random_uuid : ℕ → Text) (clock : ℕ → ℕ) where
  ungrouped-firsts :
      (cs : List Cluster)
      → map ungrouped (map (grouped digest random_uuid clock) cs) ≡ map ungrouped (firsts cs)
  unfolding grouped
  ungrouped-firsts [] = refl
  ungrouped-firsts (c ∷ cs) = ap (λ l. ungrouped c.first ∷ l) (ungrouped-firsts cs)

map-take : (n : ℕ) (cs : List ClipCandidate) → map ungrouped (take n cs) ≡ take n (map ungrouped cs)
map-take zero cs = refl
map-take (suc n) [] = refl
map-take (suc n) (c ∷ cs) = ap (λ l. ungrouped c ∷ l) (map-take n cs)

module _ (digest : Text → Text) (random_uuid : ℕ → Text) (clock : ℕ → ℕ)
    (context : AnalysisContext) where
  -- But for the groups of duplicates, the candidates that are generated are the first of those that a
  -- greedy choice takes: from the proposals in the order of `compareCandidates`, each that conflicts
  -- with none taken before it.
  pub generate_candidates-greedy :
      map ungrouped (generate_candidates digest random_uuid clock context).candidates
      ≡ take
          (requested_count context)
          (map ungrouped (greedy [] (sort precedes (tally_of random_uuid clock context).proposals)))
  unfolding generate_candidates clusters_of cluster_proposals
  generate_candidates-greedy =
      ap (map ungrouped) (listed digest random_uuid clock context)
      ∙ map-take (requested_count context)
          (map (grouped digest random_uuid clock) (clusters_of random_uuid clock context))
      ∙ ap (take (requested_count context)) (
          ungrouped-firsts digest random_uuid clock (clusters_of random_uuid clock context)
          ∙ ap (map ungrouped)
              (firsts-clusters [] (sort precedes (tally_of random_uuid clock context).proposals)))
