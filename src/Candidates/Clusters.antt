-- ===== src/Candidates/Clusters.antt =====
-- src/core/candidates.ts, `clusterProposals` and what becomes of a cluster. A cluster holds the
-- proposals themselves where the source holds their indexes.
use short_editor.Prelude.{
  ℕ, ◌-◌, if◌then◌else◌, length, List, [], ◌∷◌, ◌++◌, map, some, sort, select, take,
}
use short_editor.Candidates.{Text, ClipCandidate}
use short_editor.Candidates.Comparing.{lexical_compare, at_most}
use short_editor.Candidates.Texts.{normalized_transcript, unique, join_texts}
use short_editor.Candidates.Scores.{precedes, intersects, candidates_conflict}

-- The proposal a cluster began with, and those that were pushed.
pub record Cluster : Type 0 where
  pub first : ClipCandidate
  pub others : List ClipCandidate

unfoldable pub push_or_begin : ClipCandidate → List Cluster → List Cluster
push_or_begin p [] = record { first = p; others = [] } ∷ []
push_or_begin p (c ∷ cs) =
    let later = push_or_begin p cs in
    if candidates_conflict c.first p
    then record { first = c.first; others = c.others ++ (p ∷ []) } ∷ cs
    else c ∷ later

-- The loop of `forEach`, with the clusters so far.
unfoldable pub clusters_after : List Cluster → List ClipCandidate → List Cluster
clusters_after clusters [] = clusters
clusters_after clusters (p ∷ ps) = clusters_after (push_or_begin p clusters) ps

unfoldable pub cluster_proposals : List ClipCandidate → List Cluster
cluster_proposals proposals = clusters_after [] proposals

abbrev pub in_order : Cluster → List ClipCandidate
in_order c = sort precedes (c.first ∷ c.others)

-- `sorted[0]!` and `sorted.slice(1)`
abbrev pub head_or : ClipCandidate → List ClipCandidate → ClipCandidate
head_or d [] = d
head_or d (c ∷ cs) = c

abbrev pub after_head : List ClipCandidate → List ClipCandidate
after_head [] = []
after_head (c ∷ cs) = cs

unfoldable pub temporal_duplicates : Cluster → ℕ
temporal_duplicates c =
    let sorted = in_order c in
    length (select (intersects (head_or c.first sorted)) (after_head sorted))

-- `sorted.length - 1 - temporalDuplicates`
unfoldable pub semantic_duplicates : Cluster → ℕ
semantic_duplicates c = length (in_order c) - 1 - temporal_duplicates c

module _ (digest : Text → Text) where
  -- The first 16 digits of the digest of the texts, each once, in order.
  unfoldable pub duplicate_group_for : List ClipCandidate → Text
  duplicate_group_for candidates =
      let texts =
        unique (map (λ (c : ClipCandidate). normalized_transcript c.transcript) candidates) in
      take 16 (digest (join_texts (124 ∷ []) (sort (λ s t. at_most (lexical_compare s t)) texts)))

  unfoldable pub representative : Cluster → ClipCandidate
  representative c =
      let sorted = in_order c in
      record (head_or c.first sorted) { duplicate_group = some (duplicate_group_for sorted) }
