-- ===== src/Candidates/Separate.antt =====
-- src/core/candidates.ts: the clusters keep the order of the proposals, and no proposal that begins
-- one conflicts with a later one.
use short_editor.Prelude.{
  All-both, ◌≡◌, refl, Bool, true, not, List, [], ◌∷◌, ◌++◌, map, inl, inr, Bool-cases, All,
  All-append, All-mono, IsSorted,
}
use short_editor.Candidates.{ClipCandidate}
use short_editor.Candidates.Scores.{precedes, candidates_conflict}
use short_editor.Candidates.Clusters.{Cluster, push_or_begin, clusters_after}

abbrev pub apart : ClipCandidate → ClipCandidate → Bool
apart a b = not (candidates_conflict a b)

abbrev pub firsts : List Cluster → List ClipCandidate
firsts cs = map (λ (c : Cluster). c.first) cs

module _ {κ} (Q : ClipCandidate → Type κ) where
  -- A proposal begins a cluster or is pushed to one.
  pub All-firsts-push :
      (p : ClipCandidate) (cs : List Cluster)
      → Q p
      → All Q (firsts cs)
      → All Q (firsts (push_or_begin p cs))
  unfolding push_or_begin
  All-firsts-push p [] q h = (q, tt)
  All-firsts-push p (c ∷ cs) q h = elim (Bool-cases (candidates_conflict c.first p)) [
    | inl meets ↦ rw (push_or_begin, meets) h
    | inr misses ↦ rw (push_or_begin, misses) (h.0, All-firsts-push p cs q h.1)
  ]

  pub All-firsts :
      (cs : List Cluster) (ps : List ClipCandidate)
      → All Q ps
      → All Q (firsts cs)
      → All Q (firsts (clusters_after cs ps))
  unfolding clusters_after
  All-firsts cs [] q h = h
  All-firsts cs (p ∷ ps) q h = All-firsts (push_or_begin p cs) ps q.1 (All-firsts-push p cs q.0 h)

apart-push :
    (p : ClipCandidate) (cs : List Cluster)
    → IsSorted apart (firsts cs)
    → IsSorted apart (firsts (push_or_begin p cs))
unfolding push_or_begin
apart-push p [] h = (tt, tt)
apart-push p (c ∷ cs) h = elim (Bool-cases (candidates_conflict c.first p)) [
  | inl meets ↦ rw (push_or_begin, meets) h
  | inr misses ↦
      rw (push_or_begin, misses)
        (
          All-firsts-push (λ y. apart c.first y ≡ true) p cs (rw misses refl) h.0,
          apart-push p cs h.1,
        )
]

pub firsts-apart :
    (cs : List Cluster) (ps : List ClipCandidate)
    → IsSorted apart (firsts cs)
    → IsSorted apart (firsts (clusters_after cs ps))
unfolding clusters_after
firsts-apart cs [] h = h
firsts-apart cs (p ∷ ps) h = firsts-apart (push_or_begin p cs) ps (apart-push p cs h)

abbrev pub IsBefore : ClipCandidate → Cluster → Type 0
IsBefore p c = (precedes c.first p ≡ true) × All (λ x. precedes x p ≡ true) c.others

-- The clusters are in order, each and by their first.
abbrev pub AreOrdered : List Cluster → Type 0
AreOrdered cs =
    All (λ (c : Cluster). IsSorted precedes (c.first ∷ c.others)) cs × IsSorted precedes (firsts cs)

IsSorted-snoc :
    (p : ClipCandidate) (xs : List ClipCandidate)
    → All (λ x. precedes x p ≡ true) xs
    → IsSorted precedes xs
    → IsSorted precedes (xs ++ (p ∷ []))
IsSorted-snoc p [] b h = (tt, tt)
IsSorted-snoc p (x ∷ xs) b h = (All-append _ xs (p ∷ []) h.0 (b.0, tt), IsSorted-snoc p xs b.1 h.1)

AreOrdered-push :
    (p : ClipCandidate) (cs : List Cluster)
    → All (IsBefore p) cs
    → AreOrdered cs
    → AreOrdered (push_or_begin p cs)
unfolding push_or_begin
AreOrdered-push p [] b h = (((tt, tt), tt), (tt, tt))
AreOrdered-push p (c ∷ cs) b (each, heads) = elim (Bool-cases (candidates_conflict c.first p)) [
  | inl meets ↦
      rw (push_or_begin, meets) ((IsSorted-snoc p (c.first ∷ c.others) b.0 each.0, each.1), heads)
  | inr misses ↦
      let (each_after, heads_after) = AreOrdered-push p cs b.1 (each.1, heads.1) in
      rw (push_or_begin, misses)
        (
          (each.0, each_after),
          (All-firsts-push (λ y. precedes c.first y ≡ true) p cs (b.0).0 heads.0, heads_after),
        )
]

IsBefore-push :
    (p q : ClipCandidate) (cs : List Cluster)
    → precedes p q ≡ true
    → All (IsBefore q) cs
    → All (IsBefore q) (push_or_begin p cs)
unfolding push_or_begin
IsBefore-push p q [] k b = ((k, tt), tt)
IsBefore-push p q (c ∷ cs) k b = elim (Bool-cases (candidates_conflict c.first p)) [
  | inl meets ↦
      rw (push_or_begin, meets) (((b.0).0, All-append _ c.others (p ∷ []) (b.0).1 (k, tt)), b.1)
  | inr misses ↦ rw (push_or_begin, misses) (b.0, IsBefore-push p q cs k b.1)
]

pub AreOrdered-clusters :
    (cs : List Cluster) (ps : List ClipCandidate)
    → IsSorted precedes ps
    → All (λ q. All (IsBefore q) cs) ps
    → AreOrdered cs
    → AreOrdered (clusters_after cs ps)
unfolding clusters_after
AreOrdered-clusters cs [] s b h = h
AreOrdered-clusters cs (p ∷ ps) s b h =
    AreOrdered-clusters (push_or_begin p cs) ps s.1
      (All-mono _ _ ps (λ q k. IsBefore-push p q cs k.0 k.1) (All-both _ _ ps s.0 b.1))
      (AreOrdered-push p cs b.0 h)
