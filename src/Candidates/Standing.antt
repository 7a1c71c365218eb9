-- ===== src/Candidates/Standing.antt =====
-- src/core/repository.ts: no two candidates of an episode that are active conflict.
use short_editor.Prelude.{
  IsSorted-append, IsSorted-map, IsSorted-select, IsSorted-update_where, All-update_where_from,
  All-swap, All-both, ◌⊎◌, ℕ, ◌==◌, ◌≡◌, refl, select, Bool, true, false, not, ◌&&◌, ◌||◌, List, [],
  ◌∷◌, map, inl, inr, Bool-cases, All, All-mono, IsSorted, arith,
}
use short_editor.Candidates.{Text, ClipCandidate}
use short_editor.Candidates.Scores.{candidates_conflict, intersects}
use short_editor.Candidates.Separate.{apart}
use short_editor.Candidates.Library.{
  Library, GenerationInput, Strategy, is_active_candidate, is_undecided, is_of, retained_decisions,
  retained_pending, meets, novel, supersede, superseded_row, inserted_row,
  save_candidate_generation,
}

-- Where both are active candidates of one episode they do not conflict.
abbrev pub are_compatible : ClipCandidate → ClipCandidate → Bool
are_compatible a b = not (
    is_active_candidate a
    && is_active_candidate b
    && a.episode_id == b.episode_id
    && candidates_conflict a b)

abbrev pub IsStanding : Library → Type 0
IsStanding l = IsSorted are_compatible l.candidates

-- What the rows that are kept leave out.
meets-none :
    (q : ClipCandidate → Bool) (p : ClipCandidate) (cs : List ClipCandidate)
    → meets (select q cs) p ≡ false
    → All (λ c. q c ≡ true → candidates_conflict c p ≡ false) cs
meets-none q p [] h = tt
meets-none q p (c ∷ cs) h = elim (Bool-cases (q c)) [
  | inl kept ↦
      let both : (candidates_conflict c p || meets (select q cs) p) ≡ false = rw kept at h in
      ((λ k. ground (arith, both)), meets-none q p cs (ground (arith, both)))
  | inr dropped ↦ ((λ k. cc), meets-none q p cs (rw dropped at h))
]

pub Strategy-cases : (s : Strategy) → (s ≡ Strategy.replace_pending) ⊎ (s ≡ Strategy.append_pending)
Strategy-cases Strategy.replace_pending = inl refl
Strategy-cases Strategy.append_pending = inr refl

neither : (a b : Bool) → (not a && not b) ≡ true → (a ≡ false) × (b ≡ false)
neither false false h = (refl, refl)
neither false true h = cc
neither true b h = cc

not_of : (e a c : Bool) → (e && a) ≡ false → not (a && true && e && c) ≡ true
not_of false true c h = refl
not_of false false c h = refl
not_of true true c h = cc
not_of true false c h = refl

of_decided : (o u : Bool) → o ≡ true → (o && u) ≡ false → (o && not u) ≡ true
of_decided true true h k = cc
of_decided true false h k = refl
of_decided false u h k = cc

not_conflicting : (e c : Bool) → not c ≡ true → not (e && c) ≡ true
not_conflicting false c h = refl
not_conflicting true c h = h

compatible_superseded :
    (x y : ClipCandidate) → is_active_candidate x ≡ false → are_compatible x y ≡ true
compatible_superseded x y h = rw h refl

superseded_compatible :
    (x y : ClipCandidate) → is_active_candidate y ≡ false → are_compatible x y ≡ true
superseded_compatible x y h = elim (Bool-cases (is_active_candidate x)) [
  | inl active ↦ rw active (rw h refl)
  | inr gone ↦ rw gone refl
]

-- A candidate that does not conflict with a proposal of its episode is compatible with its row.
compatible_inserted :
    (x p : ClipCandidate) (id : Text) (now episode : ℕ)
    → p.episode_id ≡ episode
    → (is_of episode x ≡ true → candidates_conflict x p ≡ false)
    → are_compatible x (inserted_row id now p) ≡ true
unfolding candidates_conflict intersects
compatible_inserted x p id now episode same free = elim (Bool-cases (is_of episode x)) [
  | inl of ↦ (let no = free of in rw same (ground arith))
  | inr other ↦
      rw same
        (not_of (x.episode_id == episode) (is_active_candidate x) (candidates_conflict x p) other)
]

inserted_compatible :
    (id : Text) (now : ℕ) (x y : ClipCandidate)
    → apart x y ≡ true
    → are_compatible (inserted_row id now x) (inserted_row id now y) ≡ true
unfolding candidates_conflict intersects
inserted_compatible id now x y h =
    not_conflicting (x.episode_id == y.episode_id) (candidates_conflict x y) h

module _ (l : Library) (input : GenerationInput) (id : Text) (now : ℕ) where
  -- A proposal is free of what is kept where no active candidate of the episode conflicts with it, but
  -- for those that the strategy supersedes.
  abbrev IsFree : ClipCandidate → ClipCandidate → Type 0
  IsFree p x = is_of input.episode_id x ≡ true → candidates_conflict x p ≡ false

  retained_decisions-IsFree :
      (p : ClipCandidate)
      → meets (retained_decisions l input) p ≡ false
      → All (λ x. (is_of input.episode_id x && is_undecided l x) ≡ false → IsFree p x) l.candidates
  unfolding retained_decisions
  retained_decisions-IsFree p free =
      All-mono _ _ l.candidates
        (λ x h undecided of.
          h (of_decided (is_of input.episode_id x) (is_undecided l x) of undecided))
        (meets-none (λ c. is_of input.episode_id c && not (is_undecided l c)) p l.candidates free)

  retained_pending-IsFree :
      (p : ClipCandidate)
      → meets (select (λ c. is_of input.episode_id c && is_undecided l c) l.candidates) p ≡ false
      → All (λ x. (is_of input.episode_id x && is_undecided l x) ≡ true → IsFree p x) l.candidates
  retained_pending-IsFree p free =
      All-mono _ _ l.candidates (λ x h undecided of. h undecided)
        (meets-none (λ c. is_of input.episode_id c && is_undecided l c) p l.candidates free)

  rows_compatible :
      (p : ClipCandidate)
      → p.episode_id ≡ input.episode_id
      → meets (retained_decisions l input) p ≡ false
      → meets (retained_pending l input) p ≡ false
      → All (λ x. are_compatible x (inserted_row id now p) ≡ true) (supersede l input now)
  unfolding supersede retained_pending
  rows_compatible p same decided pending = elim (Strategy-cases input.strategy) [
    | inl e ↦
        rw (supersede, e)
          (All-update_where_from
            (λ x.
              (is_of input.episode_id x && is_undecided l x) ≡ false
              → are_compatible x (inserted_row id now p) ≡ true)
            (λ x. are_compatible x (inserted_row id now p) ≡ true) _ _ l.candidates
            (λ x hit q. compatible_superseded (superseded_row now x) (inserted_row id now p) refl)
            (λ x miss q. q miss)
            (All-mono _ _ l.candidates
              (λ x h kept. compatible_inserted x p id now input.episode_id same (h kept))
              (retained_decisions-IsFree p decided)))
    | inr e ↦
        let free : meets (select (λ c. is_of input.episode_id c && is_undecided l c) l.candidates) p
            ≡ false =
          rw (retained_pending, e) at pending in
        rw (supersede, e)
          (All-mono _ _ l.candidates
            (λ x (h, k).
              compatible_inserted x p id now input.episode_id same
                (elim (Bool-cases (is_of input.episode_id x && is_undecided l x)) [
                  | inl undecided ↦ k undecided
                  | inr settled ↦ h settled
                ]))
            (All-both _ _ l.candidates (retained_decisions-IsFree p decided)
              (retained_pending-IsFree p free)))
  ]

  novel_compatible :
      (ps : List ClipCandidate)
      → All (λ p. p.episode_id ≡ input.episode_id) ps
      → All
          (λ y. All (λ x. are_compatible x y ≡ true) (supersede l input now))
          (map (inserted_row id now) (
            select
              (λ p.
                not (meets (retained_decisions l input) p)
                && not (meets (retained_pending l input) p))
              ps))
  novel_compatible [] h = tt
  novel_compatible (p ∷ ps) h =
      elim (Bool-cases
        (not (meets (retained_decisions l input) p) && not (meets (retained_pending l input) p))) [
          | inl new ↦
              let (free, free_too) = neither _ _ new in
              rw new (rows_compatible p h.0 free free_too, novel_compatible ps h.1)
          | inr known ↦ rw known (novel_compatible ps h.1)
        ]

  supersede-IsSorted : IsStanding l → IsSorted are_compatible (supersede l input now)
  unfolding supersede
  supersede-IsSorted h = elim (Strategy-cases input.strategy) [
    | inl e ↦
        rw (supersede, e)
          (IsSorted-update_where are_compatible (λ c. is_of input.episode_id c && is_undecided l c)
            (superseded_row now) (λ x y k. compatible_superseded (superseded_row now x) y refl)
            (λ x y k. superseded_compatible x (superseded_row now y) refl) l.candidates h)
    | inr e ↦ rw (supersede, e) h
  ]

  -- Proposals of the episode that do not conflict with each other are saved among candidates of which
  -- none conflict.
  pub save-IsStanding :
      (artifact_id : Text → Text)
      → IsSorted apart input.proposals
      → All (λ p. p.episode_id ≡ input.episode_id) input.proposals
      → IsStanding l
      → IsStanding (save_candidate_generation l input id artifact_id now).0
  unfolding save_candidate_generation novel
  save-IsStanding artifact_id distinct own h =
      IsSorted-append are_compatible (supersede l input now) _ (supersede-IsSorted h)
        (IsSorted-map are_compatible (inserted_row id now) apart (inserted_compatible id now)
          (novel l input) (IsSorted-select apart _ input.proposals distinct))
        (All-swap (λ x y. are_compatible x y ≡ true) (supersede l input now) _
          (novel_compatible input.proposals own))
