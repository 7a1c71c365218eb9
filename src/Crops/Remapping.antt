-- ===== src/Crops/Remapping.antt =====
-- src/core/crops.ts: where `remapSamplesToShort` puts the samples.
use short_editor.Prelude.{
  ℕ, ◌+◌, ◌-◌, ◌==◌, ◌≤◌, ◌<◌, ◌≡◌, refl, ap, inl, inr, Bool, true, false, ◌||◌, ltb, List, [], ◌∷◌,
  ◌++◌, arith, any, sort, any-sort, IsSorted, sort-IsSorted, All, All-mono, All-append, All-sort,
  Bool-cases,
}
use short_editor.Content.{SourceRange}
use short_editor.Timeline.{output_duration_from, output_duration}
use short_editor.Crops.{
  VisualCropSample, RemappedSample, samples_of, remapped_from, not_after, unrepeated_after,
  unrepeated, remap_samples_to_short,
}

-- `x` stands in `xs` between the two other lists.
abbrev pub Splits : {A : Type 0} → List A → List A → A → List A → Type 0
Splits xs before x after = xs ≡ before ++ x ∷ after

module _ {A : Type 0} where
  All-Splits : (xs : List A) → All (λ x. (before after : List A) × Splits xs before x after) xs
  All-Splits [] = tt
  All-Splits (x ∷ xs) = (
    ([], xs, refl),
    All-mono _ _ xs (λ y (before, after, e). (x ∷ before, after, ap (λ ys. x ∷ ys) e))
        (All-Splits xs),
  )

  any-append : (p : A → Bool) (xs ys : List A) → any p (xs ++ ys) ≡ (any p xs || any p ys)
  any-append p [] ys = refl
  any-append p (x ∷ xs) ys = ground (arith, any-append p xs ys)

module _ {D : Type 0} where
  -- A remapped sample is one of the given samples in a range of the Short, and its time is what the
  -- ranges before that one take, `offset` included, and the distance to the start of that range.
  pub record Plays (offset : ℕ) (ranges : List SourceRange) (samples : List (VisualCropSample D))
      (v : RemappedSample D) : Type 0 where
    pub range : SourceRange
    pub before : List SourceRange
    pub after : List SourceRange
    pub ranged : Splits ranges before range after
    pub started : range.start_ms ≤ v.sample.at_ms
    pub unended : v.sample.at_ms ≤ range.end_ms
    pub timed : v.short_at_ms ≡ output_duration_from offset before + v.sample.at_ms - range.start_ms
    pub given : (earlier later : List (VisualCropSample D)) × Splits samples earlier v.sample later

  samples_of-Plays :
      (offset : ℕ) (r : SourceRange) (rs : List SourceRange)
      (all_samples : List (VisualCropSample D)) (ss : List (VisualCropSample D))
      → All
          (λ s. (earlier later : List (VisualCropSample D)) × Splits all_samples earlier s later)
          ss
      → All (Plays offset (r ∷ rs) all_samples) (samples_of offset r ss)
  unfolding samples_of
  samples_of-Plays offset r rs all_samples [] h = tt
  samples_of-Plays offset r rs all_samples (s ∷ ss) h =
      elim (Bool-cases (ltb s.at_ms r.start_ms || ltb r.end_ms s.at_ms)) [
        | inl out ↦ rw out (samples_of-Plays offset r rs all_samples ss h.1)
        | inr within ↦ rw within (
          record {
            range = r;
            before = [];
            after = rs;
            ranged = refl;
            started = ground (arith, within);
            unended = ground (arith, within);
            timed = refl;
            given = h.0;
          },
          samples_of-Plays offset r rs all_samples ss h.1,
        )
      ]

  remapped_from-Plays :
      (offset : ℕ) (ranges : List SourceRange) (samples : List (VisualCropSample D))
      → All (Plays offset ranges samples) (remapped_from offset ranges samples)
  unfolding remapped_from
  remapped_from-Plays offset [] samples = tt
  remapped_from-Plays offset (r ∷ rs) samples =
      All-append (Plays offset (r ∷ rs) samples) (samples_of offset r samples) _
        (samples_of-Plays offset r rs samples samples (All-Splits samples))
        (All-mono _ _ _
          (λ v p. record {
            range = p.range;
            before = r ∷ p.before;
            after = p.after;
            ranged = ap (λ xs. r ∷ xs) p.ranged;
            started = p.started;
            unended = p.unended;
            timed = p.timed;
            given = p.given;
          })
          (remapped_from-Plays (offset + r.end_ms - r.start_ms) rs samples))

  unrepeated_after-All :
      (P : RemappedSample D → Type 0) (prior : ℕ) (vs : List (RemappedSample D))
      → All P vs
      → All P (unrepeated_after prior vs)
  unfolding unrepeated_after
  unrepeated_after-All P prior [] h = tt
  unrepeated_after-All P prior (v ∷ vs) h = elim (Bool-cases (v.short_at_ms == prior)) [
    | inl same ↦ rw same (unrepeated_after-All P v.short_at_ms vs h.1)
    | inr other ↦ rw other (h.0, unrepeated_after-All P v.short_at_ms vs h.1)
  ]

  unrepeated-All :
      (P : RemappedSample D → Type 0) (vs : List (RemappedSample D))
      → All P vs
      → All P (unrepeated vs)
  unfolding unrepeated
  unrepeated-All P [] h = tt
  unrepeated-All P (v ∷ vs) h = (h.0, unrepeated_after-All P v.short_at_ms vs h.1)

  -- Each sample is at a later time than the one before.
  abbrev pub IsIncreasing : List (RemappedSample D) → Type 0
  IsIncreasing [] = Unit
  IsIncreasing (v ∷ vs) = All (λ w. v.short_at_ms < w.short_at_ms) vs × IsIncreasing vs

  unrepeated_after-IsIncreasing :
      (prior : ℕ) (vs : List (RemappedSample D))
      → All (λ v. prior ≤ v.short_at_ms) vs
      → IsSorted not_after vs
      → All (λ v. prior < v.short_at_ms) (unrepeated_after prior vs)
        × IsIncreasing (unrepeated_after prior vs)
  unfolding unrepeated_after
  unrepeated_after-IsIncreasing prior [] h k = (tt, tt)
  unrepeated_after-IsIncreasing prior (v ∷ vs) h k =
      let (later, increasing) =
        unrepeated_after-IsIncreasing v.short_at_ms vs
          (All-mono _ _ vs (λ w e. ground (arith, e)) k.0) k.1 in
      elim (Bool-cases (v.short_at_ms == prior)) [
        | inl same ↦ rw same (All-mono _ _ _ (λ w e. ground (arith, same, e)) later, increasing)
        | inr other ↦
            let first : prior < v.short_at_ms = ground (arith, other, h.0) in
            rw other
              ((first, All-mono _ _ _ (λ w e. omega (arith, first, e)) later), (later, increasing))
      ]

  unrepeated-IsIncreasing :
      (vs : List (RemappedSample D)) → IsSorted not_after vs → IsIncreasing (unrepeated vs)
  unfolding unrepeated
  unrepeated-IsIncreasing [] k = tt
  unrepeated-IsIncreasing (v ∷ vs) k =
      unrepeated_after-IsIncreasing v.short_at_ms vs
        (All-mono _ _ vs (λ w e. ground (arith, e)) k.0) k.1

  sort-not_after : (vs : List (RemappedSample D)) → IsSorted not_after (sort not_after vs)
  sort-not_after =
      sort-IsSorted not_after (λ x y h. ground (arith, h)) (λ x y z h k. ground (arith, h, k))

  unrepeated_after-any :
      (prior time : ℕ) (vs : List (RemappedSample D))
      → (prior == time) ≡ false
      → any (λ v. v.short_at_ms == time) (unrepeated_after prior vs)
        ≡ any (λ v. v.short_at_ms == time) vs
  unfolding unrepeated_after
  unrepeated_after-any prior time [] h = refl
  unrepeated_after-any prior time (v ∷ vs) h = elim (Bool-cases (v.short_at_ms == time)) [
    | inl hit ↦ ground (arith, hit, h)
    | inr miss ↦ ground (arith, miss, unrepeated_after-any v.short_at_ms time vs miss)
  ]

  unrepeated-any :
      (time : ℕ) (vs : List (RemappedSample D))
      → any (λ v. v.short_at_ms == time) (unrepeated vs) ≡ any (λ v. v.short_at_ms == time) vs
  unfolding unrepeated
  unrepeated-any time [] = refl
  unrepeated-any time (v ∷ vs) = elim (Bool-cases (v.short_at_ms == time)) [
    | inl hit ↦ ground (arith, hit)
    | inr miss ↦ ground (arith, miss, unrepeated_after-any v.short_at_ms time vs miss)
  ]

  samples_of-any :
      (offset at : ℕ) (r : SourceRange) (samples : List (VisualCropSample D))
      → r.start_ms ≤ at
      → at ≤ r.end_ms
      → any (λ s. s.at_ms == at) samples ≡ true
      → any (λ v. v.short_at_ms == offset + at - r.start_ms) (samples_of offset r samples) ≡ true
  unfolding samples_of
  samples_of-any offset at r [] after before there = cc
  samples_of-any offset at r (s ∷ ss) after before there =
      ground (arith, after, before, there, samples_of-any offset at r ss after before)

  remapped_from-any :
      (offset at : ℕ) (before after : List SourceRange) (r : SourceRange)
      (samples : List (VisualCropSample D))
      → r.start_ms ≤ at
      → at ≤ r.end_ms
      → any (λ s. s.at_ms == at) samples ≡ true
      → any
          (λ v. v.short_at_ms == output_duration_from offset before + at - r.start_ms)
          (remapped_from offset (before ++ r ∷ after) samples)
        ≡ true
  unfolding remapped_from
  remapped_from-any offset at [] after r samples from to there =
      let hit = samples_of-any offset at r samples from to there in
      let both =
        any-append (λ v. v.short_at_ms == offset + at - r.start_ms) (samples_of offset r samples)
          (remapped_from (offset + r.end_ms - r.start_ms) after samples) in
      ground (arith, both, hit)
  remapped_from-any offset at (b ∷ before) after r samples from to there =
      let hit =
        remapped_from-any (offset + b.end_ms - b.start_ms) at before after r samples from to
          there in
      let time = output_duration_from (offset + b.end_ms - b.start_ms) before + at - r.start_ms in
      let both =
        any-append (λ v. v.short_at_ms == time) (samples_of offset b samples)
          (remapped_from (offset + b.end_ms - b.start_ms) (before ++ r ∷ after) samples) in
      ground (arith, both, hit)

  -- The samples on the timeline stand in the order of their times, no two at one time. Each is a
  -- given sample that lies in a range of the Short, at the time at which it is played: what the
  -- ranges before take, and the distance to the start of its range.
  pub remap_samples_to_short_lem :
      (samples : List (VisualCropSample D)) (ranges : List SourceRange)
      → IsIncreasing (remap_samples_to_short samples ranges)
        × All (Plays 0 ranges samples) (remap_samples_to_short samples ranges)
  unfolding remap_samples_to_short
  remap_samples_to_short_lem samples ranges =
      let placed = remapped_from 0 ranges samples in
      (
        unrepeated-IsIncreasing (sort not_after placed) (sort-not_after placed),
        unrepeated-All (Plays 0 ranges samples) (sort not_after placed) (
            All-sort not_after (Plays 0 ranges samples) placed
              (remapped_from-Plays 0 ranges samples)),
      )

  -- Where a given sample lies in a range of the Short, there is a sample on the timeline at the time
  -- at which it is played.
  any-remap_samples_to_short :
      (samples : List (VisualCropSample D)) (before after : List SourceRange) (r : SourceRange)
      (at : ℕ)
      → any (λ s. s.at_ms == at) samples ≡ true
      → r.start_ms ≤ at
      → at ≤ r.end_ms
      → any
          (λ v. v.short_at_ms == output_duration before + at - r.start_ms)
          (remap_samples_to_short samples (before ++ r ∷ after))
        ≡ true
  unfolding remap_samples_to_short output_duration
  any-remap_samples_to_short samples before after r at there from to =
      let placed = remapped_from 0 (before ++ r ∷ after) samples in
      let time = output_duration_from 0 before + at - r.start_ms in
      rw (
        unrepeated-any time (sort not_after placed),
        any-sort (λ v. v.short_at_ms == time) not_after placed,
        remapped_from-any 0 at before after r samples from to there,
      )
