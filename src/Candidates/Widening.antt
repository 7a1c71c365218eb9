-- ===== src/Candidates/Widening.antt =====
-- src/core/candidates.ts, `alignHighlight`: the loop that widens a window ends, in a window that fits.
use short_editor.Prelude.{
  ℕ, zero, suc, ◌+◌, ◌-◌, ◌≤◌, ◌<◌, ◌≡◌, refl, sym, ap, length, get_elem?, true, false, List,
  Option, none, some, arith, inl, inr, Bool-cases, Option-cases, is_some, ◌⊎◌,
}
use short_editor.Candidates.{TranscriptSegment}
use short_editor.Candidates.Windows.{
  start_at, end_at, Growth, is_no_longer, earlier_segment, widened, too_long_at, too_short_at, grow,
  min_duration_ms, max_duration_ms,
}
use short_editor.Candidates.Slices.{get_elem?-bound}

module _ (segments : List TranscriptSegment) where
  some_pair :
      (x y a b : ℕ) → ◌≡◌ {A = Option (ℕ × ℕ)} (some (x, y)) (some (a, b)) → (a ≡ x) × (b ≡ y)
  some_pair x y a b h = (
    ap (λ o. elim o [ none ↦ 0 | some p ↦ p.0 ]) (sym h),
    ap (λ o. elim o [ none ↦ 0 | some p ↦ p.1 ]) (sym h),
  )

  widened_moves :
      (e f : Option TranscriptSegment) (l r a b : ℕ)
      → widened e f l r ≡ some (a, b)
      → ((is_some e ≡ true) × ((a ≡ l - 1) × (b ≡ r)))
        ⊎ ((is_some f ≡ true) × ((a ≡ l) × (b ≡ suc r)))
  widened_moves none none l r a b h = cc
  widened_moves (some e) none l r a b h = inl (refl, some_pair (l - 1) r a b h)
  widened_moves none (some f) l r a b h = inr (refl, some_pair l (suc r) a b h)
  widened_moves (some e) (some f) l r a b h = elim (Bool-cases (is_no_longer e f)) [
    | inl earlier ↦ inl (refl, some_pair (l - 1) r a b (rw earlier at h))
    | inr later ↦ inr (refl, some_pair l (suc r) a b (rw later at h))
  ]

  has_earlier : (l : ℕ) → is_some (earlier_segment segments l) ≡ true → 0 < l
  has_earlier zero h = cc
  has_earlier (suc l) h = omega arith

  has_later : (r : ℕ) → is_some (get_elem? segments r) ≡ true → r < length segments
  has_later r h = elim (Option-cases (get_elem? segments r)) [
    | inl gone ↦ (let no : false ≡ true = rw gone at h in cc)
    | inr (s, found) ↦ get_elem?-bound segments r s found
  ]

  -- A wider window is one segment longer.
  widened_lem :
      (l r a b : ℕ)
      → l ≤ r
      → r < length segments
      → widened (earlier_segment segments l) (get_elem? segments (suc r)) l r ≡ some (a, b)
      → (a ≤ b) × (b < length segments) × (suc a + r ≡ l + b)
  widened_lem l r a b h k e =
      elim (widened_moves (earlier_segment segments l) (get_elem? segments (suc r)) l r a b e) [
        | inl (there, (left, right)) ↦
            let positive = has_earlier l there in
            (
              omega (arith, h, left, right),
              omega (arith, k, right),
              omega (arith, positive, left, right),
            )
        | inr (there, (left, right)) ↦
            let more = has_later (suc r) there in
            (omega (arith, h, left, right), omega (arith, more, right), omega (arith, left, right))
      ]

  -- What a window that the loop returns is.
  abbrev pub IsFit : ℕ → ℕ → Type 0
  IsFit a b =
      (a ≤ b)
      × (b < length segments)
      × (min_duration_ms + start_at segments a ≤ end_at segments b)
      × (end_at segments b ≤ max_duration_ms + start_at segments a)

  -- With fuel for the segments that are left the loop ends, in a window that fits if in any.
  pub grow-ends :
      (fuel l r : ℕ)
      → l ≤ r
      → r < length segments
      → l + length segments ≤ fuel + r
      → too_long_at segments l r ≡ false
      → (grow segments fuel l r ≡ Growth.unusable)
        ⊎ ((a : ℕ) × (b : ℕ) × (grow segments fuel l r ≡ Growth.window a b) × IsFit a b)
  unfolding grow
  grow-ends zero l r h k enough fits = absurd (omega (arith, k, enough))
  grow-ends (suc fuel) l r h k enough fits = elim (Bool-cases (too_short_at segments l r)) [
    | inr long ↦
        rw (grow, long) (inr (l, r, refl, (h, k, ground (arith, long), ground (arith, fits))))
    | inl short ↦
        rw (grow, short)
          (elim (Option-cases
            (widened (earlier_segment segments l) (get_elem? segments (suc r)) l r)) [
              | inl alone ↦ rw (grow, alone) (inl refl)
              | inr ((a, b), wider) ↦
                  let (ordered, inside, longer) = widened_lem l r a b h k wider in
                  rw (grow, wider)
                    (elim (Bool-cases (too_long_at segments a b)) [
                      | inl long ↦ rw (grow, long) (inl refl)
                      | inr fits ↦
                          rw (grow, fits)
                            (grow-ends fuel a b ordered inside (omega (arith, longer, enough)) fits)
                    ])
            ])
  ]
