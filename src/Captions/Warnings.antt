-- ===== src/Captions/Warnings.antt =====
-- src/core/captions.ts: which captions `analyze` warns of.
use short_editor.Prelude.{
  ◌≤◌, ◌≡◌, ◌↔◌, ◌-◌, ◌==◌, ◌∙◌, sym, ap, refl, inl, inr, Bool, true, false, not, ◌||◌, ltb, List,
  [], ◌∷◌, ◌++◌, arith, any, sort, All, All-mono, All-both, Bool-cases, is_some,
}
use short_editor.Content.{SourceRange}
use short_editor.Timeline.{Cue, containing_range}
use short_editor.Captions.{
  Warning, WarningCode, warning_code, same_identity, unseen_warnings, deduplicate_warnings,
  cue_before, latest_of, overlaps_after, overlaps_of, overlap_warnings, cue_warnings, when, analyze,
}

-- Each cue ends before the later ones start.
abbrev pub AreDisjoint : List Cue → Type 0
AreDisjoint [] = Unit
AreDisjoint (c ∷ cs) = All (λ d. c.end_ms ≤ d.start_ms) cs × AreDisjoint cs

abbrev AfterLatest : Cue → List Cue → Type 0
AfterLatest latest cs = All (λ d. latest.end_ms ≤ d.start_ms) cs × AreDisjoint cs

overlaps_after-none :
    (latest : Cue) (cs : List Cue) → overlaps_after latest cs ≡ [] → AfterLatest latest cs
unfolding overlaps_after
overlaps_after-none latest [] h = (tt, tt)
overlaps_after-none latest (c ∷ cs) h = elim (Bool-cases (ltb c.start_ms latest.end_ms)) [
  | inl early ↦ cc (rw early at h)
  | inr after ↦
      let (rest, apart) = overlaps_after-none (latest_of latest c) cs (rw after at h) in
      (
        (ground arith, All-mono _ _ cs (λ d k. ground arith) rest),
        (All-mono _ _ cs (λ d k. ground arith) rest, apart),
      )
]

none-overlaps_after :
    (latest : Cue) (cs : List Cue) → AfterLatest latest cs → overlaps_after latest cs ≡ []
unfolding overlaps_after
none-overlaps_after latest [] h = refl
none-overlaps_after latest (c ∷ cs) ((first, later), (own, apart)) =
    let rest =
      none-overlaps_after (latest_of latest c) cs
        (All-mono _ _ cs (λ d k. ground (arith, k)) (All-both _ _ cs later own), apart) in
    ground (arith, first, rest)

-- No warning exactly if no cue starts, in the order of the starts, before an earlier one has ended.
overlap_warnings_iff :
    (cues : List Cue) → (overlap_warnings cues ≡ []) ↔ AreDisjoint (sort cue_before cues)
unfolding overlap_warnings
overlap_warnings_iff cues = ordered (sort cue_before cues)
  where
    ordered : (cs : List Cue) → (overlaps_of cs ≡ []) ↔ AreDisjoint cs
    ordered [] = (λ h. tt, λ h. refl)
    ordered (c ∷ cs) = (overlaps_after-none c cs, none-overlaps_after c cs)

any-append : (p : Warning → Bool) (xs ys : List Warning) → any p (xs ++ ys) ≡ (any p xs || any p ys)
any-append p [] ys = refl
any-append p (x ∷ xs) ys = ground (arith, any-append p xs ys)

any-append-false :
    (p : Warning → Bool) (xs ys : List Warning)
    → any p xs ≡ false
    → any p ys ≡ false
    → any p (xs ++ ys) ≡ false
any-append-false p xs ys h k = rw (any-append p xs ys, h, k)

-- No two warnings have one identity.
abbrev pub AreDistinctWarnings : List Warning → Type 0
AreDistinctWarnings [] = Unit
AreDistinctWarnings (w ∷ ws) = All (λ v. same_identity v w ≡ false) ws × AreDistinctWarnings ws

identity_swap : (i w v : Warning) → same_identity i w ≡ true → same_identity i v ≡ same_identity w v
identity_swap i w v h = ground arith

any_swap :
    (i w : Warning) (ws : List Warning)
    → same_identity i w ≡ true
    → any (same_identity i) ws ≡ any (same_identity w) ws
any_swap i w [] h = refl
any_swap i w (v ∷ vs) h = ground (arith, identity_swap i w v h, any_swap i w vs h)

-- What has been seen under the identity of `s` does not come again.
unseen_warnings-All :
    (seen ws : List Warning) (s : Warning)
    → any (same_identity s) seen ≡ true
    → All (λ v. same_identity v s ≡ false) (unseen_warnings seen ws)
unfolding unseen_warnings
unseen_warnings-All seen [] s h = tt
unseen_warnings-All seen (w ∷ ws) s h = elim (Bool-cases (any (same_identity w) seen)) [
  | inl known ↦ rw known (unseen_warnings-All seen ws s h)
  | inr unknown ↦
      rw unknown (apart unknown, unseen_warnings-All (w ∷ seen) ws s (ground (arith, h)))
]
  where
    apart : any (same_identity w) seen ≡ false → same_identity w s ≡ false
    apart unknown = elim (Bool-cases (same_identity w s)) [
      | inl same ↦ cc (any_swap w s seen same, unknown, h)
      | inr other ↦ other
    ]

identity_self : (w : Warning) → same_identity w w ≡ true
identity_self w = ground arith

unseen_warnings-AreDistinctWarnings :
    (seen ws : List Warning) → AreDistinctWarnings (unseen_warnings seen ws)
unfolding unseen_warnings
unseen_warnings-AreDistinctWarnings seen [] = tt
unseen_warnings-AreDistinctWarnings seen (w ∷ ws) = elim (Bool-cases (any (same_identity w) seen)) [
  | inl known ↦ rw known (unseen_warnings-AreDistinctWarnings seen ws)
  | inr unknown ↦ rw unknown (
    unseen_warnings-All (w ∷ seen) ws w (rw (identity_self w)),
    unseen_warnings-AreDistinctWarnings (w ∷ seen) ws,
  )
]

-- A test that does not tell two warnings of one identity apart.
abbrev IsOfIdentity : (Warning → Bool) → Type 0
IsOfIdentity p = (v w : Warning) → same_identity v w ≡ true → p v ≡ p w

module _ (p : Warning → Bool) (same : IsOfIdentity p) where
  seen-fails :
      (w : Warning) (seen : List Warning)
      → any (same_identity w) seen ≡ true
      → any p seen ≡ false
      → p w ≡ false
  seen-fails w [] known h = cc
  seen-fails w (v ∷ vs) known h = elim (Bool-cases (same_identity w v)) [
    | inl equal ↦ ground (arith, same w v equal, h)
    | inr other ↦ seen-fails w vs (ground arith) (ground arith)
  ]

  unseen_warnings-any :
      (seen ws : List Warning) → any p seen ≡ false → any p (unseen_warnings seen ws) ≡ any p ws
  unfolding unseen_warnings
  unseen_warnings-any seen [] h = refl
  unseen_warnings-any seen (w ∷ ws) h = elim (Bool-cases (any (same_identity w) seen)) [
    | inl known ↦ rw (known, seen-fails w seen known h) (unseen_warnings-any seen ws h)
    | inr unknown ↦ elim (Bool-cases (p w)) [
      | inl holds ↦ rw (unknown, holds) refl
      | inr fails ↦ rw (unknown, fails) (unseen_warnings-any (w ∷ seen) ws (rw (fails, h) refl))
    ]
  ]

  deduplicate_warnings-any : (ws : List Warning) → any p (deduplicate_warnings ws) ≡ any p ws
  unfolding deduplicate_warnings
  deduplicate_warnings-any ws = unseen_warnings-any [] ws refl

identity-IsOfIdentity : (i : Warning) → IsOfIdentity (same_identity i)
identity-IsOfIdentity i v w h = ground (arith, h)

-- `deduplicateWarnings` leaves one warning of each identity, a cue with a code, that it was given, and
-- no other.
deduplicate_warnings_lem :
    (ws : List Warning)
    → AreDistinctWarnings (deduplicate_warnings ws)
      × ((i : Warning) → any (same_identity i) (deduplicate_warnings ws) ≡ any (same_identity i) ws)
unfolding deduplicate_warnings
deduplicate_warnings_lem ws = (
  unseen_warnings-AreDistinctWarnings [] ws,
  λ i. deduplicate_warnings-any (same_identity i) (identity-IsOfIdentity i) ws,
)

abbrev pub is_overlap : Warning → Bool
is_overlap w = warning_code w.code == warning_code WarningCode.overlap

overlap-IsOfIdentity : IsOfIdentity is_overlap
overlap-IsOfIdentity v w h = ground (arith, h)

overlaps_after-any :
    (latest : Cue) (cs : List Cue)
    → any is_overlap (overlaps_after latest cs) ≡ false
    → overlaps_after latest cs ≡ []
unfolding overlaps_after
overlaps_after-any latest [] h = refl
overlaps_after-any latest (c ∷ cs) h = elim (Bool-cases (ltb c.start_ms latest.end_ms)) [
  | inl early ↦ cc (rw early at h)
  | inr after ↦ rw after (overlaps_after-any (latest_of latest c) cs (rw after at h))
]

overlap_warnings-any :
    (cues : List Cue) → any is_overlap (overlap_warnings cues) ≡ false → overlap_warnings cues ≡ []
unfolding overlap_warnings
overlap_warnings-any cues = ordered (sort cue_before cues)
  where
    ordered : (cs : List Cue) → any is_overlap (overlaps_of cs) ≡ false → overlaps_of cs ≡ []
    ordered [] h = refl
    ordered (c ∷ cs) h = overlaps_after-any c cs h

module _ (layout : Cue → List Warning)
    (others : (c : Cue) → any is_overlap (layout c) ≡ false) where
  cue_warnings-any :
      (ranges : List SourceRange) (cues : List Cue)
      → any is_overlap (cue_warnings layout ranges cues) ≡ false
  unfolding cue_warnings
  cue_warnings-any ranges [] = refl
  cue_warnings-any ranges (c ∷ cs) =
      let short = when (ltb (c.end_ms - c.start_ms) 500) WarningCode.short_cue c in
      let outside =
        when (not (is_some (containing_range c ranges))) WarningCode.outside_source_range c in
      let rest = cue_warnings layout ranges cs in
      any-append-false is_overlap (short ++ outside ++ layout c) rest
        (any-append-false is_overlap (short ++ outside) (layout c)
          (any-append-false is_overlap short outside (ground arith) (ground arith)) (others c))
        (cue_warnings-any ranges cs)

  analyze-any :
      (cues : List Cue) (ranges : List SourceRange)
      → any is_overlap (analyze layout cues ranges true) ≡ any is_overlap (overlap_warnings cues)
  unfolding analyze
  analyze-any cues ranges =
      deduplicate_warnings-any is_overlap overlap-IsOfIdentity
        (cue_warnings layout ranges cues ++ overlap_warnings cues)
      ∙ any-append is_overlap (cue_warnings layout ranges cues) (overlap_warnings cues)
      ∙ ap (λ b. b || any is_overlap (overlap_warnings cues)) (cue_warnings-any ranges cues)

  -- Where the layout of a cue gives no warning of an overlap itself: with captions enabled, `analyze`
  -- warns of no overlap exactly if no cue starts, in the order of the starts, before an earlier one
  -- has ended. With captions disabled it warns of nothing.
  pub analyze-overlap :
      (cues : List Cue) (ranges : List SourceRange)
      → ((any is_overlap (analyze layout cues ranges true) ≡ false)
          ↔ AreDisjoint (sort cue_before cues))
        × (analyze layout cues ranges false ≡ [])
  unfolding analyze
  analyze-overlap cues ranges =
      let (apart, quiet) = overlap_warnings_iff cues in
      let reported = analyze-any cues ranges in
      (
        (
          λ h. apart (overlap_warnings-any cues (sym reported ∙ h)),
          λ h. reported ∙ ap (any is_overlap) (quiet h),
        ),
        refl,
      )
