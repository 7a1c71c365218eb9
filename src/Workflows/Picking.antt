-- ===== src/Workflows/Picking.antt =====
-- src/core/short-workflows.ts: the candidate that is picked, and the layers that are proposed.
use short_editor.Prelude.{
  max, min, ◌+◌, ◌-◌, ◌*◌, subst, IsIn, IsIn-later, All-mono, All-sort, ltb, ltb→lt, &&_both, ◌&&◌,
  length, length-sort, ℕ, ◌≡◌, ◌≤◌, ◌<◌, refl, Bool, true, false, List, [], ◌∷◌, ◌++◌, some, sort,
  All-of-sort, IsSorted, sort-IsSorted, All, All-append, arith,
}
use short_editor.Workflows.{Preset, MotionGraphicLayer, Graphics, Candidate}
use short_editor.Workflows.Choices.{
  fits_better, first_candidate, best_candidate, layer_if, hook_layer, lower_third_layer,
  end_card_layer, is_chosen, graphics_layers,
}

module _ (target : ℕ) where
  fits_total : (x y : Candidate) → fits_better target x y ≡ false → fits_better target y x ≡ true
  fits_total x y h = ground (arith, h)

  fits_trans :
      (x y z : Candidate)
      → fits_better target x y ≡ true
      → fits_better target y z ≡ true
      → fits_better target x z ≡ true
  fits_trans x y z h k = ground (arith, h, k)

  fits_self : (x : Candidate) → fits_better target x x ≡ true
  fits_self x = ground arith

  -- By how much the length of a candidate is off the target.
  abbrev off_target : Candidate → ℕ
  off_target c = max (c.end_ms - c.start_ms) target - min (c.end_ms - c.start_ms) target

  -- The score of `c`, less the part of the target by which its length is off, is at least that of
  -- `d`, both times the target and in millionths; where the two are equal, its id comes first.
  pub record IsNoWorse (c d : Candidate) : Type 0 where
    pub at_least :
        d.score * target + 1000000 * off_target c ≤ c.score * target + 1000000 * off_target d
    pub by_id :
        d.score * target + 1000000 * off_target c ≡ c.score * target + 1000000 * off_target d
        → c.id ≤ d.id

  fits_better-IsNoWorse : (c d : Candidate) → fits_better target c d ≡ true → IsNoWorse c d
  fits_better-IsNoWorse c d h = record {
    at_least = ground (arith, h);
    by_id = λ tie. ground (arith, h, tie);
  }

  first_fits :
      (cs : List Candidate)
      → IsSorted (fits_better target) cs
      → 0 < length cs
      → (c : Candidate) × (first_candidate cs ≡ some c)
        × All (λ d. fits_better target c d ≡ true) cs
  first_fits [] h some_there = absurd (omega (arith, some_there))
  first_fits (c ∷ cs) h some_there = (c, refl, (fits_self c, h.0))

  every_IsIn : (cs : List Candidate) → All (λ c. IsIn c cs) cs
  every_IsIn [] = tt
  every_IsIn (c ∷ cs) =
      (([], cs, refl), All-mono _ _ cs (λ d there. IsIn-later d c cs there) (every_IsIn cs))

  first-All :
      (P : Candidate → Type 0) (cs : List Candidate) (c : Candidate)
      → All P cs
      → first_candidate cs ≡ some c
      → P c
  first-All P [] c h e = cc
  first-All P (d ∷ cs) c h e = (let same : d ≡ c = ground arith in subst P same h.0)

  -- Where there are candidates, the one that is picked is one of them and none of them is better: its
  -- score, less the part of the target by which its length is off, is the highest, and of those with
  -- the same its id comes first.
  pub best_candidate_lem :
      (d : Candidate) (cs : List Candidate)
      → (c : Candidate) × (best_candidate target (d ∷ cs) ≡ some c)
        × IsIn c (d ∷ cs)
        × All (λ e. IsNoWorse c e) (d ∷ cs)
  unfolding best_candidate
  best_candidate_lem d cs =
      let le = fits_better target in
      let given = d ∷ cs in
      let sorted = sort-IsSorted le fits_total fits_trans given in
      let some_there : 0 < length (sort le given) = rw (length-sort le given) (omega arith) in
      let (c, picked, fits) = first_fits (sort le given) sorted some_there in
      (
        c,
        picked,
        first-All (λ e. IsIn e given) (sort le given) c
            (All-sort le (λ e. IsIn e given) given (every_IsIn given)) picked,
        All-mono _ _ given (λ e. fits_better-IsNoWorse c e)
            (All-of-sort le (λ e. le c e ≡ true) given fits),
      )

abbrev pub IsWithin : ℕ → MotionGraphicLayer → Type 0
IsWithin duration l = (l.start_ms < l.end_ms) × (l.end_ms ≤ duration)

layer_if-All :
    (b : Bool) (P : MotionGraphicLayer → Type 0) (l : MotionGraphicLayer)
    → (b ≡ true → P l)
    → All P (layer_if b l)
layer_if-All true P l h = (h refl, tt)
layer_if-All false P l h = tt

lower_third_IsWithin :
    (duration : ℕ) → 1000 < duration → IsWithin duration (lower_third_layer duration)
lower_third_IsWithin duration long = ground (arith, long)

-- For a Short that is not empty, every proposed layer ends after it starts, as the schema of the
-- layers wants, and not after the Short does.
pub graphics_layers-All :
    (g : Graphics) (duration : ℕ)
    → 0 < duration
    → All (IsWithin duration) (graphics_layers g duration)
unfolding graphics_layers
graphics_layers-All g duration positive =
    let P = IsWithin duration in
    let first = layer_if (is_chosen g Preset.hook) (hook_layer duration) in
    let second =
      layer_if (is_chosen g Preset.lower_third && ltb 1000 duration) (lower_third_layer duration) in
    let third = layer_if (is_chosen g Preset.end_card) (end_card_layer duration) in
    All-append P first (second ++ third)
      (layer_if-All (is_chosen g Preset.hook) P (hook_layer duration)
        (λ asked. ground (arith, positive)))
      (All-append P second third
        (layer_if-All (is_chosen g Preset.lower_third && ltb 1000 duration) P
          (lower_third_layer duration)
          (λ asked. lower_third_IsWithin duration (ltb→lt 1000 duration (&&_both _ _ asked).1)))
        (layer_if-All (is_chosen g Preset.end_card) P (end_card_layer duration)
          (λ asked. ground (arith, positive))))
