-- ===== src/Candidates/Slices.antt =====
-- The part of a list that `slice` takes, which src/core/candidates.ts uses for runs of segments.
use short_editor.Prelude.{
  ℕ, zero, suc, ◌+◌, ◌-◌, ◌≤◌, ◌<◌, ◌≡◌, refl, ap, ◌∙◌, length, get_elem?, take, List, [], ◌∷◌,
  ◌++◌, some, arith,
}
use short_editor.Candidates.Windows.{drop, slice}

module _ {ℓ} {A : Type ℓ} where
  pub length-drop : (n : ℕ) (xs : List A) → length (drop n xs) ≡ length xs - n
  length-drop zero xs = omega arith
  length-drop (suc n) [] = omega arith
  length-drop (suc n) (x ∷ xs) = omega (arith, length-drop n xs)

  length-take : (n : ℕ) (xs : List A) → n ≤ length xs → length (take n xs) ≡ n
  length-take zero xs h = refl
  length-take (suc n) [] h = absurd (omega (arith, h))
  length-take (suc n) (x ∷ xs) h = ap suc (length-take n xs (omega (arith, h)))

  get_elem?-drop : (n i k : ℕ) (xs : List A) → k ≡ n + i → get_elem? (drop n xs) i ≡ get_elem? xs k
  get_elem?-drop zero i k xs e = ap (get_elem? xs) (omega (arith, e))
  get_elem?-drop (suc n) i k [] e = refl
  get_elem?-drop (suc n) i zero (x ∷ xs) e = absurd (omega (arith, e))
  get_elem?-drop (suc n) i (suc k) (x ∷ xs) e = get_elem?-drop n i k xs (omega (arith, e))

  get_elem?-take : (n i : ℕ) (xs : List A) → i < n → get_elem? (take n xs) i ≡ get_elem? xs i
  get_elem?-take zero i xs h = absurd (omega (arith, h))
  get_elem?-take (suc n) i [] h = refl
  get_elem?-take (suc n) zero (x ∷ xs) h = refl
  get_elem?-take (suc n) (suc i) (x ∷ xs) h = get_elem?-take n i xs (omega (arith, h))

  pub take-drop : (n : ℕ) (xs : List A) → xs ≡ take n xs ++ drop n xs
  take-drop zero xs = refl
  take-drop (suc n) [] = refl
  take-drop (suc n) (x ∷ xs) = ap (λ ys. x ∷ ys) (take-drop n xs)

  pub get_elem?-bound : (xs : List A) (i : ℕ) (x : A) → get_elem? xs i ≡ some x → i < length xs
  get_elem?-bound [] i x h = cc
  get_elem?-bound (y ∷ ys) zero x h = omega arith
  get_elem?-bound (y ∷ ys) (suc i) x h = omega (arith, get_elem?-bound ys i x h)

  pub get_elem?-slice :
      (l r i k : ℕ) (xs : List A) → k ≤ r → k ≡ l + i → get_elem? (slice l r xs) i ≡ get_elem? xs k
  get_elem?-slice l r i k xs h e =
      get_elem?-take (suc r - l) i (drop l xs) (omega (arith, h, e)) ∙ get_elem?-drop l i k xs e

  pub length-slice :
      (l r : ℕ) (xs : List A) → l ≤ r → r < length xs → length (slice l r xs) ≡ suc r - l
  length-slice l r xs h k =
      length-take (suc r - l) (drop l xs) (rw (length-drop l xs) (omega (arith, h, k)))
