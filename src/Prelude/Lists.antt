-- ===== src/Prelude/Lists.antt =====
-- Lists measured by native numbers, predicates over a list, and the last element.
use Prim.Native.Nat.{ℕ, zero, suc, ◌+◌, ◌≤◌, min}
use mathlib.Core.Path.{◌≡◌, refl, ap, subst}
use mathlib.Core.Bool.{Bool, true, false, ◌&&◌, ◌||◌}
use mathlib.Core.Logic.{inl, inr}
use mathlib.Core.List.{List, [], ◌∷◌, ◌++◌}
use mathlib.Core.Option.{Option, none, some}
use native.Mathlib.Omega.{arith}
use short_editor.Prelude.Tests.{if◌then◌else◌, Bool-cases}

module _ {ℓ} {A : Type ℓ} where
  abbrev pub length : List A → ℕ
  length [] = 0
  length (x ∷ xs) = suc (length xs)

  abbrev pub get_elem? : List A → ℕ → Option A
  get_elem? [] i = none
  get_elem? (x ∷ xs) zero = some x
  get_elem? (x ∷ xs) (suc i) = get_elem? xs i

  abbrev pub take : ℕ → List A → List A
  take zero xs = []
  take (suc n) [] = []
  take (suc n) (x ∷ xs) = x ∷ take n xs

  abbrev pub any : (A → Bool) → List A → Bool
  any p [] = false
  any p (x ∷ xs) = p x || any p xs

  abbrev pub all : (A → Bool) → List A → Bool
  all p [] = true
  all p (x ∷ xs) = p x && all p xs

  -- `Array.prototype.find`, and the `LIMIT 1` of a query.
  abbrev pub find : (A → Bool) → List A → Option A
  find p [] = none
  find p (x ∷ xs) = if p x then some x else find p xs

  abbrev pub select : (A → Bool) → List A → List A
  select p [] = []
  select p (x ∷ xs) = if p x then x ∷ select p xs else select p xs

  pub length-append : (xs ys : List A) → length (xs ++ ys) ≡ length xs + length ys
  length-append [] ys = omega arith
  length-append (x ∷ xs) ys = omega (arith, length-append xs ys)

  pub length-take : (n : ℕ) (xs : List A) → length (take n xs) ≡ min n (length xs)
  length-take zero xs = omega arith
  length-take (suc n) [] = omega arith
  length-take (suc n) (x ∷ xs) = omega (arith, length-take n xs)

  pub length-select : (p : A → Bool) (xs : List A) → length (select p xs) ≤ length xs
  length-select p [] = omega arith
  length-select p (x ∷ xs) = ground (arith, length-select p xs)

  pub find-holds : (p : A → Bool) (xs : List A) (x : A) → find p xs ≡ some x → p x ≡ true
  find-holds p [] x e = cc
  find-holds p (y ∷ ys) x e = ground (arith, find-holds p ys x)

  -- An element at some place.
  abbrev pub IsIn : A → List A → Type ℓ
  IsIn x xs = (before : List A) × (after : List A) × (xs ≡ before ++ (x ∷ after))

  pub IsIn-later : (x y : A) (ys : List A) → IsIn x ys → IsIn x (y ∷ ys)
  IsIn-later x y ys (before, after, e) = (y ∷ before, after, ap (λ l. y ∷ l) e)

  pub IsIn-find : (p : A → Bool) (xs : List A) (x : A) → find p xs ≡ some x → IsIn x xs
  IsIn-find p [] x e = cc
  IsIn-find p (y ∷ ys) x e = elim (Bool-cases (p y)) [
    | inl hit ↦ (let same : y ≡ x = ground arith in ([], ys, ap (λ z. z ∷ ys) same))
    | inr miss ↦ IsIn-later x y ys (IsIn-find p ys x (rw miss at e))
  ]

  pub IsIn-any : (p : A → Bool) (xs : List A) → any p xs ≡ true → (x : A) × (p x ≡ true) × IsIn x xs
  IsIn-any p [] h = cc
  IsIn-any p (y ∷ ys) h = elim (Bool-cases (p y)) [
    | inl hit ↦ (y, hit, ([], ys, refl))
    | inr miss ↦
        let (x, holds, there) = IsIn-any p ys (rw miss at h) in (x, holds, IsIn-later x y ys there)
  ]

  -- What `update_where` and a query's `changes` see of a table.
  pub any-find : (p : A → Bool) (xs : List A) (x : A) → find p xs ≡ some x → any p xs ≡ true
  any-find p [] x e = cc
  any-find p (y ∷ ys) x e = ground (arith, any-find p ys x)

module _ {ℓ κ} {A : Type ℓ} (P : A → Type κ) where
  -- Each element has the property.
  abbrev pub All : List A → Type κ
  All [] = Unit
  All (x ∷ xs) = P x × All xs

module _ {ℓ κ} {A : Type ℓ} (P : A → Type κ) where
  pub All-append : (xs ys : List A) → All P xs → All P ys → All P (xs ++ ys)
  All-append [] ys h k = k
  All-append (x ∷ xs) ys h k = (h.0, All-append xs ys h.1 k)

  pub All-take : (n : ℕ) (xs : List A) → All P xs → All P (take n xs)
  All-take zero xs h = tt
  All-take (suc n) [] h = tt
  All-take (suc n) (x ∷ xs) h = (h.0, All-take n xs h.1)

  pub All-find : (p : A → Bool) (xs : List A) (x : A) → All P xs → find p xs ≡ some x → P x
  All-find p [] x h e = cc
  All-find p (y ∷ ys) x h e = elim (Bool-cases (p y)) [
    | inl hit ↦ (let same : y ≡ x = ground arith in subst P same h.0)
    | inr miss ↦ All-find p ys x h.1 (rw miss at e)
  ]

  pub All-select : (p : A → Bool) (xs : List A) → All P xs → All P (select p xs)
  All-select p [] h = tt
  All-select p (y ∷ ys) h = elim (Bool-cases (p y)) [
    | inl hit ↦ rw hit (h.0, All-select p ys h.1)
    | inr miss ↦ rw miss (All-select p ys h.1)
  ]

module _ {ℓ κ μ} {A : Type ℓ} (P : A → Type κ) (Q : A → Type μ) where
  pub All-mono : (xs : List A) → ((x : A) → P x → Q x) → All P xs → All Q xs
  All-mono [] f h = tt
  All-mono (x ∷ xs) f h = (f x h.0, All-mono xs f h.1)

  pub All-both : (xs : List A) → All P xs → All Q xs → All (λ x. P x × Q x) xs
  All-both [] h k = tt
  All-both (x ∷ xs) h k = ((h.0, k.0), All-both xs h.1 k.1)
