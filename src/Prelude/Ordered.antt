-- ===== src/Prelude/Ordered.antt =====
-- Lists in order, and predicates over all elements, under the operations on rows of a table.
use mathlib.Core.Path.{◌≡◌}
use mathlib.Core.Logic.{inl, inr}
use mathlib.Core.Bool.{Bool, true}
use mathlib.Core.List.{List, [], ◌∷◌, ◌++◌, map}
use short_editor.Prelude.Tests.{Bool-cases}
use short_editor.Prelude.Lists.{select, All, All-append, All-mono, All-select}
use short_editor.Prelude.Tables.{update_where, All-update_where}
use short_editor.Prelude.Sorting.{IsSorted}

module _ {ℓ} {A : Type ℓ} (r : A → A → Bool) where
  pub IsSorted-append :
      (xs ys : List A)
      → IsSorted r xs
      → IsSorted r ys
      → All (λ x. All (λ y. r x y ≡ true) ys) xs
      → IsSorted r (xs ++ ys)
  IsSorted-append [] ys h k c = k
  IsSorted-append (x ∷ xs) ys h k c = (All-append _ xs ys h.0 c.0, IsSorted-append xs ys h.1 k c.1)

  module _ {B : Type ℓ} (f : B → A) (s : B → B → Bool)
      (keeps : (x y : B) → s x y ≡ true → r (f x) (f y) ≡ true) where
    All-mapped :
        (x : B) (ys : List B) → All (λ y. s x y ≡ true) ys → All (λ y. r (f x) y ≡ true) (map f ys)
    All-mapped x [] h = tt
    All-mapped x (y ∷ ys) h = (keeps x y h.0, All-mapped x ys h.1)

    pub IsSorted-map : (xs : List B) → IsSorted s xs → IsSorted r (map f xs)
    IsSorted-map [] h = tt
    IsSorted-map (x ∷ xs) h = (All-mapped x xs h.0, IsSorted-map xs h.1)

  pub IsSorted-select : (p : A → Bool) (xs : List A) → IsSorted r xs → IsSorted r (select p xs)
  IsSorted-select p [] h = tt
  IsSorted-select p (x ∷ xs) h = elim (Bool-cases (p x)) [
    | inl hit ↦ rw hit (All-select _ p xs h.0, IsSorted-select p xs h.1)
    | inr miss ↦ rw miss (IsSorted-select p xs h.1)
  ]

  module _ (p : A → Bool) (f : A → A) (left : (x y : A) → r x y ≡ true → r (f x) y ≡ true)
      (right : (x y : A) → r x y ≡ true → r x (f y) ≡ true) where
    pub IsSorted-update_where : (xs : List A) → IsSorted r xs → IsSorted r (update_where p f xs)
    IsSorted-update_where [] h = tt
    IsSorted-update_where (x ∷ xs) h =
        let after : All (λ y. r x y ≡ true) (update_where p f xs) =
          All-update_where _ p f xs (λ y hit k. right x y k) h.0 in
        elim (Bool-cases (p x)) [
          | inl hit ↦
              rw hit
                (All-mono _ _ (update_where p f xs) (left x) after, IsSorted-update_where xs h.1)
          | inr miss ↦ rw miss (after, IsSorted-update_where xs h.1)
        ]

pub All-swap {ℓ} :
    {A : Type ℓ} (R : A → A → Type 0) (xs ys : List A)
    → All (λ y. All (λ x. R x y) xs) ys
    → All (λ x. All (λ y. R x y) ys) xs
All-swap R [] ys h = tt
All-swap R (x ∷ xs) ys h =
    (All-mono _ _ ys (λ y k. k.0) h, All-swap R xs ys (All-mono _ _ ys (λ y k. k.1) h))
