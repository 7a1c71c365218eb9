-- ===== src/Prelude/Sorting.antt =====
-- `Array.prototype.sort`, which is stable: `le x y` says that the comparator is at most 0.
use Prim.Native.Nat.{ℕ, zero, suc}
use mathlib.Core.Path.{◌≡◌, refl}
use mathlib.Core.Bool.{Bool, true, false, ◌||◌}
use mathlib.Core.Logic.{inl, inr}
use mathlib.Core.List.{List, [], ◌∷◌, Perm}
use mathlib.Core.List.Perm
use native.Mathlib.Omega.{arith}
use short_editor.Prelude.Tests.{if◌then◌else◌, Bool-cases}
use short_editor.Prelude.Lists.{length, take, any, All, All-mono, All-take}

module _ {ℓ} {A : Type ℓ} (le : A → A → Bool) where
  abbrev pub insert : A → List A → List A
  insert x [] = x ∷ []
  insert x (y ∷ ys) = if le x y then x ∷ y ∷ ys else y ∷ insert x ys

  abbrev pub sort : List A → List A
  sort [] = []
  sort (x ∷ xs) = insert x (sort xs)

  -- Each element is before or tied with all that follow it.
  abbrev pub IsSorted : List A → Type 0
  IsSorted [] = Unit
  IsSorted (x ∷ xs) = All (λ y. le x y ≡ true) xs × IsSorted xs

  pub insert-perm : (x : A) (xs : List A) → Perm (insert x xs) (x ∷ xs)
  insert-perm x [] = Perm.refl _
  insert-perm x (y ∷ ys) = elim (Bool-cases (le x y)) [
    | inl before ↦ rw before (Perm.refl _)
    | inr later ↦ rw later (Perm.trans (Perm.cons y (insert-perm x ys)) (Perm.swap x y ys))
  ]

  pub sort-perm : (xs : List A) → Perm (sort xs) xs
  sort-perm [] = Perm.refl _
  sort-perm (x ∷ xs) = Perm.trans (insert-perm x (sort xs)) (Perm.cons x (sort-perm xs))

  pub length-insert : (x : A) (xs : List A) → length (insert x xs) ≡ suc (length xs)
  length-insert x [] = refl
  length-insert x (y ∷ ys) = ground (arith, length-insert x ys)

  pub length-sort : (xs : List A) → length (sort xs) ≡ length xs
  length-sort [] = refl
  length-sort (x ∷ xs) = omega (arith, length-insert x (sort xs), length-sort xs)

  insert_first : (x : A) (xs : List A) → All (λ y. le x y ≡ true) xs → insert x xs ≡ x ∷ xs
  insert_first x [] h = refl
  insert_first x (y ∷ ys) h = rw (h.0) refl

  pub sort_sorted : (xs : List A) → IsSorted xs → sort xs ≡ xs
  sort_sorted [] h = refl
  sort_sorted (x ∷ xs) h = rw (sort_sorted xs h.1) (insert_first x xs h.0)

  pub IsSorted-take : (n : ℕ) (xs : List A) → IsSorted xs → IsSorted (take n xs)
  IsSorted-take zero xs h = tt
  IsSorted-take (suc n) [] h = tt
  IsSorted-take (suc n) (x ∷ xs) h = (All-take _ n xs h.0, IsSorted-take n xs h.1)

  module _ {κ} (P : A → Type κ) where
    pub All-insert : (x : A) (xs : List A) → P x → All P xs → All P (insert x xs)
    All-insert x [] p h = (p, tt)
    All-insert x (y ∷ ys) p h = elim (Bool-cases (le x y)) [
      | inl before ↦ rw before (p, h)
      | inr later ↦ rw later (h.0, All-insert x ys p h.1)
    ]

    pub All-sort : (xs : List A) → All P xs → All P (sort xs)
    All-sort [] h = tt
    All-sort (x ∷ xs) h = All-insert x (sort xs) h.0 (All-sort xs h.1)

  module _ (total : (x y : A) → le x y ≡ false → le y x ≡ true)
      (transitive : (x y z : A) → le x y ≡ true → le y z ≡ true → le x z ≡ true) where
    pub insert-IsSorted : (x : A) (xs : List A) → IsSorted xs → IsSorted (insert x xs)
    insert-IsSorted x [] h = (tt, tt)
    insert-IsSorted x (y ∷ ys) h = elim (Bool-cases (le x y)) [
      | inl before ↦ rw before ((before, All-mono _ _ ys (λ z q. transitive x y z before q) h.0), h)
      | inr later ↦
          rw later
            (All-insert (λ z. le y z ≡ true) x ys (total x y later) h.0, insert-IsSorted x ys h.1)
    ]

    pub sort-IsSorted : (xs : List A) → IsSorted (sort xs)
    sort-IsSorted [] = tt
    sort-IsSorted (x ∷ xs) = insert-IsSorted x (sort xs) (sort-IsSorted xs)

module _ {ℓ} {A : Type ℓ} (le stricter : A → A → Bool) where
  pub IsSorted-mono :
      (xs : List A)
      → ((x y : A) → stricter x y ≡ true → le x y ≡ true)
      → IsSorted stricter xs
      → IsSorted le xs
  IsSorted-mono [] f h = tt
  IsSorted-mono (x ∷ xs) f h = (All-mono _ _ xs (f x) h.0, IsSorted-mono xs f h.1)

module _ {ℓ} {A : Type ℓ} (p : A → Bool) (le : A → A → Bool) where
  any-insert : (x : A) (xs : List A) → any p (insert le x xs) ≡ (p x || any p xs)
  any-insert x [] = refl
  any-insert x (y ∷ ys) = ground (arith, any-insert x ys)

  pub any-sort : (xs : List A) → any p (sort le xs) ≡ any p xs
  any-sort [] = refl
  any-sort (x ∷ xs) = ground (arith, any-insert x (sort le xs), any-sort xs)

module _ {ℓ κ} {A : Type ℓ} (le : A → A → Bool) (P : A → Type κ) where
  All-of-insert : (x : A) (xs : List A) → All P (insert le x xs) → P x × All P xs
  All-of-insert x [] h = h
  All-of-insert x (y ∷ ys) h = elim (Bool-cases (le x y)) [
    | inl before ↦ rw before at h
    | inr later ↦
        let k : P y × All P (insert le x ys) = rw later at h in
        let (first, rest) = All-of-insert x ys k.1 in (first, (k.0, rest))
  ]

  -- What holds of all in order holds of all.
  pub All-of-sort : (xs : List A) → All P (sort le xs) → All P xs
  All-of-sort [] h = tt
  All-of-sort (x ∷ xs) h =
      let (first, rest) = All-of-insert x (sort le xs) h in (first, All-of-sort xs rest)
