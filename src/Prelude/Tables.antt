-- ===== src/Prelude/Tables.antt =====
-- A table as the list of its rows in insertion order: `UPDATE ... WHERE ...` and `INSERT`.
use Prim.Native.Nat.{ℕ, suc}
use mathlib.Core.Path.{◌≡◌, refl}
use mathlib.Core.Bool.{Bool, true, false}
use mathlib.Core.Logic.{inl, inr}
use mathlib.Core.List.{List, [], ◌∷◌}
use mathlib.Core.Option
use mathlib.Core.Option.{Option, none, some}
use native.Mathlib.Omega.{arith}
use short_editor.Prelude.Tests.{if◌then◌else◌, Bool-cases}
use short_editor.Prelude.Lists.{length, find, All}

module _ {ℓ} {A : Type ℓ} where
  abbrev pub update_where : (A → Bool) → (A → A) → List A → List A
  update_where p f [] = []
  update_where p f (x ∷ xs) = (if p x then f x else x) ∷ update_where p f xs

  -- `run(...).changes`
  abbrev pub count_where : (A → Bool) → List A → ℕ
  count_where p [] = 0
  count_where p (x ∷ xs) = let rest = count_where p xs in if p x then suc rest else rest

  pub length-update_where :
      (p : A → Bool) (f : A → A) (xs : List A) → length (update_where p f xs) ≡ length xs
  length-update_where p f [] = refl
  length-update_where p f (x ∷ xs) = omega (arith, length-update_where p f xs)

  -- An update that leaves the key alone is seen by a lookup as the update of the row found.
  pub find-update_where :
      (key p : A → Bool) (f : A → A) (xs : List A)
      → ((x : A) → p x ≡ true → key (f x) ≡ key x)
      → find key (update_where p f xs) ≡ Option.map (λ x. if p x then f x else x) (find key xs)
  find-update_where key p f [] same = refl
  find-update_where key p f (x ∷ xs) same =
      ground (arith, find-update_where key p f xs same, same x)

module _ {ℓ κ} {A : Type ℓ} (P : A → Type κ) where
  pub All-update_where :
      (p : A → Bool) (f : A → A) (xs : List A)
      → ((x : A) → p x ≡ true → P x → P (f x))
      → All P xs
      → All P (update_where p f xs)
  All-update_where p f [] keep h = tt
  All-update_where p f (x ∷ xs) keep h = elim (Bool-cases (p x)) [
    | inl hit ↦ rw hit (keep x hit h.0, All-update_where p f xs keep h.1)
    | inr miss ↦ rw miss (h.0, All-update_where p f xs keep h.1)
  ]

  -- What the updated rows have by the update, and the others by missing the condition.
  pub All-update_where_any :
      (p : A → Bool) (f : A → A) (xs : List A)
      → ((x : A) → p x ≡ true → P (f x))
      → ((x : A) → p x ≡ false → P x)
      → All P (update_where p f xs)
  All-update_where_any p f [] hit miss = tt
  All-update_where_any p f (x ∷ xs) hit miss = elim (Bool-cases (p x)) [
    | inl e ↦ rw e (hit x e, All-update_where_any p f xs hit miss)
    | inr e ↦ rw e (miss x e, All-update_where_any p f xs hit miss)
  ]

-- The same from what held of the rows before.
module _ {ℓ κ μ} {A : Type ℓ} (Q : A → Type κ) (P : A → Type μ) where
  pub All-update_where_from :
      (p : A → Bool) (f : A → A) (xs : List A)
      → ((x : A) → p x ≡ true → Q x → P (f x))
      → ((x : A) → p x ≡ false → Q x → P x)
      → All Q xs
      → All P (update_where p f xs)
  All-update_where_from p f [] hit miss h = tt
  All-update_where_from p f (x ∷ xs) hit miss h = elim (Bool-cases (p x)) [
    | inl e ↦ rw e (hit x e h.0, All-update_where_from p f xs hit miss h.1)
    | inr e ↦ rw e (miss x e h.0, All-update_where_from p f xs hit miss h.1)
  ]
