-- ===== src/Candidates/Comparing.antt =====
-- The comparators of `Array.prototype.sort` that src/core/candidates.ts chains with `||`: each
-- step is asked only where those before it tie.
use Prim.Native.Nat.{compare, Ordering}
use short_editor.Prelude.{
  ℕ, ◌≡◌, refl, sym, ◌∙◌, List, [], ◌∷◌, Bool, true, false, arith, ◌⊎◌, inl, inr, ap,
}

-- `a || b` on the numbers a comparator returns.
abbrev pub then_by : Ordering → Ordering → Ordering
then_by Ordering.lt b = Ordering.lt
then_by Ordering.eq b = b
then_by Ordering.gt b = Ordering.gt

abbrev pub flip : Ordering → Ordering
flip Ordering.lt = Ordering.gt
flip Ordering.eq = Ordering.eq
flip Ordering.gt = Ordering.lt

-- `compare(a, b) <= 0`
abbrev pub at_most : Ordering → Bool
at_most Ordering.gt = false
at_most Ordering.lt = true
at_most Ordering.eq = true

-- The laws a comparator needs for its sort to be a sort.
pub record IsComparator {ℓ} {A : Type ℓ} (c : A → A → Ordering) : Type ℓ where
  pub flips : (x y : A) → c y x ≡ flip (c x y)
  pub strict : (x y z : A) → c x y ≡ Ordering.lt → c y z ≡ Ordering.lt → c x z ≡ Ordering.lt
  pub ties : (x y z : A) → c x y ≡ Ordering.eq → c x z ≡ c y z

flips_nat : (a b : ℕ) → compare b a ≡ flip (compare a b)
flips_nat a b = ground arith

strict_nat :
    (a b c : ℕ) → compare a b ≡ Ordering.lt → compare b c ≡ Ordering.lt → compare a c ≡ Ordering.lt
strict_nat a b c h k = ground arith

ties_nat : (a b c : ℕ) → compare a b ≡ Ordering.eq → compare a c ≡ compare b c
ties_nat a b c h = ground arith

-- `a < b ? -1 : a > b ? 1 : 0` on strings, by their code units.
abbrev pub lexical_compare : List ℕ → List ℕ → Ordering
lexical_compare [] [] = Ordering.eq
lexical_compare [] (b ∷ r) = Ordering.lt
lexical_compare (a ∷ l) [] = Ordering.gt
lexical_compare (a ∷ l) (b ∷ r) = then_by (compare a b) (lexical_compare l r)

flip-then_by : (a b : Ordering) → then_by (flip a) (flip b) ≡ flip (then_by a b)
flip-then_by Ordering.lt b = refl
flip-then_by Ordering.eq b = refl
flip-then_by Ordering.gt b = refl

at_most-flip : (a : Ordering) → at_most a ≡ false → at_most (flip a) ≡ true
at_most-flip Ordering.lt h = cc
at_most-flip Ordering.eq h = cc
at_most-flip Ordering.gt h = refl

at_most_cases : (a : Ordering) → at_most a ≡ true → (a ≡ Ordering.lt) ⊎ (a ≡ Ordering.eq)
at_most_cases Ordering.lt h = inl refl
at_most_cases Ordering.eq h = inr refl
at_most_cases Ordering.gt h = cc

-- A chain is before where its first step is, or ties there and its second step is before.
then_by_before :
    (a b : Ordering)
    → then_by a b ≡ Ordering.lt
    → (a ≡ Ordering.lt) ⊎ ((a ≡ Ordering.eq) × (b ≡ Ordering.lt))
then_by_before Ordering.lt b h = inl refl
then_by_before Ordering.eq b h = inr (refl, h)
then_by_before Ordering.gt b h = cc

then_by_tied : (a b : Ordering) → then_by a b ≡ Ordering.eq → (a ≡ Ordering.eq) × (b ≡ Ordering.eq)
then_by_tied Ordering.lt b h = cc
then_by_tied Ordering.eq b h = (refl, h)
then_by_tied Ordering.gt b h = cc

flips_text : (xs ys : List ℕ) → lexical_compare ys xs ≡ flip (lexical_compare xs ys)
flips_text [] [] = refl
flips_text [] (y ∷ ys) = refl
flips_text (x ∷ xs) [] = refl
flips_text (x ∷ xs) (y ∷ ys) =
    rw (flips_nat x y) (rw (flips_text xs ys) (flip-then_by (compare x y) (lexical_compare xs ys)))

module _ {ℓ} {A : Type ℓ} {c : A → A → Ordering} (laws : IsComparator c) where
  -- A tie on the right side of a comparison does not change it either.
  ties_right : (x y z : A) → c y z ≡ Ordering.eq → c x y ≡ c x z
  ties_right x y z tie = laws.flips y x ∙ ap flip (laws.ties y z x tie) ∙ sym (laws.flips z x)

  strict_chain :
      (x y z : A) {p q r : Ordering}
      → (p ≡ Ordering.lt → q ≡ Ordering.lt → r ≡ Ordering.lt)
      → then_by (c x y) p ≡ Ordering.lt
      → then_by (c y z) q ≡ Ordering.lt
      → then_by (c x z) r ≡ Ordering.lt
  strict_chain x y z {p} {q} {r} second h k = elim (then_by_before (c x y) p h) [
    | inr (tie, before) ↦ rw (laws.ties x y z tie) (elim (then_by_before (c y z) q k) [
      | inl after ↦ rw after refl
      | inr (tie_after, after) ↦ rw tie_after (second before after)
    ])
    | inl before ↦ elim (then_by_before (c y z) q k) [
      | inl after ↦ rw (laws.strict x y z before after) refl
      | inr (tie_after, after) ↦ rw (sym (ties_right x y z tie_after)) (rw before refl)
    ]
  ]

  pub at_most_total : (x y : A) → at_most (c x y) ≡ false → at_most (c y x) ≡ true
  at_most_total x y h = rw (laws.flips x y) (at_most-flip (c x y) h)

  pub at_most_trans :
      (x y z : A) → at_most (c x y) ≡ true → at_most (c y z) ≡ true → at_most (c x z) ≡ true
  at_most_trans x y z h k = elim (at_most_cases (c x y) h) [
    | inr tie ↦ rw (laws.ties x y z tie) k
    | inl before ↦ elim (at_most_cases (c y z) k) [
      | inl after ↦ rw (laws.strict x y z before after) refl
      | inr tie ↦ rw (sym (ties_right x y z tie)) h
    ]
  ]

  -- The same comparison with its arguments exchanged, which orders the other way.
  pub reversed_laws : IsComparator (λ x y. c y x)
  reversed_laws = record {
    flips = λ x y. laws.flips y x;
    strict = λ x y z h k. laws.strict z y x k h;
    ties = λ x y z h. ties_right z x y (laws.flips y x ∙ ap flip h);
  }

  -- A comparison by a key.
  pub by_key_laws {κ} : {B : Type κ} (key : B → A) → IsComparator (λ x y. c (key x) (key y))
  by_key_laws key = record {
    flips = λ x y. laws.flips (key x) (key y);
    strict = λ x y z. laws.strict (key x) (key y) (key z);
    ties = λ x y z. laws.ties (key x) (key y) (key z);
  }

module _ {ℓ} {A : Type ℓ} {c d : A → A → Ordering} (first : IsComparator c)
    (second : IsComparator d) where
  -- Comparators that are chained are a comparator.
  pub then_by_laws : IsComparator (λ x y. then_by (c x y) (d x y))
  then_by_laws = record {
    flips = λ x y. rw (first.flips x y) (rw (second.flips x y) (flip-then_by (c x y) (d x y)));
    strict = λ x y z. strict_chain first x y z (second.strict x y z);
    ties = λ x y z h.
        let (tie, also) = then_by_tied (c x y) (d x y) h in
        rw (first.ties x y z tie) (rw (second.ties x y z also) refl);
  }

pub nat_laws : IsComparator compare
nat_laws = record { flips = flips_nat; strict = strict_nat; ties = ties_nat }

ties_text :
    (xs ys zs : List ℕ)
    → lexical_compare xs ys ≡ Ordering.eq
    → lexical_compare xs zs ≡ lexical_compare ys zs
ties_text [] [] zs h = refl
ties_text [] (y ∷ ys) zs h = cc
ties_text (x ∷ xs) [] zs h = cc
ties_text (x ∷ xs) (y ∷ ys) [] h = refl
ties_text (x ∷ xs) (y ∷ ys) (z ∷ zs) h =
    let (tie, also) = then_by_tied (compare x y) (lexical_compare xs ys) h in
    rw (ties_nat x y z tie) (rw (ties_text xs ys zs also) refl)

strict_text :
    (xs ys zs : List ℕ)
    → lexical_compare xs ys ≡ Ordering.lt
    → lexical_compare ys zs ≡ Ordering.lt
    → lexical_compare xs zs ≡ Ordering.lt
strict_text [] [] [] h k = cc
strict_text [] (y ∷ ys) [] h k = cc
strict_text [] ys (z ∷ zs) h k = refl
strict_text (x ∷ xs) [] zs h k = cc
strict_text (x ∷ xs) (y ∷ ys) [] h k = cc
strict_text (x ∷ xs) (y ∷ ys) (z ∷ zs) h k = strict_chain nat_laws x y z (strict_text xs ys zs) h k

pub text_laws : IsComparator lexical_compare
text_laws = record { flips = flips_text; strict = strict_text; ties = ties_text }
