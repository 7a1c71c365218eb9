-- ===== src/Jobs/Rows.antt =====
-- src/core/jobs.ts: rows are told apart by their primary key, and the row that `oldest` picks.
use short_editor.Prelude.{
  ℕ, ◌≤◌, ◌≡◌, refl, sym, ◌≢◌, ◌⊎◌, inl, inr, ◌++◌, Bool, true, false, List, [], ◌∷◌, none, some,
  arith, Bool-cases, Option-cases, All, All-mono, All-append, All-update_where, find, update_where,
  subst, ◌∙◌, ==_self,
}
use short_editor.Store.{Job}
use short_editor.Jobs.{oldest, has_id}

-- No row has this key.
abbrev pub IsFresh : ℕ → List Job → Type 0
IsFresh id = All (λ j. j.id ≢ id)

-- `id TEXT PRIMARY KEY`
abbrev pub HasDistinctIds : List Job → Type 0
HasDistinctIds [] = Unit
HasDistinctIds (j ∷ js) = IsFresh j.id js × HasDistinctIds js

-- A row with the key of `j` is `j`.
abbrev pub IsOnly : Job → List Job → Type 0
IsOnly j = All (λ k. k.id ≡ j.id → k ≡ j)

module _ (p : Job → Bool) where
  oldest-cons :
      (j : Job) (js : List Job) (k : Job)
      → oldest p (j ∷ js) ≡ some k
      → ((j ≡ k) × (p j ≡ true)) ⊎ (oldest p js ≡ some k)
  unfolding oldest
  oldest-cons j js k e = ground arith

  pub oldest-holds : (js : List Job) (k : Job) → oldest p js ≡ some k → p k ≡ true
  unfolding oldest
  oldest-holds [] k e = cc
  oldest-holds (j ∷ js) k e = ground (arith, oldest-holds js k, oldest-cons j js k e)

  pub oldest-none : (js : List Job) → oldest p js ≡ none → All (λ j. p j ≡ false) js
  unfolding oldest
  oldest-none [] e = tt
  oldest-none (j ∷ js) e = (ground arith, oldest-none js (ground arith))

  -- No row that meets the condition was created before the one that is picked.
  oldest-least :
      (js : List Job) (k : Job)
      → oldest p js ≡ some k
      → All (λ j. p j ≡ true → k.created_at ≤ j.created_at) js
  unfolding oldest
  oldest-least [] k e = cc
  oldest-least (j ∷ js) k e = elim (Option-cases (oldest p js)) [
    | inl no_tail ↦ (ground arith, All-mono _ _ js (λ x f. (λ t. cc)) (oldest-none js no_tail))
    | inr (m, tail) ↦ (
      ground (arith, oldest-holds js m tail),
      All-mono _ _ js (λ x f. (λ t. ground (arith, f t))) (oldest-least js m tail),
    )
  ]

  pub All-oldest {ℓ} :
      (P : Job → Type ℓ) (js : List Job) (k : Job) → All P js → oldest p js ≡ some k → P k
  unfolding oldest
  All-oldest P [] k h e = cc
  All-oldest P (j ∷ js) k h e = elim (oldest-cons j js k e) [
    | inl (same, holds) ↦ subst P same h.0
    | inr tail ↦ All-oldest P js k h.1 tail
  ]

  pub oldest-IsOnly :
      (js : List Job) (k : Job) → HasDistinctIds js → oldest p js ≡ some k → IsOnly k js
  unfolding oldest
  oldest-IsOnly [] k h e = cc
  oldest-IsOnly (j ∷ js) k h e = elim (oldest-cons j js k e) [
    | inl (same, holds) ↦
        subst (λ x. IsOnly x (j ∷ js)) same
          (λ _. refl, All-mono _ _ js (λ x f. (λ t. absurd (f t))) h.0)
    | inr tail ↦ (
      λ t. absurd (All-oldest (λ x. x.id ≢ j.id) js k h.0 tail (sym t)),
      oldest-IsOnly js k h.1 tail,
    )
  ]

  -- `list().find(by id)` gives back the row picked.
  pub oldest-find :
      (js : List Job) (k : Job)
      → HasDistinctIds js
      → oldest p js ≡ some k
      → find (has_id k.id) js ≡ some k
  unfolding oldest
  oldest-find [] k h e = cc
  oldest-find (j ∷ js) k h e = elim (oldest-cons j js k e) [
    | inl (same, holds) ↦ rw same (rw (==_self k.id))
    | inr tail ↦
        let later : j.id ≢ k.id = (λ t. All-oldest (λ x. x.id ≢ j.id) js k h.0 tail (sym t)) in
        ground (arith, oldest-find js k h.1 tail)
  ]

module _ (p : Job → Bool) (f : Job → Job) (same : (j : Job) → (f j).id ≡ j.id) where
  update_where-IsFresh : (id : ℕ) (js : List Job) → IsFresh id js → IsFresh id (update_where p f js)
  update_where-IsFresh id js h =
      All-update_where (λ j. j.id ≢ id) p f js (λ j hit fresh. (λ e. fresh (sym (same j) ∙ e))) h

  pub update_where-HasDistinctIds :
      (js : List Job) → HasDistinctIds js → HasDistinctIds (update_where p f js)
  update_where-HasDistinctIds [] h = tt
  update_where-HasDistinctIds (j ∷ js) h = elim (Bool-cases (p j)) [
    | inl hit ↦
        rw (hit, same j) (update_where-IsFresh j.id js h.0, update_where-HasDistinctIds js h.1)
    | inr miss ↦ rw miss (update_where-IsFresh j.id js h.0, update_where-HasDistinctIds js h.1)
  ]

-- A new row keeps the keys apart if its id is new.
pub append-HasDistinctIds :
    (js : List Job) (j : Job) → IsFresh j.id js → HasDistinctIds js → HasDistinctIds (js ++ j ∷ [])
append-HasDistinctIds [] j fresh h = (tt, tt)
append-HasDistinctIds (k ∷ js) j fresh h = (
  All-append (λ x. x.id ≢ k.id) js (j ∷ []) h.0 (λ e. fresh.0 (sym e), tt),
  append-HasDistinctIds js j fresh.1 h.1,
)

-- A later row does not hide an earlier one.
pub find-append :
    (p : Job → Bool) (js ks : List Job) (j : Job) → find p js ≡ some j → find p (js ++ ks) ≡ some j
find-append p [] ks j e = cc
find-append p (k ∷ js) ks j e = ground (arith, find-append p js ks j)
