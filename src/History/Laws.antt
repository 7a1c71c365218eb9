-- ===== src/History/Laws.antt =====
-- src/ui/editor-state.ts: the undo history.
use short_editor.Prelude.{
  ℕ, zero, suc, ◌+◌, ◌-◌, ◌≤◌, ◌<◌, ◌≡◌, refl, ap, ◌∙◌, inl, inr, Bool, true, false, ltb,
  if◌then◌else◌, ◌&&◌, List, [], ◌∷◌, ◌++◌, some, length, length-append, get_elem?, take, arith,
  Bool-cases,
}
use short_editor.History.{
  History, set_last, is_current, at_end, push_history, undo_history, redo_history, history_content,
}

-- There is a current entry.
pub record IsValid {ℓ} {A : Type ℓ} (h : History A) : Type 0 where
  pub index_in_range : h.index < length h.entries

module _ {ℓ} {A : Type ℓ} where
  length-take : (n : ℕ) (xs : List A) → n ≤ length xs → length (take n xs) ≡ n
  length-take zero xs h = refl
  length-take (suc n) [] h = absurd (omega arith)
  length-take (suc n) (x ∷ xs) h = omega (arith, length-take n xs (omega arith))

  length-set_last : (xs : List A) (a : A) → length (set_last xs a) ≡ length xs
  unfolding set_last
  length-set_last [] a = refl
  length-set_last (x ∷ []) a = refl
  length-set_last (x ∷ y ∷ ys) a = omega (arith, length-set_last (y ∷ ys) a)

  get-append_last : (xs : List A) (a : A) → get_elem? (xs ++ a ∷ []) (length xs) ≡ some a
  get-append_last [] a = refl
  get-append_last (x ∷ xs) a = get-append_last xs a

  get-append_left :
      (xs ys : List A) (i : ℕ) → i < length xs → get_elem? (xs ++ ys) i ≡ get_elem? xs i
  get-append_left [] ys i h = elim h [ ]
  get-append_left (x ∷ xs) ys zero h = refl
  get-append_left (x ∷ xs) ys (suc i) h = get-append_left xs ys i (omega arith)

  get-take : (n : ℕ) (xs : List A) (i : ℕ) → i < n → get_elem? (take n xs) i ≡ get_elem? xs i
  get-take zero xs i h = elim h [ ]
  get-take (suc n) [] i h = refl
  get-take (suc n) (x ∷ xs) zero h = refl
  get-take (suc n) (x ∷ xs) (suc i) h = get-take n xs i (omega arith)

  get-set_last :
      (xs : List A) (a : A) (i : ℕ) → i + 1 ≡ length xs → get_elem? (set_last xs a) i ≡ some a
  unfolding set_last
  get-set_last [] a i h = absurd (omega arith)
  get-set_last (x ∷ []) a zero h = refl
  get-set_last (x ∷ []) a (suc i) h = absurd (omega arith)
  get-set_last (x ∷ y ∷ ys) a zero h = absurd (omega arith)
  get-set_last (x ∷ y ∷ ys) a (suc i) h = get-set_last (y ∷ ys) a i (omega arith)

  get-set_last_other :
      (xs : List A) (a : A) (i : ℕ)
      → i + 1 < length xs
      → get_elem? (set_last xs a) i ≡ get_elem? xs i
  unfolding set_last
  get-set_last_other [] a i h = elim h [ ]
  get-set_last_other (x ∷ []) a i h = absurd (omega arith)
  get-set_last_other (x ∷ y ∷ ys) a zero h = refl
  get-set_last_other (x ∷ y ∷ ys) a (suc i) h = get-set_last_other (y ∷ ys) a i (omega arith)

  get_in_range : (xs : List A) (i : ℕ) → i < length xs → (a : A) × (get_elem? xs i ≡ some a)
  get_in_range [] i h = elim h [ ]
  get_in_range (x ∷ xs) zero h = (x, refl)
  get_in_range (x ∷ xs) (suc i) h = get_in_range xs i (omega arith)

-- A history whose current entry is `a`.
abbrev pub Shows {ℓ} : {A : Type ℓ} → History A → A → Type ℓ
Shows h a = IsValid h × (history_content h ≡ some a)

module _ {ℓ} {A : Type ℓ} where
  at_end-append-Shows : (xs : List A) (a : A) → Shows (at_end (xs ++ a ∷ [])) a
  unfolding history_content
  at_end-append-Shows xs a =
      let longer = length-append xs (a ∷ []) in
      let last : length (xs ++ a ∷ []) - 1 ≡ length xs = omega (arith, longer) in
      (record { index_in_range = omega (arith, longer) }, rw last (get-append_last xs a))

  at_end-set_last-Shows : (xs : List A) (a : A) → 0 < length xs → Shows (at_end (set_last xs a)) a
  unfolding history_content
  at_end-set_last-Shows xs a h =
      let same = length-set_last xs a in
      (
        record { index_in_range = omega (arith, same) },
        rw same (get-set_last xs a (length xs - 1) (omega arith)),
      )

  same_entries :
      (entries : List A) (i j : ℕ)
      → i ≡ j
      → ◌≡◌ {A = History A}
          (record { entries = entries; index = i })
          (record { entries = entries; index = j })
  same_entries entries i j e = ap (λ k. record { entries = entries; index = k }) e

module _ {ℓ} {A : Type ℓ} (dec : Discrete A) where
  current-content : (h : History A) (a : A) → is_current dec h a ≡ true → history_content h ≡ some a
  unfolding history_content
  current-content h a e = ground arith

  current-get :
      (h : History A) (a : A) → history_content h ≡ some a → get_elem? h.entries h.index ≡ some a
  unfolding history_content
  current-get h a e = e

  -- Pushed content becomes the current entry, whether it is new, coalesced or equal to the old one.
  push-Shows :
      (h : History A) (a : A) (coalesce : Bool)
      → IsValid h
      → Shows (push_history dec h a coalesce) a
  unfolding push_history
  push-Shows h a coalesce v = elim (Bool-cases (is_current dec h a)) [
    | inl same ↦ rw same (v, current-content h a same)
    | inr changed ↦ rw changed (fresh (coalesce && ltb 1 (length (take (h.index + 1) h.entries))))
  ]
    where
      fresh :
          (b : Bool)
          → Shows
              (if b
                then at_end (set_last (take (h.index + 1) h.entries) a)
                else at_end (take (h.index + 1) h.entries ++ a ∷ []))
              a
      fresh true =
          at_end-set_last-Shows (take (h.index + 1) h.entries) a
            (omega (arith, length-take (h.index + 1) h.entries, v.index_in_range))
      fresh false = at_end-append-Shows (take (h.index + 1) h.entries) a

  -- Undoing a push of new content shows the content before it, redoing it shows the push again, and
  -- nothing is left to redo.
  pub undo-push :
      (h : History A) (a : A)
      → IsValid h
      → is_current dec h a ≡ false
      → let pushed = push_history dec h a false in
        (history_content (undo_history pushed) ≡ history_content h)
        × (redo_history (undo_history pushed) ≡ pushed)
        × (redo_history pushed ≡ pushed)
  unfolding push_history undo_history redo_history history_content
  undo-push h a v changed =
      let kept = take (h.index + 1) h.entries in
      let size : length kept ≡ h.index + 1 =
        length-take (h.index + 1) h.entries (omega (arith, v.index_in_range)) in
      let longer = length-append kept (a ∷ []) in
      let back : length (kept ++ a ∷ []) - 1 - 1 ≡ h.index = omega (arith, longer, size) in
      rw changed (
        rw back (
            get-append_left kept (a ∷ []) h.index (omega (arith, size))
            ∙ get-take (h.index + 1) h.entries h.index (omega arith)),
        same_entries (kept ++ a ∷ []) _ _ (omega (arith, longer, size)),
        same_entries (kept ++ a ∷ []) _ _ (omega (arith, longer, size)),
      )

  -- Pushing never touches the entries before the current one.
  push-past :
      (h : History A) (a : A) (coalesce : Bool) (i : ℕ)
      → IsValid h
      → i < h.index
      → get_elem? (push_history dec h a coalesce).entries i ≡ get_elem? h.entries i
  unfolding push_history
  push-past h a coalesce i v before = elim (Bool-cases (is_current dec h a)) [
    | inl same ↦ rw same
    | inr changed ↦ rw changed (kept_entry (coalesce && ltb 1 (length kept)))
  ]
    where
      kept : List A
      kept = take (h.index + 1) h.entries

      size : length kept ≡ h.index + 1
      size = length-take (h.index + 1) h.entries (omega (arith, v.index_in_range))

      kept_entry :
          (b : Bool)
          → get_elem? (if b then at_end (set_last kept a) else at_end (kept ++ a ∷ [])).entries i
            ≡ get_elem? h.entries i
      kept_entry true =
          get-set_last_other kept a i (omega (arith, size))
          ∙ get-take (h.index + 1) h.entries i (omega arith)
      kept_entry false =
          get-append_left kept (a ∷ []) i (omega (arith, size))
          ∙ get-take (h.index + 1) h.entries i (omega arith)

module _ {ℓ} {A : Type ℓ} where
  -- Undo and redo are inverse where there is something to undo or to redo, and keep a current entry.
  undo_redo :
      (h : History A)
      → IsValid h
      → (0 < h.index → redo_history (undo_history h) ≡ h)
        × (h.index + 1 < length h.entries → undo_history (redo_history h) ≡ h)
        × IsValid (undo_history h)
        × IsValid (redo_history h)
  unfolding undo_history redo_history
  undo_redo h v =
      let within = v.index_in_range in
      (
        λ something. same_entries h.entries _ _ (omega arith),
        λ something. same_entries h.entries _ _ (omega arith),
        record { index_in_range = omega arith },
        record { index_in_range = omega arith },
      )
