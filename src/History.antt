-- ===== src/History.antt =====
-- src/ui/editor-state.ts, the undo history: `createHistory`, `pushHistory`, `undoHistory`,
-- `redoHistory` and `historyContent`. `clone` is the identity on values, and `equal`, which compares
-- JSON texts, is a decision of equality.
pub mod Laws
use short_editor.Prelude.{
  ℕ, ◌+◌, ◌-◌, Bool, true, false, ltb, if◌then◌else◌, ◌&&◌, List, [], ◌∷◌, ◌++◌, Option, none, some,
  length, get_elem?, take, min,
}

pub record History {ℓ} (A : Type ℓ) : Type ℓ where
  pub entries : List A
  pub index : ℕ

module _ {ℓ} {A : Type ℓ} where
  unfoldable pub create_history : A → History A
  create_history content = record { entries = content ∷ []; index = 0 }

  -- `entries[entries.length - 1] = content`
  unfoldable pub set_last : List A → A → List A
  set_last [] content = []
  set_last (x ∷ []) content = content ∷ []
  set_last (x ∷ y ∷ ys) content = x ∷ set_last (y ∷ ys) content

  -- `equal(history.entries[history.index], content)`; a missing entry equals no content.
  abbrev pub is_current : Discrete A → History A → A → Bool
  is_current dec h content = elim (get_elem? h.entries h.index) [
    | none ↦ false
    | some x ↦ elim (dec x content) [ yes same ↦ true | no other ↦ false ]
  ]

  abbrev pub at_end : List A → History A
  at_end entries = record { entries = entries; index = length entries - 1 }

  unfoldable pub push_history : Discrete A → History A → A → Bool → History A
  push_history dec h content coalesce =
      if is_current dec h content
      then h
      else (let entries = take (h.index + 1) h.entries in
          if coalesce && ltb 1 (length entries)
          then at_end (set_last entries content)
          else at_end (entries ++ content ∷ []))

  -- `Math.max(0, index - 1)`
  unfoldable pub undo_history : History A → History A
  undo_history h = record h { index = h.index - 1 }

  unfoldable pub redo_history : History A → History A
  redo_history h = record h { index = min (length h.entries - 1) (h.index + 1) }

  -- `none` is `undefined`.
  unfoldable pub history_content : History A → Option A
  history_content h = get_elem? h.entries h.index
