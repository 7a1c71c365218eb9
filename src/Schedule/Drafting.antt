-- ===== src/Schedule/Drafting.antt =====
-- src/core/scheduler.ts, `draftSchedule`: the entries of a draft.
use short_editor.Prelude.{
  ℕ, ◌==◌, ◌≡◌, ◌≢◌, refl, sym, ◌∙◌, ap, subst, Bool, true, false, not, ◌&&◌, ◌||◌, List, [], ◌∷◌,
  ◌++◌, some, arith, find, any, all, All, All-mono, All-both, All-append, find-holds, ==_self, map,
  sort,
}
use short_editor.Store.{
  Result, ok, found_or, >>=-eq-ok, >>-eq-ok, found_or-eq-ok, ok-injective, invalid_state,
  validation_error,
}
use short_editor.Schedule.{
  Slot, Rules, SchedulableShort, DraftEntry, OccupiedEntry, Draft, includes_number, is_apart,
  keeps_spacing, is_free, entry_at, add_entry, place, occupied_times, no_draft, legal_slots,
  draft_schedule, spacing_ms, horizon_days, goes_first,
}

-- Two entries do not share an instant, and those of one episode keep their distance.
abbrev pub KeepApart : ℕ → DraftEntry → DraftEntry → Type 0
KeepApart spacing x y =
    (x.publish_at ≢ y.publish_at)
    × (x.episode_id ≡ y.episode_id → is_apart spacing y.publish_at x.publish_at ≡ true)

abbrev pub AreApart : ℕ → List DraftEntry → Type 0
AreApart spacing [] = Unit
AreApart spacing (x ∷ xs) = All (KeepApart spacing x) xs × AreApart spacing xs

snoc-AreApart :
    (spacing : ℕ) (xs : List DraftEntry) (y : DraftEntry)
    → All (λ x. KeepApart spacing x y) xs
    → AreApart spacing xs
    → AreApart spacing (xs ++ y ∷ [])
snoc-AreApart spacing [] y h k = (tt, tt)
snoc-AreApart spacing (x ∷ xs) y h k =
    (All-append (KeepApart spacing x) xs (y ∷ []) k.0 (h.0, tt), snoc-AreApart spacing xs y h.1 k.1)

-- An entry on its own: at a legal slot that was not occupied, at a distance from the entries of its
-- episode that are in the schedule already.
pub record IsPlaced (spacing : ℕ) (slots : List Slot) (occupied : List ℕ) (before : List (ℕ × ℕ))
    (e : DraftEntry) : Type 0 where
  pub legal : any (λ (s : Slot). s.instant == e.publish_at) slots ≡ true
  pub unoccupied : includes_number occupied e.publish_at ≡ false
  pub spaced : keeps_spacing spacing e.episode_id e.publish_at before ≡ true

module _ {ℓ} {A : Type ℓ} (p : A → Bool) where
  all-append : (xs ys : List A) → all p (xs ++ ys) ≡ true → (all p xs ≡ true) × (all p ys ≡ true)
  all-append [] ys h = (refl, h)
  all-append (x ∷ xs) ys h = ground (arith, all-append xs ys)

  any_none : (xs : List A) → any p xs ≡ false → All (λ x. p x ≡ false) xs
  any_none [] h = tt
  any_none (x ∷ xs) h = (ground arith, any_none xs (ground arith))

module _ {ℓ} {A : Type ℓ} (p q : A → Bool) where
  find-any : (xs : List A) (x : A) → find p xs ≡ some x → q x ≡ true → any q xs ≡ true
  find-any [] x e t = cc
  find-any (y ∷ ys) x e t = ground (arith, find-any ys x, t)

abbrev times_of : List DraftEntry → List (ℕ × ℕ)
times_of [] = []
times_of (e ∷ es) = (e.episode_id, e.publish_at) ∷ times_of es

-- The times that the loop has noted are spaced from a new one only if each entry is.
spaced_entries :
    (spacing episode instant : ℕ) (entries : List DraftEntry)
    → keeps_spacing spacing episode instant (times_of entries) ≡ true
    → All (λ e. e.episode_id ≡ episode → is_apart spacing instant e.publish_at ≡ true) entries
spaced_entries spacing episode instant [] h = tt
spaced_entries spacing episode instant (e ∷ es) h =
    ((λ own. ground (arith, own)), spaced_entries spacing episode instant es (ground arith))

times_of-snoc :
    (es : List DraftEntry) (e : DraftEntry)
    → times_of (es ++ e ∷ []) ≡ times_of es ++ (e.episode_id, e.publish_at) ∷ []
times_of-snoc [] e = refl
times_of-snoc (x ∷ xs) e = ap (λ t. (x.episode_id, x.publish_at) ∷ t) (times_of-snoc xs e)

-- The state of the loop.
pub record IsDraft (spacing : ℕ) (slots : List Slot) (occupied : List ℕ) (before : List (ℕ × ℕ))
    (d : Draft) : Type 0 where
  pub apart : AreApart spacing d.entries
  pub placed : All (IsPlaced spacing slots occupied before) d.entries
  pub noted : d.times ≡ before ++ times_of d.entries

append_assoc {ℓ} : {A : Type ℓ} (xs ys zs : List A) → (xs ++ ys) ++ zs ≡ xs ++ (ys ++ zs)
append_assoc [] ys zs = refl
append_assoc (x ∷ xs) ys zs = ap (λ t. x ∷ t) (append_assoc xs ys zs)

append_nil {ℓ} : {A : Type ℓ} (xs : List A) → xs ++ [] ≡ xs
append_nil [] = refl
append_nil (x ∷ xs) = ap (λ t. x ∷ t) (append_nil xs)

-- Which Shorts the entries are of, in order.
abbrev pub shorts_of : List DraftEntry → List ℕ
shorts_of = map (λ e. e.short_id)

shorts_of-snoc :
    (es : List DraftEntry) (e : DraftEntry)
    → shorts_of (es ++ e ∷ []) ≡ shorts_of es ++ e.short_id ∷ []
shorts_of-snoc [] e = refl
shorts_of-snoc (x ∷ xs) e = ap (λ t. x.short_id ∷ t) (shorts_of-snoc xs e)

three_tests : (a b c : Bool) → not (a || b) && c ≡ true → (a ≡ false) × (b ≡ false) × (c ≡ true)
three_tests false false c h = (refl, refl, h)
three_tests false true c h = cc
three_tests true b c h = cc

module _ (spacing : ℕ) (slots : List Slot) (occupied : List ℕ) (before : List (ℕ × ℕ)) where
  add_entry-IsDraft :
      (d : Draft) (item : SchedulableShort) (slot : Slot)
      → IsDraft spacing slots occupied before d
      → find (is_free spacing occupied d.entries d.times item) slots ≡ some slot
      → IsDraft spacing slots occupied before (add_entry d item slot)
  add_entry-IsDraft d item slot v found =
      let e = entry_at item slot.instant in
      let (unoccupied, unused, kept) =
        three_tests (includes_number occupied slot.instant)
          (any (λ (x : DraftEntry). x.publish_at == slot.instant) d.entries)
          (keeps_spacing spacing item.episode_id slot.instant d.times)
          (find-holds (is_free spacing occupied d.entries d.times item) slots slot found) in
      let (old, new) =
        all-append _ before (times_of d.entries) (
          subst (λ ts. keeps_spacing spacing item.episode_id slot.instant ts ≡ true) v.noted
            kept) in
      record {
        apart =
            snoc-AreApart spacing d.entries e
              (All-mono _ _ d.entries (λ x k. (λ t. cc (rw (t, ==_self slot.instant) at k.0), k.1))
                (All-both _ _ d.entries
                  (any_none (λ (x : DraftEntry). x.publish_at == slot.instant) d.entries unused)
                  (spaced_entries spacing item.episode_id slot.instant d.entries new)))
              v.apart;
        placed = All-append (IsPlaced spacing slots occupied before) d.entries (e ∷ []) v.placed (
          record {
            legal = find-any _ _ slots slot found (==_self slot.instant);
            unoccupied = unoccupied;
            spaced = old;
          },
          tt,
        );
        noted =
            ap (λ ts. ts ++ (item.episode_id, slot.instant) ∷ []) v.noted
            ∙ append_assoc before (times_of d.entries) ((item.episode_id, slot.instant) ∷ [])
            ∙ ap (λ ts. before ++ ts) (sym (times_of-snoc d.entries e));
      }

  place-IsDraft :
      (items : List SchedulableShort) (d result : Draft)
      → IsDraft spacing slots occupied before d
      → place spacing slots occupied items d ≡ ok result
      → IsDraft spacing slots occupied before result
  unfolding place
  place-IsDraft [] d result v h = subst (IsDraft spacing slots occupied before) (ok-injective h) v
  place-IsDraft (item ∷ items) d result v h =
      let (slot, found, h₁) =
        >>=-eq-ok
          (found_or (find (is_free spacing occupied d.entries d.times item) slots) invalid_state)
          (λ s. place spacing slots occupied items (add_entry d item s)) h in
      place-IsDraft items (add_entry d item slot) result
        (add_entry-IsDraft d item slot v (
          found_or-eq-ok (find (is_free spacing occupied d.entries d.times item) slots)
            invalid_state found))
        h₁

  place-shorts :
      (items : List SchedulableShort) (d result : Draft)
      → place spacing slots occupied items d ≡ ok result
      → shorts_of result.entries ≡ shorts_of d.entries ++ map (λ i. i.short_id) items
  unfolding place
  place-shorts [] d result h =
      ap (λ x. shorts_of x.entries) (sym (ok-injective h)) ∙ sym (append_nil (shorts_of d.entries))
  place-shorts (item ∷ items) d result h =
      let (slot, found, h₁) =
        >>=-eq-ok
          (found_or (find (is_free spacing occupied d.entries d.times item) slots) invalid_state)
          (λ s. place spacing slots occupied items (add_entry d item s)) h in
      place-shorts items (add_entry d item slot) result h₁
      ∙ ap (λ t. t ++ map (λ i. i.short_id) items)
          (shorts_of-snoc d.entries (entry_at item slot.instant))
      ∙ append_assoc (shorts_of d.entries) (item.short_id ∷ []) (map (λ i. i.short_id) items)

-- A draft has one entry for each Short, by priority and then id. Each entry stands at a legal slot of
-- the rules that was not occupied; no two share an instant; and two entries of one episode, or an
-- entry and one of its episode that is in the schedule already, keep the spacing of the rules.
pub draft_schedule-IsDraft :
    (resolve : ℕ → ℕ → Result Slot) (known : Bool) (shorts : List SchedulableShort) (rules : Rules)
    (occupied : List ℕ) (occupied_entries : List OccupiedEntry) (d : Draft)
    → draft_schedule resolve known shorts rules occupied occupied_entries ≡ ok d
    → (slots : List Slot) × (legal_slots resolve rules horizon_days ≡ ok slots)
      × IsDraft (spacing_ms rules) slots occupied (occupied_times occupied_entries) d
      × (shorts_of d.entries ≡ map (λ i. i.short_id) (sort goes_first shorts))
unfolding draft_schedule
draft_schedule-IsDraft resolve known shorts rules occupied occupied_entries d h =
    let (valid, h₁) = >>-eq-ok known validation_error _ h in
    let (slots, legal, h₂) =
      >>=-eq-ok (legal_slots resolve rules horizon_days)
        (λ s.
          place (spacing_ms rules) s occupied (sort goes_first shorts) (no_draft occupied_entries))
        h₁ in
    let before = occupied_times occupied_entries in
    (
      slots,
      legal,
      place-IsDraft (spacing_ms rules) slots occupied before (sort goes_first shorts)
          (no_draft occupied_entries) d
          (record { apart = tt; placed = tt; noted = sym (append_nil before) }) h₂,
      place-shorts (spacing_ms rules) slots occupied before (sort goes_first shorts)
          (no_draft occupied_entries) d h₂,
    )
