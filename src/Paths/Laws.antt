-- ===== src/Paths/Laws.antt =====
-- src/core/artifact-path.ts
use short_editor.Prelude.{
  ℕ, ◌≡◌, refl, sym, ap, ◌∙◌, ◌≢◌, ◌==◌, ==→eq, ==_self, true, false, not, ◌||◌, List, [], ◌∷◌, any,
  All, arith, Bool-cases, inl, inr,
}
use short_editor.Store.{ok, >>-eq-ok, validation_error}
use short_editor.Paths.{
  Text, text_eq, slash, split_slash, join_slash, portable, bad_segment, below_artifacts,
  is_relative, is_empty, is_absolute, has_drive, validate_owned_relative_path,
}

pub text_eq→eq : (s t : Text) → text_eq s t ≡ true → s ≡ t
text_eq→eq [] [] h = refl
text_eq→eq (a ∷ s) (b ∷ t) h = ground (arith, text_eq→eq s t)
text_eq→eq [] (b ∷ t) h = cc
text_eq→eq (a ∷ s) [] h = cc

text_eq_self : (s : Text) → text_eq s s ≡ true
text_eq_self [] = refl
text_eq_self (c ∷ s) = rw (==_self c) (text_eq_self s)

split-filled : (s : Text) → (part : Text) × (parts : List Text) × (split_slash s ≡ part ∷ parts)
unfolding split_slash
split-filled [] = ([], [], refl)
split-filled (c ∷ s) =
    let (part, parts, e) = split-filled s in
    elim (Bool-cases (c == slash)) [
      | inl cut ↦ ([], part ∷ parts, rw (e, split_slash) (rw cut))
      | inr grown ↦ (c ∷ part, parts, rw (e, split_slash) (rw grown))
    ]

join-grown :
    (c : ℕ) (part : Text) (parts : List Text)
    → join_slash ((c ∷ part) ∷ parts) ≡ c ∷ join_slash (part ∷ parts)
unfolding join_slash
join-grown c part [] = refl
join-grown c part (next ∷ rest) = refl

-- Joining what a split gives is the text.
join-split : (s : Text) → join_slash (split_slash s) ≡ s
unfolding join_slash split_slash
join-split [] = refl
join-split (c ∷ s) =
    let (part, parts, e) = split-filled s in
    let rest : join_slash (part ∷ parts) ≡ s = rw (← e) (join-split s) in
    elim (Bool-cases (c == slash)) [
      | inl cut ↦ rw (e, split_slash) (rw cut (rw (rest, ==→eq c slash cut)))
      | inr grown ↦ rw (e, split_slash) (rw grown (rw (join-grown c part parts, rest)))
    ]

portable-portable : (s : Text) → portable (portable s) ≡ portable s
portable-portable [] = refl
portable-portable (c ∷ s) = ground (arith, portable-portable s)

-- No character of a portable text is a backslash.
abbrev pub Without : ℕ → Text → Type 0
Without c = All (λ d. d ≢ c)

portable-Without : (s : Text) → Without b'\\' (portable s)
portable-Without [] = tt
portable-Without (c ∷ s) = (ground arith, portable-Without s)

-- What an owned path is: segments joined by slashes, the first "artifacts", none of them empty, "."
-- or "..", and no backslash.
pub record IsOwned (path : Text) : Type 0 where
  pub segments : List Text
  pub joined : path ≡ join_slash segments
  pub split : split_slash path ≡ segments
  pub safe : any bad_segment segments ≡ false
  pub root : below_artifacts segments ≡ true
  pub portable_text : Without b'\\' path

-- A path that is accepted comes back with its backslashes turned into slashes, and is then owned: its
-- segments are not empty, "." or "..", the first is "artifacts", and it holds no backslash.
pub validate-IsOwned :
    (path owned : Text)
    → validate_owned_relative_path path ≡ ok owned
    → (owned ≡ portable path) × IsOwned owned
unfolding validate_owned_relative_path
validate-IsOwned path owned e =
    let (relative, e₁) = >>-eq-ok (is_relative path) validation_error _ e in
    let (checked, e₂) =
      >>-eq-ok
        (not (
          any bad_segment (split_slash (portable path))
          || not (below_artifacts (split_slash (portable path)))))
        validation_error _ e₁ in
    let same : owned ≡ portable path = ground (arith, join-split (portable path)) in
    (
      same,
      rw same (record {
        segments = split_slash (portable path);
        joined = sym (join-split (portable path));
        split = refl;
        safe = ground arith;
        root = ground arith;
        portable_text = portable-Without path;
      }),
    )

portable-is_empty : (s : Text) → is_empty (portable s) ≡ is_empty s
portable-is_empty [] = refl
portable-is_empty (c ∷ s) = refl

portable-nul : (s : Text) → any (λ c. c == 0) (portable s) ≡ any (λ c. c == 0) s
portable-nul [] = refl
portable-nul (c ∷ s) = ground (arith, portable-nul s)

portable-has_drive : (s : Text) → has_drive (portable s) ≡ has_drive s
portable-has_drive (c ∷ d ∷ e ∷ s) = ground arith
portable-has_drive (c ∷ d ∷ []) = refl
portable-has_drive (c ∷ []) = refl
portable-has_drive [] = refl

-- A leading slash makes the first segment empty.
absolute_is_bad : (s : Text) → is_absolute s ≡ true → any bad_segment (split_slash s) ≡ true
unfolding split_slash
absolute_is_bad [] h = cc
absolute_is_bad (c ∷ s) h = let (part, parts, e) = split-filled s in rw (e, split_slash) (rw h)

-- An accepted path is accepted again and does not change.
validate_idempotent :
    (path owned : Text)
    → validate_owned_relative_path path ≡ ok owned
    → validate_owned_relative_path owned ≡ ok owned
unfolding validate_owned_relative_path
validate_idempotent path owned e =
    let (same, o) = validate-IsOwned path owned e in
    let (relative, e₁) = >>-eq-ok (is_relative path) validation_error _ e in
    let again : is_relative (portable path) ≡ true = ground (
      arith,
      portable-is_empty path,
      portable-nul path,
      portable-has_drive path,
      absolute_is_bad (portable path),
      e₁,
    ) in
    rw same (rw (again, portable-portable path) (e₁ ∙ ap ok same))
