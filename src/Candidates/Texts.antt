-- ===== src/Candidates/Texts.antt =====
-- The functions of src/core/candidates.ts on texts: white space, tokens and sets of them.
use Prim.Native.Nat.{Ordering}
use short_editor.Prelude.{
  ℕ, ◌+◌, ◌*◌, ◌==◌, ltb, leb, if◌then◌else◌, length, any, select, Bool, true, false, not, ◌&&◌,
  ◌||◌, List, [], ◌∷◌, ◌++◌, map,
}
use short_editor.Candidates.{Text}
use short_editor.Candidates.Comparing.{lexical_compare}

-- `\s` and the characters that `trim` removes.
abbrev is_space : ℕ → Bool
is_space c =
    (leb 9 c && leb c 13)
    || (leb 8192 c && leb c 8202)
    || any (λ s. s == c) (32 ∷ 160 ∷ 5760 ∷ 8232 ∷ 8233 ∷ 8239 ∷ 8287 ∷ 12288 ∷ 65279 ∷ [])

abbrev trim_start : Text → Text
trim_start [] = []
trim_start (c ∷ cs) = let rest = trim_start cs in if is_space c then rest else c ∷ cs

abbrev keep_unless_blank : ℕ → Text → Text
keep_unless_blank c [] = if is_space c then [] else c ∷ []
keep_unless_blank c (d ∷ ds) = c ∷ d ∷ ds

abbrev trim_end : Text → Text
trim_end [] = []
trim_end (c ∷ cs) = keep_unless_blank c (trim_end cs)

abbrev pub trim : Text → Text
trim text = trim_end (trim_start text)

-- `text.replace(/\s+/g, " ")`; `spaced` where the character before is white space.
abbrev squeezed : Bool → Text → Text
squeezed spaced [] = []
squeezed spaced (c ∷ cs) = elim (is_space c) [
  | true ↦ (let rest = squeezed true cs in if spaced then rest else 32 ∷ rest)
  | false ↦ c ∷ squeezed false cs
]

abbrev pub normalize_whitespace : Text → Text
normalize_whitespace text = squeezed false (trim text)

-- `texts.join(separator)`
abbrev pub join_texts : Text → List Text → Text
join_texts separator [] = []
join_texts separator (t ∷ []) = t
join_texts separator (t ∷ u ∷ us) = t ++ (separator ++ join_texts separator (u ∷ us))

-- `toLowerCase` on the letters of ASCII.
abbrev lower : ℕ → ℕ
lower c = if leb 65 c && leb c 90 then c + 32 else c

unfoldable pub normalized_transcript : Text → Text
normalized_transcript text = map lower (normalize_whitespace text)

-- `[a-z0-9]`
abbrev is_token_char : ℕ → Bool
is_token_char c = (leb 97 c && leb c 122) || (leb 48 c && leb c 57)

abbrev token_then : Text → List Text → List Text
token_then [] tokens = tokens
token_then (c ∷ cs) tokens = (c ∷ cs) ∷ tokens

-- `text.match(/[a-z0-9]+/g) ?? []`, after the token that has begun.
abbrev token_runs : Text → Text → List Text
token_runs begun [] = token_then begun []
token_runs begun (c ∷ cs) = elim (is_token_char c) [
  | true ↦ token_runs (begun ++ (c ∷ [])) cs
  | false ↦ token_then begun (token_runs [] cs)
]

abbrev normalized_tokens : Text → List Text
normalized_tokens text = token_runs [] (normalized_transcript text)

abbrev pub same_text : Text → Text → Bool
same_text s t = elim (lexical_compare s t) [ Ordering.eq ↦ true | _ ↦ false ]

-- `[...new Set(texts)]`
abbrev pub unique : List Text → List Text
unique [] = []
unique (t ∷ ts) = t ∷ select (λ u. not (same_text t u)) (unique ts)

-- `jaccard(a, b) >= 0.88`, the quotient written out as a product. With no token at all it is 0.
unfoldable pub is_near_duplicate : Text → Text → Bool
is_near_duplicate a b =
    let left = unique (normalized_tokens a) in
    let right = unique (normalized_tokens b) in
    let common = length (select (λ w. any (same_text w) right) left) in
    let all_words = length (unique (left ++ right)) in
    ltb 0 all_words && leb (88 * all_words) (100 * common)
