-- ===== src/Paths.antt =====
-- src/core/artifact-path.ts. A path is the list of its code points; `isAbsolute` is that of the POSIX
-- hosts, a leading slash.
pub mod Laws
use short_editor.Prelude.{
  ℕ, ◌==◌, Bool, true, false, not, ◌&&◌, ◌||◌, leb, if◌then◌else◌, List, [], ◌∷◌, ◌++◌, map, any,
  Option, none, some, ◌≡◌, refl,
}
use short_editor.Store.{Result, ok, fail, ◌>>=◌, ◌>>◌, require, validation_error}

abbrev pub Text : Type 0
Text = List ℕ

abbrev pub text_eq : Text → Text → Bool
text_eq [] [] = true
text_eq (a ∷ s) (b ∷ t) = a == b && text_eq s t
text_eq [] (b ∷ t) = false
text_eq (a ∷ s) [] = false

abbrev pub slash : ℕ
slash = b'/'

-- `split("/")`
unfoldable pub split_slash : Text → List Text
split_slash [] = [] ∷ []
split_slash (c ∷ s) = elim (split_slash s) [
  | [] ↦ (c ∷ []) ∷ []
  | part ∷ parts ↦ if c == slash then [] ∷ part ∷ parts else (c ∷ part) ∷ parts
]

-- `join("/")`
unfoldable pub join_slash : List Text → Text
join_slash [] = []
join_slash (part ∷ parts) = elim parts [
  | [] ↦ part
  | next ∷ rest ↦ part ++ slash ∷ join_slash parts
]

abbrev pub is_letter : ℕ → Bool
is_letter c = leb b'A' c && leb c b'Z' || leb b'a' c && leb c b'z'

abbrev pub is_absolute : Text → Bool
is_absolute [] = false
is_absolute (c ∷ s) = c == slash

-- `/^[A-Za-z]:[\\/]/`
abbrev pub has_drive : Text → Bool
has_drive (c ∷ d ∷ e ∷ s) = is_letter c && d == b':' && (e == b'\\' || e == slash)
has_drive _ = false

-- `replaceAll("\\", "/")`
abbrev pub portable_char : ℕ → ℕ
portable_char c = if c == b'\\' then slash else c

abbrev pub portable : Text → Text
portable [] = []
portable (c ∷ s) = portable_char c ∷ portable s

abbrev pub is_empty : Text → Bool
is_empty [] = true
is_empty (c ∷ s) = false

abbrev pub bad_segment : Text → Bool
bad_segment s = is_empty s || text_eq s (b'.' ∷ []) || text_eq s (b'.' ∷ b'.' ∷ [])

-- "artifacts"
abbrev pub artifacts : Text
artifacts = b'a' ∷ b'r' ∷ b't' ∷ b'i' ∷ b'f' ∷ b'a' ∷ b'c' ∷ b't' ∷ b's' ∷ []

abbrev pub below_artifacts : List Text → Bool
below_artifacts [] = false
below_artifacts (s ∷ ss) = text_eq s artifacts

abbrev pub is_relative : Text → Bool
is_relative path =
    not (is_empty path || is_absolute path || has_drive path || any (λ c. c == 0) path)

unfoldable pub validate_owned_relative_path : Text → Result Text
unfolding split_slash join_slash
validate_owned_relative_path path = do
  require (is_relative path) validation_error
  let segments = split_slash (portable path)
  require (not (any bad_segment segments || not (below_artifacts segments))) validation_error
  ok (join_slash segments)
