-- ===== src/Captions.antt =====
-- src/core/captions.ts: the warnings of `CaptionEngine.analyze`. Argument `layout` gives the warnings
-- on the glyphs and the layout of a cue, which rest on the metrics of a font.
pub mod Warnings
use short_editor.Prelude.{
  ℕ, ◌+◌, ◌-◌, ◌==◌, if◌then◌else◌, Bool, true, false, not, ◌&&◌, ◌||◌, leb, ltb, List, [], ◌∷◌,
  ◌++◌, Option, none, some, any, sort, is_some,
}
use short_editor.Content.{SourceRange}
use short_editor.Timeline.{Cue, containing_range}

pub data WarningCode : Type 0 where
  short_cue outside_source_range missing_glyph overflow safe_area overlap : WarningCode

pub record Warning : Type 0 where
  pub code : WarningCode
  pub cue_id : ℕ

abbrev pub warning_code : WarningCode → ℕ
warning_code WarningCode.short_cue = 0
warning_code WarningCode.outside_source_range = 1
warning_code WarningCode.missing_glyph = 2
warning_code WarningCode.overflow = 3
warning_code WarningCode.safe_area = 4
warning_code WarningCode.overlap = 5

-- `${item.cueId}:${item.code}`, as an equality.
abbrev pub same_identity : Warning → Warning → Bool
same_identity v w = v.cue_id == w.cue_id && warning_code v.code == warning_code w.code

-- The filter of `deduplicateWarnings`, with the warnings seen so far.
unfoldable pub unseen_warnings : List Warning → List Warning → List Warning
unseen_warnings seen [] = []
unseen_warnings seen (w ∷ ws) =
    let rest = unseen_warnings (w ∷ seen) ws in
    if any (same_identity w) seen then unseen_warnings seen ws else w ∷ rest

unfoldable pub deduplicate_warnings : List Warning → List Warning
unfolding unseen_warnings
deduplicate_warnings ws = unseen_warnings [] ws

-- By start, then end, then id.
abbrev pub cue_before : Cue → Cue → Bool
cue_before l r =
    ltb l.start_ms r.start_ms
    || (l.start_ms == r.start_ms
        && (ltb l.end_ms r.end_ms || (l.end_ms == r.end_ms && leb l.id r.id)))

abbrev pub latest_of : Cue → Cue → Cue
latest_of latest cue = if ltb latest.end_ms cue.end_ms then cue else latest

abbrev pub overlap_warning : Cue → Warning
overlap_warning cue = record { code = WarningCode.overlap; cue_id = cue.id }

-- The loop over the ordered cues, after the first.
unfoldable pub overlaps_after : Cue → List Cue → List Warning
overlaps_after latest [] = []
overlaps_after latest (cue ∷ cues) =
    let rest = overlaps_after (latest_of latest cue) cues in
    if ltb cue.start_ms latest.end_ms then overlap_warning cue ∷ rest else rest

abbrev pub overlaps_of : List Cue → List Warning
overlaps_of [] = []
overlaps_of (cue ∷ cues) = overlaps_after cue cues

unfoldable pub overlap_warnings : List Cue → List Warning
unfolding overlaps_after
overlap_warnings cues = overlaps_of (sort cue_before cues)

abbrev pub when : Bool → WarningCode → Cue → List Warning
when test code cue = if test then record { code = code; cue_id = cue.id } ∷ [] else []

unfoldable pub cue_warnings : (Cue → List Warning) → List SourceRange → List Cue → List Warning
cue_warnings layout ranges [] = []
cue_warnings layout ranges (cue ∷ cues) =
    when (ltb (cue.end_ms - cue.start_ms) 500) WarningCode.short_cue cue
    ++ when (not (is_some (containing_range cue ranges))) WarningCode.outside_source_range cue
    ++ layout cue
    ++ cue_warnings layout ranges cues

unfoldable pub analyze : (Cue → List Warning) → List Cue → List SourceRange → Bool → List Warning
analyze layout cues ranges enabled =
    if enabled
    then deduplicate_warnings (cue_warnings layout ranges cues ++ overlap_warnings cues)
    else []
