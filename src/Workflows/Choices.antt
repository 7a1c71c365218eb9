-- ===== src/Workflows/Choices.antt =====
-- src/core/short-workflows.ts: what the coordinator picks and computes from what it has read.
use short_editor.Prelude.{
  ℕ, ◌+◌, ◌-◌, ◌*◌, ◌==◌, min, if◌then◌else◌, Bool, true, false, ◌&&◌, ◌||◌, leb, ltb, List, [],
  ◌∷◌, ◌++◌, Option, none, some, any, sort, option_eq,
}
use short_editor.Content.{SourceRange}
use short_editor.Paths.{Text}
use short_editor.Store.{Job, JobType, Render, RenderState, Short}
use short_editor.Jobs.{is_open, same_type}
use short_editor.Workflows.{
  Preset, MotionGraphicLayer, Graphics, ImportedEpisode, Imports, Candidate,
}

abbrev pub ends_mp4 : Text → Bool
ends_mp4 [] = false
ends_mp4 (c ∷ cs) = let rest = ends_mp4 cs in is_mp4 (c ∷ cs) || rest
  where
    is_mp4 : Text → Bool
    is_mp4 (d ∷ m ∷ p ∷ n ∷ []) =
        d == b'.' && (m == b'm' || m == b'M') && (p == b'p' || p == b'P') && n == b'4'
    is_mp4 _ = false

abbrev pub first_imported : List ImportedEpisode → Option ImportedEpisode
first_imported [] = none
first_imported (e ∷ es) = some e

abbrev pub either {ℓ} : {A : Type ℓ} → Option A → Option A → Option A
either none later = later
either (some a) later = some a

-- `imported.imported[0] ?? imported.duplicates[0] ?? imported.relinked[0]`
abbrev pub episode_of : Imports → Option ImportedEpisode
episode_of i =
    either (first_imported i.imported)
      (either (first_imported i.duplicates) (first_imported i.relinked))

abbrev pub analyzes : ℕ → Job → Bool
analyzes episode j =
    same_type j.type JobType.analyze && option_eq j.entity_id (some episode) && is_open j.state

abbrev pub candidate_duration : Candidate → ℕ
candidate_duration c = c.end_ms - c.start_ms

-- `Math.abs(duration - target)`
abbrev pub distance : ℕ → ℕ → ℕ
distance a b = (a - b) + (b - a)

-- The comparator, times a million times the target: a score is a number of millionths, and the
-- penalty a fraction of the target. The source computes with floating-point numbers.
abbrev pub gain : ℕ → Candidate → ℕ
gain target c = c.score * target

abbrev pub loss : ℕ → Candidate → ℕ
loss target c = 1000000 * distance (candidate_duration c) target

abbrev pub fits_better : ℕ → Candidate → Candidate → Bool
fits_better target l r =
    ltb (gain target r + loss target l) (gain target l + loss target r)
    || (gain target r + loss target l == gain target l + loss target r && leb l.id r.id)

abbrev pub first_candidate : List Candidate → Option Candidate
first_candidate [] = none
first_candidate (c ∷ cs) = some c

unfoldable pub best_candidate : ℕ → List Candidate → Option Candidate
best_candidate target candidates = first_candidate (sort (fits_better target) candidates)

-- `project.sourceRanges[0]!`, cut to the target.
abbrev pub opening_range : ℕ → List SourceRange → List SourceRange
opening_range target [] = []
opening_range target (r ∷ rs) = record { start_ms = r.start_ms; end_ms = r.start_ms + target } ∷ []

abbrev pub same_preset : Preset → Preset → Bool
same_preset Preset.hook Preset.hook = true
same_preset Preset.lower_third Preset.lower_third = true
same_preset Preset.end_card Preset.end_card = true
same_preset _ _ = false

abbrev pub layer_if : Bool → MotionGraphicLayer → List MotionGraphicLayer
layer_if b layer = if b then layer ∷ [] else []

abbrev pub hook_layer : ℕ → MotionGraphicLayer
hook_layer duration = record { preset = Preset.hook; start_ms = 0; end_ms = min duration 3500 }

abbrev pub lower_third_layer : ℕ → MotionGraphicLayer
lower_third_layer duration = record {
  preset = Preset.lower_third;
  start_ms = min 800 (duration - 1);
  end_ms = min duration 6000;
}

abbrev pub end_card_layer : ℕ → MotionGraphicLayer
end_card_layer duration = record {
  preset = Preset.end_card;
  start_ms = duration - 4000;
  end_ms = duration;
}

abbrev pub is_chosen : Graphics → Preset → Bool
is_chosen g p = any (same_preset p) g.presets

-- `graphicsLayers`
unfoldable pub graphics_layers : Graphics → ℕ → List MotionGraphicLayer
graphics_layers g duration =
    layer_if (is_chosen g Preset.hook) (hook_layer duration)
    ++ (layer_if (is_chosen g Preset.lower_third && ltb 1000 duration) (lower_third_layer duration)
        ++ layer_if (is_chosen g Preset.end_card) (end_card_layer duration))

-- `[...renders].reverse().find(...)`: rows of one instant come in insertion order.
abbrev pub is_reusable : RenderState → Bool
is_reusable RenderState.queued = true
is_reusable RenderState.running = true
is_reusable RenderState.succeeded = true
is_reusable _ = false

abbrev pub newer : Render → Option Render → Option Render
newer r none = some r
newer r (some s) = if leb r.created_at s.created_at then some s else some r

unfoldable pub newest_render : (Render → Bool) → List Render → Option Render
newest_render p [] = none
newest_render p (r ∷ rs) = let rest = newest_render p rs in if p r then newer r rest else rest

abbrev pub reusable_at : ℕ → ℕ → Render → Bool
reusable_at short_id revision r =
    r.short_id == short_id && r.project_revision == revision && is_reusable r.state

-- The first of the Shorts of an Episode with the candidate, in the order of the rows.
abbrev pub made_from : ℕ → ℕ → Short → Bool
made_from episode_id candidate_id s = s.episode_id == episode_id && s.candidate_id == candidate_id
