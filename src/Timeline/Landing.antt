-- ===== src/Timeline/Landing.antt =====
-- src/ui/editor-state.ts, `mapOutputToSource`: where an output time lands.
use short_editor.Prelude.{
  ℕ, suc, ◌+◌, ◌-◌, ◌≤◌, ◌<◌, ◌≡◌, refl, ap, ◌≢◌, ◌⊎◌, inl, inr, true, false, ◌||◌, List, [], ◌∷◌,
  some, arith, ltb, take, min, get_elem?, All, Bool-cases,
}
use short_editor.Content.{SourceRange}
use short_editor.Timeline.{
  source_ranges_ok, duration, output_duration, SourcePoint, is_last, map_output_from,
  map_output_to_source,
}
use short_editor.Timeline.Checks.{
  IsProper, output_duration-cons, output_duration-take, source_ranges_ok-IsProper,
  source_ranges_ok_iff,
}

output_duration-nil : output_duration [] ≡ 0
unfolding output_duration
output_duration-nil = refl

-- Where an output time lands: `d` into the range `k` steps on.
pub record Landing (offset index at : ℕ) (rs : List SourceRange) (p : SourcePoint) : Type 0 where
  pub range : SourceRange
  pub steps : ℕ
  pub at_index : p.range_index ≡ index + steps
  pub listed : get_elem? rs steps ≡ some range
  pub after_start : range.start_ms ≤ p.source_at_ms
  pub before_end : p.source_at_ms ≤ range.end_ms
  pub back :
      offset + output_duration (take steps rs) + (p.source_at_ms - range.start_ms)
      ≡ min at (offset + output_duration rs)

-- In the first range, where the time is before its end or the range is the last.
Landing-here :
    (offset index at : ℕ) (r : SourceRange) (rs : List SourceRange)
    → All IsProper (r ∷ rs)
    → offset ≤ at
    → (at < offset + duration r) ⊎ (rs ≡ [])
    → Landing offset index at
        (r ∷ rs)
        (record { source_at_ms = r.start_ms + min (duration r) (at - offset); range_index = index })
unfolding output_duration
Landing-here offset index at r rs h from (inl before) = record {
  range = r;
  steps = 0;
  at_index = omega arith;
  listed = refl;
  after_start = omega arith;
  before_end = omega (arith, h.0);
  back = omega (arith, output_duration-cons r rs h);
}
Landing-here offset index at r rs h from (inr last) = record {
  range = r;
  steps = 0;
  at_index = omega arith;
  listed = refl;
  after_start = omega arith;
  before_end = omega (arith, h.0);
  back = omega (arith, output_duration-cons r rs h, ap output_duration last, output_duration-nil);
}

Landing-further :
    (offset index at : ℕ) (r : SourceRange) (rs : List SourceRange) (p : SourcePoint)
    → All IsProper (r ∷ rs)
    → Landing (offset + duration r) (index + 1) at rs p
    → Landing offset index at (r ∷ rs) p
Landing-further offset index at r rs p h l = record {
  range = l.range;
  steps = suc l.steps;
  at_index = omega (arith, l.at_index);
  listed = l.listed;
  after_start = l.after_start;
  before_end = l.before_end;
  back = omega (arith, l.back, output_duration-take l.steps r rs h, output_duration-cons r rs h);
}

first_range :
    (offset at : ℕ) (r : SourceRange) (rs : List SourceRange)
    → ltb at (offset + duration r) || is_last rs ≡ true
    → (at < offset + duration r) ⊎ (rs ≡ [])
first_range offset at r [] h = inr refl
first_range offset at r (x ∷ rs) h = inl (ground arith)

map_output_from-Landing :
    (offset index at : ℕ) (rs : List SourceRange)
    → All IsProper rs
    → rs ≢ []
    → offset ≤ at
    → Landing offset index at rs (map_output_from offset index rs at)
unfolding map_output_from
map_output_from-Landing offset index at [] h filled from = absurd (filled refl)
map_output_from-Landing offset index at (r ∷ []) h filled from =
    let always : ltb at (offset + duration r) || true ≡ true = ground arith in
    rw always (Landing-here offset index at r [] h from (inr refl))
map_output_from-Landing offset index at (r ∷ x ∷ xs) h filled from =
    elim (Bool-cases (ltb at (offset + duration r) || false)) [
      | inl here ↦
          rw here
            (Landing-here offset index at r (x ∷ xs) h from (first_range offset at r (x ∷ xs) here))
      | inr further ↦ rw further (
          Landing-further offset index at r (x ∷ xs) _ h (
            map_output_from-Landing (offset + duration r) (index + 1) at (x ∷ xs) h.1 (λ e. cc)
              (ground arith)))
    ]

-- Every output time maps into the range that the result names, and back: the output before that
-- range and the place in it add up to the time, or to the whole output where the time is past it.
pub map_output-Landing :
    (ranges : List SourceRange) (at : ℕ)
    → source_ranges_ok ranges ≡ true
    → Landing 0 0 at ranges (map_output_to_source ranges at)
unfolding map_output_to_source
map_output-Landing ranges at valid =
    map_output_from-Landing 0 0 at ranges (source_ranges_ok-IsProper ranges valid)
      ((source_ranges_ok_iff ranges).0 valid).0 (omega arith)
