-- ===== src/Timeline/Mapping.antt =====
-- A cue's source time taken to output time (src/core/captions.ts) and back (src/ui/editor-state.ts).
use short_editor.Prelude.{
  ℕ, zero, suc, ◌+◌, ◌-◌, ◌≤◌, ◌<◌, ◌≡◌, refl, ◌∙◌, sym, subst, inl, inr, true, false, List, [],
  ◌∷◌, none, some, arith, take, get_elem?, All, Bool-cases,
}
use short_editor.Content.{SourceRange}
use short_editor.Timeline.{
  source_ranges_ok, duration, output_duration, SourcePoint, is_last, map_output_from,
  map_output_to_source, Cue, contains, Containing, containing_range_from, containing_range, map_cue,
  normalize_lines,
}
use short_editor.Timeline.Lines.{IsNormalized, normalize_lines-IsNormalized}
use short_editor.Timeline.Checks.{
  IsProper, output_duration-cons, output_duration-take, source_ranges_ok-IsProper,
}

-- Where a cue stands in the output: `k` ranges on from `index`, whose output starts at `offset`.
pub record Located (index : ℕ) (cue : Cue) (rs : List SourceRange) (c : Containing) : Type 0 where
  pub steps : ℕ
  pub at_index : c.index ≡ index + steps
  pub listed : get_elem? rs steps ≡ some c.value
  pub starts_inside : c.value.start_ms ≤ cue.start_ms
  pub ends_inside : cue.end_ms ≤ c.value.end_ms

locate :
    (index : ℕ) (cue : Cue) (rs : List SourceRange) (c : Containing)
    → containing_range_from index cue rs ≡ some c
    → Located index cue rs c
unfolding containing_range_from
locate index cue [] c e = (let absent : none ≡ some c = e in cc)
locate index cue (r ∷ rs) c e = elim (Bool-cases (contains cue r)) [
  | inl here ↦
      let same : record { index = index; value = r } ≡ c = ground arith in
      record {
        steps = 0;
        at_index = ground arith;
        listed = ground arith;
        starts_inside = ground arith;
        ends_inside = ground arith;
      }
  | inr further ↦
      let l = locate (index + 1) cue rs c (ground arith) in
      record {
        steps = suc l.steps;
        at_index = omega (arith, l.at_index);
        listed = l.listed;
        starts_inside = l.starts_inside;
        ends_inside = l.ends_inside;
      }
]

-- An index that is met shows that the list goes on.
get_elem?-not_last :
    (rs : List SourceRange) (k : ℕ) {r : SourceRange} → get_elem? rs k ≡ some r → is_last rs ≡ false
get_elem?-not_last [] k e = cc
get_elem?-not_last (x ∷ rs) k e = refl

-- A time inside the range `k` steps on maps to its place in that range.
map_output_from-inside :
    (k offset index : ℕ) (rs : List SourceRange) (r : SourceRange) (d at : ℕ)
    → All IsProper rs
    → get_elem? rs k ≡ some r
    → d < duration r
    → at ≡ offset + output_duration (take k rs) + d
    → map_output_from offset index rs at
      ≡ record { source_at_ms = r.start_ms + d; range_index = index + k }
unfolding map_output_from output_duration
map_output_from-inside k offset index [] r d at h listed inside e =
    (let absent : none ≡ some r = listed in cc)
map_output_from-inside zero offset index (x ∷ rs) r d at h listed inside e =
    let same : x ≡ r = ground arith in ground arith
map_output_from-inside (suc k) offset index (x ∷ rs) r d at h listed inside e =
    let longer = output_duration-take k x rs h in
    let further =
      map_output_from-inside k (offset + duration x) (index + 1) rs r d at h.1 listed inside
        (omega (arith, longer)) in
    let shifted : index + 1 + k ≡ index + suc k = omega arith in
    ground (arith, further, get_elem?-not_last rs k listed, longer)

take-le-output_duration :
    (k : ℕ) (rs : List SourceRange) (r : SourceRange)
    → All IsProper rs
    → get_elem? rs k ≡ some r
    → output_duration (take k rs) + duration r ≤ output_duration rs
unfolding output_duration
take-le-output_duration k [] r h listed = (let absent : none ≡ some r = listed in cc)
take-le-output_duration zero (x ∷ rs) r h listed =
    let same : x ≡ r = ground arith in ground (arith, output_duration-cons x rs h)
take-le-output_duration (suc k) (x ∷ rs) r h listed = omega (
  arith,
  output_duration-cons x rs h,
  output_duration-take k x rs h,
  take-le-output_duration k rs r h.1 listed,
)

point_eq :
    {a b i j : ℕ}
    → a ≡ b
    → i ≡ j
    → ◌≡◌ {A = SourcePoint}
        (record { source_at_ms = a; range_index = i })
        (record { source_at_ms = b; range_index = j })
point_eq e f = cc

-- The two ends of a mapped cue, counted from the output of the range that holds it.
map_cue_ends :
    (ranges : List SourceRange) (cue out : Cue) (c : Containing)
    → containing_range cue ranges ≡ some c
    → map_cue ranges cue ≡ some out
    → (out.start_ms ≡ output_duration (take c.index ranges) + cue.start_ms - c.value.start_ms)
      × (out.end_ms ≡ output_duration (take c.index ranges) + cue.end_ms - c.value.start_ms)
      × (out.id ≡ cue.id)
      × (out.text ≡ normalize_lines cue.text)
unfolding map_cue
map_cue_ends ranges cue out c e mapped = ground arith

-- The cue mapping of the sidecars, undone by the editor's mapping: a cue that is not empty and lies
-- in a range keeps its id and its length, ends within the output, and its start in the output maps
-- back to its start in the source, in the range that holds it. Its text is the text of the cue with
-- each carriage return, with the line feed after it if there is one, as one line feed.
pub map_cue-map_output :
    (ranges : List SourceRange) (cue out : Cue) (c : Containing)
    → source_ranges_ok ranges ≡ true
    → cue.start_ms < cue.end_ms
    → containing_range cue ranges ≡ some c
    → map_cue ranges cue ≡ some out
    → (out.id ≡ cue.id)
      × IsNormalized cue.text out.text
      × (out.end_ms - out.start_ms ≡ cue.end_ms - cue.start_ms)
      × (out.end_ms ≤ output_duration ranges)
      × (map_output_to_source ranges out.start_ms
          ≡ record { source_at_ms = cue.start_ms; range_index = c.index })
unfolding map_output_to_source containing_range
map_cue-map_output ranges cue out c valid filled e mapped =
    let proper = source_ranges_ok-IsProper ranges valid in
    let l = locate 0 cue ranges c e in
    let index : c.index ≡ l.steps = omega (arith, l.at_index) in
    let (starts, ends, id, text) = map_cue_ends ranges cue out c e mapped in
    let before = take-le-output_duration l.steps ranges c.value proper l.listed in
    let s = l.starts_inside in
    let t = l.ends_inside in
    let starts' : out.start_ms
        ≡ output_duration (take l.steps ranges) + cue.start_ms - c.value.start_ms =
      rw (← index) starts in
    let ends' : out.end_ms ≡ output_duration (take l.steps ranges) + cue.end_ms - c.value.start_ms =
      rw (← index) ends in
    let there =
      map_output_from-inside l.steps 0 0 ranges c.value (cue.start_ms - c.value.start_ms)
        out.start_ms proper l.listed (omega arith) (omega arith) in
    (
      id,
      subst (IsNormalized cue.text) (sym text) (normalize_lines-IsNormalized cue.text),
      omega arith,
      omega (arith, before),
      there ∙ point_eq (omega arith) (omega (arith, index)),
    )
