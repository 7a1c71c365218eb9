-- ===== src/Timeline/Checks.antt =====
-- src/shared/validators.ts: what `sourceRangesSchema` accepts, and the length of a timeline.
use short_editor.Prelude.{
  ℕ, zero, suc, ◌+◌, ◌-◌, ◌≤◌, ◌<◌, ◌≡◌, refl, ◌≢◌, ◌↔◌, true, ◌&&◌, &&_both, List, [], ◌∷◌, arith,
  take, All,
}
use short_editor.Content.{SourceRange}
use short_editor.Timeline.{
  ordered_after, all_ranges_ok, source_ranges_ok, duration, output_duration_from, output_duration,
}

-- A range of positive length.
abbrev pub IsProper : SourceRange → Type 0
IsProper r = r.start_ms < r.end_ms

-- Proper ranges, the first from `last` on, none before the end of the one before.
abbrev pub IsTimeline : ℕ → List SourceRange → Type 0
IsTimeline last [] = Unit
IsTimeline last (r ∷ rs) = (last ≤ r.start_ms) × IsProper r × IsTimeline r.end_ms rs

checks-IsTimeline :
    (last : ℕ) (rs : List SourceRange)
    → all_ranges_ok rs ≡ true
    → ordered_after last rs ≡ true
    → IsTimeline last rs
checks-IsTimeline last [] h k = tt
checks-IsTimeline last (r ∷ rs) h k =
    let (proper, rest) = &&_both _ (all_ranges_ok rs) h in
    let (after, later) = &&_both _ (ordered_after r.end_ms rs) k in
    (ground arith, ground arith, checks-IsTimeline r.end_ms rs rest later)

IsTimeline-checks :
    (last : ℕ) (rs : List SourceRange)
    → IsTimeline last rs
    → (all_ranges_ok rs ≡ true) × (ordered_after last rs ≡ true)
IsTimeline-checks last [] h = (refl, refl)
IsTimeline-checks last (r ∷ rs) (after, proper, later) =
    let (ok, ordered) = IsTimeline-checks r.end_ms rs later in (ground arith, ground arith)

-- The schema accepts exactly the lists that are not empty and form a timeline: each range has a
-- positive length and starts at or after the end of the one before.
pub source_ranges_ok_iff :
    (rs : List SourceRange) → (source_ranges_ok rs ≡ true) ↔ ((rs ≢ []) × IsTimeline 0 rs)
unfolding source_ranges_ok
source_ranges_ok_iff [] = (λ h. cc, λ h. absurd (h.0 refl))
source_ranges_ok_iff (r ∷ rs) = (accepted, rejected)
  where
    accepted :
        all_ranges_ok (r ∷ rs) && ordered_after r.end_ms rs ≡ true
        → (r ∷ rs ≢ []) × IsTimeline 0 (r ∷ rs)
    accepted h =
        let (ok, ordered) = &&_both (all_ranges_ok (r ∷ rs)) (ordered_after r.end_ms rs) h in
        (λ e. cc, checks-IsTimeline 0 (r ∷ rs) ok (ground arith))

    rejected :
        (r ∷ rs ≢ []) × IsTimeline 0 (r ∷ rs)
        → all_ranges_ok (r ∷ rs) && ordered_after r.end_ms rs ≡ true
    rejected (filled, line) =
        let (ok, ordered) = IsTimeline-checks 0 (r ∷ rs) line in
        let later = IsTimeline-checks r.end_ms rs line.2 in ground (arith, later.1)

pub IsTimeline-IsProper : (last : ℕ) (rs : List SourceRange) → IsTimeline last rs → All IsProper rs
IsTimeline-IsProper last [] h = tt
IsTimeline-IsProper last (r ∷ rs) (after, proper, later) =
    (proper, IsTimeline-IsProper r.end_ms rs later)

pub source_ranges_ok-IsProper :
    (rs : List SourceRange) → source_ranges_ok rs ≡ true → All IsProper rs
source_ranges_ok-IsProper rs h = IsTimeline-IsProper 0 rs ((source_ranges_ok_iff rs).0 h).1

pub output_duration_from-add :
    (total : ℕ) (rs : List SourceRange)
    → All IsProper rs
    → output_duration_from total rs ≡ total + output_duration_from 0 rs
output_duration_from-add total [] h = omega arith
output_duration_from-add total (r ∷ rs) (p, h) = omega (
  arith,
  output_duration_from-add (total + r.end_ms - r.start_ms) rs h,
  output_duration_from-add (0 + r.end_ms - r.start_ms) rs h,
)

pub output_duration-cons :
    (r : SourceRange) (rs : List SourceRange)
    → All IsProper (r ∷ rs)
    → output_duration (r ∷ rs) ≡ duration r + output_duration rs
unfolding output_duration
output_duration-cons r rs (p, h) =
    omega (arith, output_duration_from-add (0 + r.end_ms - r.start_ms) rs h)

pub All-take : (n : ℕ) (rs : List SourceRange) → All IsProper rs → All IsProper (take n rs)
All-take zero rs h = tt
All-take (suc n) [] h = tt
All-take (suc n) (r ∷ rs) (p, h) = (p, All-take n rs h)

pub output_duration-take :
    (n : ℕ) (r : SourceRange) (rs : List SourceRange)
    → All IsProper (r ∷ rs)
    → output_duration (take (suc n) (r ∷ rs)) ≡ duration r + output_duration (take n rs)
output_duration-take n r rs (p, h) = output_duration-cons r (take n rs) (p, All-take n rs h)
