-- ===== src/Schedule.antt =====
-- src/core/scheduler.ts: the draft of a schedule. A date is the number of its day from 1970-01-01, a
-- wall time the number of its minute, and an instant its milliseconds. Argument `resolve` is
-- `resolveZonedWallTime` for the time zone of the rules, and `known` says that this zone exists.
pub mod Drafting
pub mod Entries
pub mod Publishing
use Prim.Native.Nat.{zero, suc, ◌%◌, ◌*◌}
use short_editor.Prelude.{
  ℕ, ◌+◌, ◌==◌, if◌then◌else◌, Bool, true, false, not, ◌&&◌, ◌||◌, leb, ltb, List, [], ◌∷◌, ◌++◌,
  Option, none, some, find, any, all, take, sort,
}
use short_editor.Store.{
  ErrorCode, invalid_state, validation_error, Result, ok, fail, ◌>>=◌, ◌>>◌, require, found_or,
}

pub data DstWarning : Type 0 where
  ambiguous_local_time : ℕ → DstWarning  -- the alternative instant
  nonexistent_local_time : ℕ → DstWarning  -- the minutes of the gap

pub record Slot : Type 0 where
  pub instant : ℕ
  pub warning : Option DstWarning

pub record Rules : Type 0 where
  pub start_date : ℕ
  pub allowed_weekdays : List ℕ
  pub times : List ℕ
  pub max_per_day : ℕ
  pub blackout_dates : List ℕ
  pub minimum_same_episode_spacing_hours : ℕ

pub record SchedulableShort : Type 0 where
  pub short_id : ℕ
  pub render_id : ℕ
  pub episode_id : ℕ
  pub priority : ℕ

pub record DraftEntry : Type 0 where
  pub short_id : ℕ
  pub render_id : ℕ
  pub episode_id : ℕ
  pub priority : ℕ
  pub publish_at : ℕ

pub record OccupiedEntry : Type 0 where
  pub publish_at : ℕ
  pub episode_id : ℕ

-- `getUTCDay()`: 1970-01-01 was a Thursday.
abbrev pub weekday : ℕ → ℕ
weekday day = (day + 4) % 7

abbrev pub includes_number : List ℕ → ℕ → Bool
includes_number xs n = any (λ x. x == n) xs

abbrev pub is_legal_day : Rules → ℕ → Bool
is_legal_day rules day =
    not (includes_number rules.blackout_dates day)
    && includes_number rules.allowed_weekdays (weekday day)

unfoldable pub resolve_all : (ℕ → ℕ → Result Slot) → ℕ → List ℕ → Result (List Slot)
resolve_all resolve day [] = ok []
resolve_all resolve day (time ∷ times) = do
  slot ← resolve day time
  rest ← resolve_all resolve day times
  ok (slot ∷ rest)

-- `days` days from `day` on.
unfoldable pub slots_from : (ℕ → ℕ → Result Slot) → Rules → ℕ → ℕ → Result (List Slot)
slots_from resolve rules zero day = ok []
slots_from resolve rules (suc days) day = do
  here ←
      if is_legal_day rules day
      then resolve_all resolve day (take rules.max_per_day rules.times)
      else ok []
  rest ← slots_from resolve rules days (day + 1)
  ok (here ++ rest)

unfoldable pub legal_slots : (ℕ → ℕ → Result Slot) → Rules → ℕ → Result (List Slot)
legal_slots resolve rules horizon_days = do
  slots ← slots_from resolve rules horizon_days rules.start_date
  ok (sort (λ l r. leb l.instant r.instant) slots)

-- `b.priority - a.priority || a.shortId.localeCompare(b.shortId)`
abbrev pub goes_first : SchedulableShort → SchedulableShort → Bool
goes_first a b =
    ltb b.priority a.priority || (a.priority == b.priority && leb a.short_id b.short_id)

abbrev pub spacing_ms : Rules → ℕ
spacing_ms rules = rules.minimum_same_episode_spacing_hours * 3600000

-- `Math.abs(instant - time) >= spacingMs`
abbrev pub is_apart : ℕ → ℕ → ℕ → Bool
is_apart spacing instant time = leb (time + spacing) instant || leb (instant + spacing) time

-- `episodeTimes` as the list of its pairs of an episode and a time.
abbrev pub keeps_spacing : ℕ → ℕ → ℕ → List (ℕ × ℕ) → Bool
keeps_spacing spacing episode instant times =
    all (λ (e, time). not (e == episode) || is_apart spacing instant time) times

abbrev pub is_free : ℕ → List ℕ → List DraftEntry → List (ℕ × ℕ) → SchedulableShort → Slot → Bool
is_free spacing occupied entries times item slot =
    not (
      includes_number occupied slot.instant
      || any (λ (e : DraftEntry). e.publish_at == slot.instant) entries)
    && keeps_spacing spacing item.episode_id slot.instant times

abbrev pub entry_at : SchedulableShort → ℕ → DraftEntry
entry_at item instant = record {
  short_id = item.short_id;
  render_id = item.render_id;
  episode_id = item.episode_id;
  priority = item.priority;
  publish_at = instant;
}

pub record Draft : Type 0 where
  pub entries : List DraftEntry
  pub warnings : List DstWarning
  pub times : List (ℕ × ℕ)

abbrev pub with_warning : Option DstWarning → List DstWarning → List DstWarning
with_warning none ws = ws
with_warning (some w) ws = ws ++ w ∷ []

abbrev pub add_entry : Draft → SchedulableShort → Slot → Draft
add_entry draft item slot = record {
  entries = draft.entries ++ entry_at item slot.instant ∷ [];
  warnings = with_warning slot.warning draft.warnings;
  times = draft.times ++ (item.episode_id, slot.instant) ∷ [];
}

-- The loop over the sorted Shorts.
unfoldable pub place : ℕ → List Slot → List ℕ → List SchedulableShort → Draft → Result Draft
place spacing slots occupied [] draft = ok draft
place spacing slots occupied (item ∷ items) draft = do
  slot ←
      found_or (find (is_free spacing occupied draft.entries draft.times item) slots) invalid_state
  place spacing slots occupied items (add_entry draft item slot)

abbrev pub occupied_times : List OccupiedEntry → List (ℕ × ℕ)
occupied_times [] = []
occupied_times (e ∷ es) = (e.episode_id, e.publish_at) ∷ occupied_times es

abbrev pub no_draft : List OccupiedEntry → Draft
no_draft occupied_entries = record {
  entries = [];
  warnings = [];
  times = occupied_times occupied_entries;
}

abbrev pub horizon_days : ℕ
horizon_days = 730

unfoldable pub draft_schedule :
    (ℕ → ℕ → Result Slot)
    → Bool
    → List SchedulableShort
    → Rules
    → List ℕ
    → List OccupiedEntry
    → Result Draft
draft_schedule resolve known shorts rules occupied occupied_entries = do
  require known validation_error
  slots ← legal_slots resolve rules horizon_days
  place (spacing_ms rules) slots occupied (sort goes_first shorts) (no_draft occupied_entries)
