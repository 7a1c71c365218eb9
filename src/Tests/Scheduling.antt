-- ===== src/Tests/Scheduling.antt =====
-- Runs of the schedule: a draft, and the updates of entries.
use short_editor.Prelude.{
  ℕ, ◌+◌, ◌≡◌, refl, true, false, List, [], ◌∷◌, none, some, All, find, map, sort,
}
use Prim.Native.Nat.{◌*◌}
use short_editor.Store.{Db, ScheduleEntry, EntryStatus, Result, ok}
use short_editor.Schedule.{
  Slot, Rules, SchedulableShort, Draft, place, legal_slots, slots_from, resolve_all, draft_schedule,
  spacing_ms, occupied_times, horizon_days, goes_first,
}
use short_editor.Schedule.Drafting.{IsDraft, shorts_of, draft_schedule-IsDraft}
use short_editor.Schedule.Entries.{
  EntryPatch, entry_has_id, get_schedule_entry, update_schedule_entry,
}
use short_editor.Schedule.Publishing.{
  IsSoundEntry, update_schedule_entry-IsSoundEntry, published_stays,
}
use short_editor.Tests.{sample_entry, short_db}

-- Wall times of UTC.
abbrev utc : ℕ → ℕ → Result Slot
utc day minute = ok (record { instant = (day * 1440 + minute) * 60000; warning = none })

-- Thursdays at 10:00, and a week between the Shorts of an episode.
abbrev rules : Rules
rules = record {
  start_date = 0;
  allowed_weekdays = 4 ∷ [];
  times = 600 ∷ [];
  max_per_day = 1;
  blackout_dates = 7 ∷ [];
  minimum_same_episode_spacing_hours = 168;
}

abbrev shorts : List SchedulableShort
shorts =
    record { short_id = 1; render_id = 10; episode_id = 1; priority = 1 }
    ∷ record { short_id = 2; render_id = 11; episode_id = 1; priority = 5 }
    ∷ []

drafts : Unit {0}
unfolding draft_schedule legal_slots slots_from resolve_all place
drafts = tt

-- The Short of the higher priority comes first.
abbrev drafted : Draft
drafted = record {
  entries =
      record { short_id = 2; render_id = 11; episode_id = 1; priority = 5; publish_at = 36000000 }
      ∷ record {
        short_id = 1;
        render_id = 10;
        episode_id = 1;
        priority = 1;
        publish_at = 1245600000;
      }
      ∷ [];
  warnings = [];
  times = (1, 36000000) ∷ (1, 1245600000) ∷ [];
}

drafted_test : draft_schedule utc true shorts rules [] [] ≡ ok drafted
unfolding drafts
drafted_test = refl

draft_schedule-IsDraft_example :
    (slots : List Slot) × (legal_slots utc rules horizon_days ≡ ok slots)
    × IsDraft (spacing_ms rules) slots [] (occupied_times []) drafted
    × (shorts_of drafted.entries ≡ map (λ i. i.short_id) (sort goes_first shorts))
draft_schedule-IsDraft_example =
    draft_schedule-IsDraft utc true shorts rules [] [] drafted drafted_test

-- Entry 1 is planned and entry 2 published.
abbrev planned : ScheduleEntry
planned = sample_entry 1 500 EntryStatus.planned false

abbrev published : ScheduleEntry
published = sample_entry 2 900 EntryStatus.published true

abbrev schedule_db : Db
schedule_db = record short_db { entries = planned ∷ published ∷ [] }

abbrev publishing : EntryPatch
publishing = record {
  publish_at = none;
  status = some EntryStatus.published;
  priority = none;
  youtube_url = some (some "https://youtu.be/x");
}

abbrev now_published : ScheduleEntry
now_published = record planned {
  status = EntryStatus.published;
  locked = true;
  youtube_url = some "https://youtu.be/x";
  revision = 2;
  updated_at = 40;
}

abbrev published_db : Db
published_db = record schedule_db { entries = now_published ∷ published ∷ [] }

updates : Unit {0}
unfolding update_schedule_entry get_schedule_entry
updates = tt

published_test :
    update_schedule_entry schedule_db 1 1 publishing 40 ≡ ok (published_db, now_published)
unfolding updates
published_test = refl

schedule-IsSoundEntry : All IsSoundEntry schedule_db.entries
schedule-IsSoundEntry = (
  record {
    locked_when_published = refl;
    url_when_published = λ t. refl;
    current_when_published = λ t. refl;
  },
  (
    record {
      locked_when_published = refl;
      url_when_published = λ t. refl;
      current_when_published = λ t. refl;
    },
    tt,
  ),
)

update_schedule_entry-IsSoundEntry_example : All IsSoundEntry published_db.entries
update_schedule_entry-IsSoundEntry_example =
    update_schedule_entry-IsSoundEntry schedule_db published_db 1 1 publishing 40 now_published
      schedule-IsSoundEntry published_test

published_stays_example : find (entry_has_id 2) published_db.entries ≡ some published
published_stays_example =
    published_stays schedule_db published_db 1 1 publishing 40 now_published 2 published
      schedule-IsSoundEntry refl refl published_test
