-- ===== src/Tests.antt =====
-- The rows that the tests and the examples use.
pub mod Queue
pub mod Rendering
pub mod Editing
pub mod Scheduling
pub mod Sources
pub mod Captioning
pub mod Clips
pub mod Library
pub mod Cropping
pub mod Flows
pub mod Saves
use Prim.Native.String.{String}
use short_editor.Prelude.{ℕ, Bool, true, false, List, [], ◌∷◌, Option, none, some}
use short_editor.Content.{SourceRange, Composition, CaptionState, AudioState, CopyPackage}
use short_editor.Store.{
  Db, Job, JobType, JobState, Render, RenderState, Provider, Payload, plain, snapshot, Preflight,
  Episode, EpisodeStatus, Short, CopyState, CopySource, ScheduleEntry, EntryStatus, Authorization,
}

abbrev pub analyze_job : ℕ → ℕ → JobState → ℕ → Job
analyze_job id created state attempts = record {
  id = id;
  type = JobType.analyze;
  entity_id = some 1;
  provider = some Provider.local;
  state = state;
  progress = 0;
  stage = "queued";
  attempts = attempts;
  cancel_requested = false;
  error_code = none;
  payload_reference = none;
  payload = plain 0;
  created_at = created;
  updated_at = created;
}

abbrev pub empty_db : Db
empty_db = record {
  jobs = [];
  renders = [];
  preflights = [];
  shorts = [];
  episodes = [];
  entries = [];
  authorizations = [];
}

abbrev pub jobs_db : List Job → Db
jobs_db jobs = record empty_db { jobs = jobs }

abbrev pub one_range : SourceRange
one_range = record { start_ms = 1000; end_ms = 6000 }

abbrev pub sample_short : ℕ → Bool → Short
sample_short revision approved = record {
  id = 1;
  episode_id = 1;
  candidate_id = 1;
  title = "A short";
  source_ranges = one_range ∷ [];
  composition = record { layers = []; canvas = 0 };
  captions = record { enabled = true; cues = 0; sidecars = record { srt = none; webvtt = none } };
  audio = 0;
  copy = 0;
  copy_state = CopyState.accepted;
  copy_source = CopySource.user_accepted;
  approved = approved;
  revision = revision;
  updated_at = 0;
}

abbrev pub sample_episode : Episode
sample_episode = record {
  id = 1;
  duration_ms = some 60000;
  status = EpisodeStatus.ready;
  missing = false;
  relink_restore_status = none;
  updated_at = 0;
}

abbrev pub sample_render : ℕ → ℕ → RenderState → Render
sample_render id attempt state = record {
  id = id;
  short_id = 1;
  project_revision = 2;
  lineage_id = 10;
  previous_render_id = none;
  attempt = attempt;
  preflight_id = some 5;
  output_path = none;
  sidecar_path = none;
  state = state;
  error_code = none;
  content_hash = none;
  decision_hash = some 77;
  determinism = none;
  valid = none;
  created_at = 0;
  updated_at = 0;
}

abbrev pub sample_preflight : Preflight
sample_preflight = record { id = 5; short_id = 1; revision = 2; passed = true; snapshot_hash = 77 }

abbrev pub sample_entry : ℕ → ℕ → EntryStatus → Bool → ScheduleEntry
sample_entry id instant status locked = record {
  id = id;
  short_id = 1;
  render_id = 10;
  episode_id = 1;
  publish_at = instant;
  status = status;
  priority = 0;
  locked = locked;
  youtube_url = none;
  needs_rerender = false;
  revision = 1;
  updated_at = 0;
}

-- A Short at revision 2 that is approved, with a Render and an entry in the schedule.
abbrev pub short_db : Db
short_db = record empty_db {
  shorts = sample_short 2 true ∷ [];
  episodes = sample_episode ∷ [];
  preflights = sample_preflight ∷ [];
  renders = sample_render 10 1 RenderState.succeeded ∷ [];
  entries = sample_entry 1 500 EntryStatus.planned false ∷ [];
}
