-- ===== src/Tests/Rendering.antt =====
-- Runs of the render attempts.
use short_editor.Prelude.{refl, true, [], ◌∷◌, ◌++◌, none, some, arith}
use short_editor.Store.{Db, Render, RenderState, srt, Evidence}
use short_editor.Jobs.{insert_job}
use short_editor.Shorts.{get_short}
use short_editor.Paths.{Text, artifacts, validate_owned_relative_path}
use short_editor.Renders.{
  RenderStart, Attempt, first_attempt, next_attempt, write_attempt, start_render_attempt,
  retry_render_attempt, retry_from, get_render, get_preflight, insert_render, newest,
}
use short_editor.Renders.Transition.{
  Completion, complete_render_attempt, transition_render, conclude, check_job, first_reference,
  patched_path, compared,
}
use short_editor.Renders.Completion.{Ended, complete_render_attempt-Ending}
use short_editor.Renders.Reproducible.{IsReproducible, complete_render_attempt-IsReproducible}
use short_editor.Renders.Granted.{Started, Retried}
use short_editor.Renders.Granting.{start_render_attempt-Started, retry_render_attempt-Retried}
use short_editor.Renders.Lineage.{AreNumbered, retry_render_attempt-AreNumbered}
use short_editor.Tests.{sample_render, sample_preflight, short_db}

attempts : Unit {0}
unfolding start_render_attempt retry_render_attempt retry_from get_render get_preflight get_short
    newest insert_render insert_job
attempts = tt

completions : Unit {0}
unfolding attempts complete_render_attempt transition_render conclude check_job first_reference
    patched_path validate_owned_relative_path
completions = tt

abbrev start_input : RenderStart
start_input = record {
  short_id = 1;
  expected_revision = 2;
  preflight_id = 5;
  sidecar_format = some srt;
}

-- The Short has no Render yet.
abbrev unrendered : Db
unrendered = record short_db { renders = [] }

abbrev first : Attempt
first = first_attempt start_input sample_preflight 20 30 100

abbrev started_db : Db
started_db = write_attempt unrendered first

start_render_attempt-Started_example : Started unrendered started_db start_input 20 30 first
unfolding attempts
start_render_attempt-Started_example =
    start_render_attempt-Started unrendered started_db start_input 20 30 100 first refl

none_numbered : AreNumbered []
none_numbered lineage = (refl, omega arith)

-- The first attempt has failed.
abbrev failed_render : Render
failed_render = record first.render { state = RenderState.failed }

abbrev failed_db : Db
failed_db = record unrendered { renders = failed_render ∷ []; jobs = first.job ∷ [] }

abbrev second : Attempt
second =
    next_attempt failed_render 5
      (record {
        short_id = 1;
        project_revision = 2;
        render_id = 20;
        preflight_id = 5;
        sidecar_format = some srt;
      })
      21 31 200

abbrev retried_db : Db
retried_db = write_attempt failed_db second

retry_render_attempt-Retried_example : Retried failed_db 20 21 31 retried_db second
unfolding attempts
retry_render_attempt-Retried_example =
    retry_render_attempt-Retried failed_db retried_db 20 21 31 200 second refl

one_numbered : AreNumbered failed_db.renders
one_numbered lineage = ground arith

retry_render_attempt-AreNumbered_example : AreNumbered retried_db.renders
unfolding attempts
retry_render_attempt-AreNumbered_example =
    retry_render_attempt-AreNumbered failed_db retried_db 20 21 31 200 second one_numbered refl

-- A running attempt beside a Render that has succeeded with the same identity hash.
abbrev evidence : Evidence
evidence = record {
  identity_hash = 8;
  video_sha256 = 1;
  video_bytes = 2;
  audio_sha256 = 3;
  audio_bytes = 4;
}

abbrev reference : Render
reference = record (sample_render 10 1 RenderState.succeeded) {
  determinism = some (compared none evidence);
}

abbrev running : Render
running = sample_render 11 2 RenderState.running

abbrev rendering_db : Db
rendering_db = record short_db { renders = reference ∷ running ∷ [] }

abbrev path : Text
path = artifacts ++ b'/' ∷ b'a' ∷ []

abbrev completion : Completion
completion = record {
  output_path = path;
  sidecar_path = none;
  content_hash = 12;
  valid = true;
  evidence = evidence;
}

abbrev finished : Render
finished = record running {
  output_path = some path;
  valid = some true;
  content_hash = some 12;
  determinism = some (compared (some reference) evidence);
  state = RenderState.succeeded;
  updated_at = 300;
}

abbrev rendered_db : Db
rendered_db = record rendering_db { renders = reference ∷ finished ∷ [] }

complete_render_attempt-Ending_example :
    Ended rendering_db 11 2 completion none rendered_db finished
unfolding completions
complete_render_attempt-Ending_example =
    complete_render_attempt-Ending rendering_db rendered_db 11 2 completion none 300 finished refl

rendering-IsReproducible : IsReproducible rendering_db.renders
rendering-IsReproducible = (λ hash. evidence, ((λ d t held. ground arith), ((λ d t held. cc), tt)))

complete_render_attempt-IsReproducible_example : IsReproducible rendered_db.renders
unfolding completions
complete_render_attempt-IsReproducible_example =
    complete_render_attempt-IsReproducible rendering_db rendered_db 11 2 completion none 300
      finished ((λ same. cc), ((λ same. refl), tt)) rendering-IsReproducible refl
