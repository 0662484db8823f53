-- ===== src/Tests/Pipeline.antt =====
-- Runs of the state machine and of the pipeline at concrete inputs.
use agent_voca.Prelude.{true, false, none, some, [], ◌∷◌, ◌≡◌, ◌⊎◌, refl, if◌then◌else◌}
use agent_voca.Text.{ascii, codes}
use agent_voca.Machine.{
  State, idle, transcribing, cleaning, inserting, hotkey, no_context, Context, toggle_recording,
  toggle, transition, state_eq, Action,
}
use agent_voca.Machine.Diagram.{◌⟶◌, transition-⟶, transition-cancel}
use agent_voca.Commands.{default_phrases, process}
use agent_voca.Commands.Laws.{IsDecided, process-IsDecided}
use agent_voca.Text.{strip}
use agent_voca.Orchestrator.{Env, Orch, returned, provider_error, keyboard}
use agent_voca.Orchestrator.Pipeline.{correct, run_pipeline}
use agent_voca.Orchestrator.Pipeline.Recording.{IsReset, IsConcluded, run_pipeline_ends}
use agent_voca.Orchestrator.Pipeline.Failures.{run_pipeline-stale}

abbrev toggle_context : Context
toggle_context = record no_context { action = some toggle_recording; mode = some toggle }

abbrev cancel_context : Context
cancel_context = record no_context { action = some Action.cancel }

-- Everything succeeds; there are no commands, screenshots or contexts, and no cleanup.
abbrev env : Env
env = record {
  streaming_enabled = false;
  pipelined_cleanup_enabled = false;
  style = codes "casual";
  preserve_code = false;
  fallback_enabled = true;
  transcribe = λ n a rate. returned (codes "hello");
  cleanup_available = false;
  rewrite = λ n t c. returned t;
  insert = λ t. returned (record { success = true; method_used = keyboard; error = none });
  undo_last = returned true;
  clipboard_insert =
      λ t. returned (record { success = true; method_used = keyboard; error = none });
  commands = none;
  context = none;
  vision = none;
  now_ms = 0;
}

-- The transcription fails.
abbrev deaf_env : Env
deaf_env = record env { transcribe = λ n a rate. provider_error }

abbrev orch_in : State → Orch
orch_in state = record {
  state = state;
  last_transcript = none;
  current_transcript = some (codes "before");
  current_audio_bytes = some (1 ∷ []);
  current_sample_rate = 16000;
  current_duration_ms = 900;
  cleanup_success = false;
  vocab = record { terms = []; mappings = []; casing = []; pattern = [] };
  snippets = record { snippets = []; pattern = [] };
  adaptive_store = none;
  potential_wrong_term = none;
  undo_timestamp = 0;
  resolved_style = none;
  resolved_app_name = none;
  resolved_language = none;
  stream_active = true;
  stream_final_segment = some (codes "left");
  cleaned_segments = codes "left" ∷ [];
  in_flight = [];
  error_timer = false;
  published = [];
  spawned = [];
}

transition-⟶_example :
    ((transition idle hotkey toggle_context).0 ≡ idle)
    ⊎ (idle ⟶ (transition idle hotkey toggle_context).0)
transition-⟶_example = transition-⟶ idle hotkey toggle_context

transition-cancel_example :
    (transition cleaning hotkey cancel_context).0
    ≡ (if state_eq cleaning inserting then inserting else idle)
transition-cancel_example = transition-cancel cleaning cancel_context refl

run_pipeline_ends_example :
    IsReset (run_pipeline ascii env (orch_in transcribing)).1
    × IsConcluded ascii env (orch_in transcribing) (run_pipeline ascii env (orch_in transcribing))
run_pipeline_ends_example = run_pipeline_ends ascii env (orch_in transcribing) refl

-- The audio cannot be transcribed, and the text of the dictation before is inserted again.
run_pipeline-stale_example :
    (run_pipeline ascii deaf_env (orch_in transcribing)).1.last_transcript
    ≡ some (correct ascii (orch_in transcribing) (codes "before"))
run_pipeline-stale_example =
    run_pipeline-stale ascii deaf_env (orch_in transcribing) (1 ∷ [])
      (record { success = true; method_used = keyboard; error = none }) refl refl (λ n a rate. refl)
      refl refl refl refl refl refl

process-IsDecided_example :
    IsDecided ascii default_phrases
      (strip ascii (codes "scratch that now"))
      (process ascii default_phrases (codes "scratch that now"))
process-IsDecided_example = process-IsDecided ascii default_phrases b's' (codes "cratch that now")

abbrev cleaning_env : Env
cleaning_env = record env { cleanup_available = true; rewrite = λ n t c. returned (codes "Hello.") }
