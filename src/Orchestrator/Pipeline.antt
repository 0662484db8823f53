-- ===== src/Orchestrator/Pipeline.antt =====
-- `_on_recording_stopped`, `_run_pipeline`, `cancel` and the error timeout.
pub mod Outcome
pub mod Ends
pub mod Recording
pub mod Failures
pub mod Success
use agent_voca.Prelude.{
  ℕ, Bool, true, false, ◌&&◌, not, Option, none, some, List, [], ◌∷◌, ◌++◌, if◌then◌else◌, is_some,
}
use agent_voca.Text.{Text, Unicode}
use agent_voca.Machine
use agent_voca.Machine.{
  State, idle, recording, transcribing, error, hotkey, duration, timeout,
  transcript as transcript_event, toggle_recording, toggle, Context, no_context, state_eq,
}
use agent_voca.Vocab.Dictionary
use agent_voca.Vocab.Snippets
use agent_voca.Orchestrator.{Env, Orch, Stage, transcript, state_changed}
use agent_voca.Orchestrator.Exec.{
  Exec, Result, done, raised, stopped, ◌>>=◌, ◌>>◌, pure, gets, modify, publish, publish_to,
  transition, emit_if, emit_error,
}
use agent_voca.Orchestrator.Steps.Asr.{run_asr}
use agent_voca.Orchestrator.Steps.Cleanup.{run_cleanup}
use agent_voca.Orchestrator.Steps.Commands.{process_commands_and_adaptive}
use agent_voca.Orchestrator.Steps.Insertion.{run_insertion}
use agent_voca.Orchestrator.Steps.Vision.{apply_vision}

-- `_has_screenshots`
abbrev pub has_screenshots : Env → Bool
has_screenshots env = elim env.vision [ none ↦ false | some v ↦ v.has_pending ]

-- `" ".join(texts)`
unfoldable pub join_spaced : List Text → Text
join_spaced [] = []
join_spaced (t ∷ []) = t
join_spaced (t ∷ t' ∷ ts) = t ++ (32 ∷ join_spaced (t' ∷ ts))

abbrev pub text_or_empty : Option Text → Text
text_or_empty none = []
text_or_empty (some t) = t

abbrev pub has_segments : List Text → Bool
has_segments [] = false
has_segments (_ ∷ _) = true

-- `_reset_streaming_state`
abbrev pub reset_streaming_state : Orch → Orch
reset_streaming_state o = record o {
  stream_active = false;
  stream_final_segment = none;
  cleaned_segments = [];
  in_flight = [];
}

module _ (u : Unicode) where
  -- `_expand_snippets (_apply_vocabulary text)`
  unfoldable pub correct : Orch → Text → Text
  correct o text = Snippets.expand u o.snippets (Dictionary.apply u o.vocab text)

  module _ (env : Env) where
    -- Steps 4 and 5.
    unfoldable pub clean_and_insert : Text × Bool → Exec Unit
    clean_and_insert (spliced, had_vision) = do
      cleaned ← run_cleanup env spliced had_vision
      run_insertion env cleaned

    -- Steps 2 to 5, behind the commands.
    unfoldable pub finish_unified : Text → Exec Unit
    unfolding clean_and_insert
    finish_unified text o = (apply_vision u env (correct o text) >>= clean_and_insert) o

    unfoldable pub unless_stopped : Bool × Text → (Text → Exec Unit) → Exec Unit
    unless_stopped (true, text) next = pure tt
    unless_stopped (false, text) next = next text

    unfoldable pub continue_unified : Bool × Text → Exec Unit
    unfolding unless_stopped finish_unified
    continue_unified answer = unless_stopped answer finish_unified

    -- The stages behind the transcription.
    unfoldable pub run_unified : Exec Unit
    unfolding continue_unified
    run_unified o =
        (process_commands_and_adaptive u env (text_or_empty o.current_transcript)
            >>= continue_unified)
          o

    -- The cleaned segments and the cleaned trailing text are joined and inserted.
    unfoldable pub join_and_insert : Text → Exec Unit
    join_and_insert trailing_clean o =
        let cleaned_text = join_spaced (o.cleaned_segments ++ trailing_clean ∷ []) in
        run_insertion env (correct o cleaned_text) o

    -- The fast path: the segments cleaned so far, and the cleaned trailing text.
    unfoldable pub finish_pipelined : Text → Exec Unit
    unfolding join_and_insert
    finish_pipelined text = run_cleanup env text false >>= join_and_insert

    unfoldable pub continue_pipelined : Bool × Text → Exec Unit
    unfolding unless_stopped finish_pipelined
    continue_pipelined answer = unless_stopped answer finish_pipelined

    unfoldable pub run_pipelined : Text → Exec Unit
    unfolding continue_pipelined
    run_pipelined text = process_commands_and_adaptive u env text >>= continue_pipelined

    -- What `_run_pipeline` does with the final segment before it goes on.
    unfoldable pub accept_segment : Text → Exec Unit
    accept_segment text = do
      modify (λ o. record o { current_transcript = some text })
      publish (transcript text)
      result ← transition transcript_event (record no_context { is_final = some true })
      emit_if result.transitioned transcribing result.new_state

    abbrev pub takes_fast_path : Orch → Bool
    takes_fast_path o =
        env.pipelined_cleanup_enabled
        && has_segments o.cleaned_segments
        && not (has_screenshots env)

    -- The loop that awaits the cleanups of segments that are not over.
    abbrev pub await_in_flight : Orch → Orch
    await_in_flight o = record o {
      cleaned_segments = o.cleaned_segments ++ o.in_flight;
      in_flight = [];
    }

    -- Whether there are cleaned segments is tested before the cleanups in flight are awaited.
    unfoldable pub choose_path : Text → Exec Unit
    unfolding run_pipelined run_unified
    choose_path text o =
        if takes_fast_path o then run_pipelined text (await_in_flight o) else run_unified o

    -- Streaming has delivered the final segment.
    unfoldable pub run_streamed : Text → Exec Unit
    unfolding accept_segment choose_path
    run_streamed text = accept_segment text >> choose_path text

    unfoldable pub run_batch : Exec Unit
    unfolding run_unified
    run_batch = run_asr env >> run_unified

    -- The body of the `try` of `_run_pipeline`.
    unfoldable pub pipeline_body : Exec Unit
    unfolding run_streamed run_batch
    pipeline_body o =
        if env.streaming_enabled && o.stream_active
        then elim o.stream_final_segment [ some text ↦ run_streamed text o | none ↦ run_batch o ]
        else run_batch o

    -- `except Exception` and `finally` of `_run_pipeline`.
    unfoldable pub conclude_pipeline : Result (Unit {0}) × Orch → Result (Unit {0}) × Orch
    conclude_pipeline (done x, o) = (done tt, reset_streaming_state o)
    conclude_pipeline (raised, o) =
        (done tt, reset_streaming_state (emit_error Stage.pipeline false o).1)
    conclude_pipeline (stopped, o) = (stopped, reset_streaming_state o)

    unfoldable pub run_pipeline : Exec Unit
    unfolding conclude_pipeline pipeline_body
    run_pipeline o = conclude_pipeline (pipeline_body o)

    -- The state machine is driven to `transcribing` before the pipeline starts.
    unfoldable pub drive_from_idle : Orch → Orch
    drive_from_idle o =
        let ctx : Context = record no_context {
          action = some toggle_recording;
          mode = some toggle;
        } in
        let (s, r) = Machine.transition o.state hotkey ctx in
        let o' = record o { state = s } in
        if state_eq o.state idle then (emit_if r.transitioned idle recording o').1 else o

    unfoldable pub drive_from_recording : Orch → Orch
    drive_from_recording o =
        let (s, r) = Machine.transition o.state duration no_context in
        let o' = record o { state = s } in
        if state_eq o.state recording
        then (emit_if r.transitioned recording r.new_state o').1
        else o

    -- `_on_recording_stopped`; the cancellation of the pipeline is caught.
    unfoldable pub on_recording_stopped : List ℕ → ℕ → ℕ → Orch → Orch
    unfolding drive_from_idle drive_from_recording run_pipeline
    on_recording_stopped audio_bytes sample_rate duration_ms o =
        let o' = record o {
          current_audio_bytes = some audio_bytes;
          current_sample_rate = sample_rate;
          current_duration_ms = duration_ms;
        } in
        (run_pipeline (drive_from_recording (drive_from_idle o'))).1

-- `cancel`, without the cancellation of the running task.
unfoldable pub cancel : Orch → Orch
cancel o =
    let o' = record (reset_streaming_state o) {
      current_audio_bytes = none;
      current_transcript = none;
    } in
    if state_eq o.state idle then o' else record o' { state = idle }

-- The coroutine of `_schedule_error_timeout`, when its sleep is over.
unfoldable pub error_timeout : Orch → Orch
error_timeout o =
    let (s, r) = Machine.transition o.state timeout no_context in
    let o' = (emit_if r.transitioned error idle (record o { state = s })).1 in
    if state_eq o.state error
    then record o' { current_audio_bytes = none; current_transcript = none }
    else o
