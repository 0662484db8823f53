-- ===== src/Orchestrator/Pipeline/Ends.antt =====
-- How a whole run ends, from the stopped recording to the settled machine.
use mathlib.Core.Path.{subst}
use agent_voca.Prelude.{
  Bool, true, false, Option, none, some, [], ◌∷◌, ◌≡◌, ◌⊎◌, ◌&&◌, inl, inr, arith, refl, ◌∙◌,
  Bool-cases, Option-cases,
}
use agent_voca.Text.{Text, Unicode}
use agent_voca.Machine.{transcribing, cleaning}
use agent_voca.Machine.Taken.{transcript_cleans, retries_fail}
use agent_voca.Orchestrator.{Env, Vision, Orch}
use agent_voca.Orchestrator.Exec.{Result, done, bind_done, bind_keeps}
use agent_voca.Orchestrator.Steps.Asr.{run_asr}
use agent_voca.Orchestrator.Steps.Cleanup.{run_cleanup}
use agent_voca.Orchestrator.Steps.Cleanup.Outcome.{run_cleanup-IsFailed}
use agent_voca.Orchestrator.Steps.Commands.{
  process_commands_and_adaptive, check_for_correction, run_commands,
}
use agent_voca.Orchestrator.Steps.Insertion.{run_insertion}
use agent_voca.Orchestrator.Steps.Insertion.Outcome.{IsFailed, run_insertion-IsFailed}
use agent_voca.Orchestrator.Steps.Vision.{apply_vision}
use agent_voca.Orchestrator.Pipeline.{
  correct, clean_and_insert, finish_unified, continue_unified, run_unified, accept_segment,
  choose_path, takes_fast_path, await_in_flight, run_streamed, run_batch, pipeline_body,
  text_or_empty,
}
use agent_voca.Orchestrator.Pipeline.Outcome.{
  IsSettled, IsStopped, run_unified_ends, run_pipelined_ends, extract_all_pure,
}

module _ (u : Unicode) (env : Env) where
  vision-IsFailed_of :
      (v : Option Vision) (text : Text) (o : Orch)
      → env.vision ≡ v
      → IsFailed o
      → IsFailed (apply_vision u env text o).1
  unfolding apply_vision
  vision-IsFailed_of none text o e h = rw e h
  vision-IsFailed_of (some v) text o e h =
      rw e (ground (arith, extract_all_pure u v text v.shots o))

  clean_and_insert-IsFailed :
      (r : Text × Bool) (o : Orch) → IsFailed o → IsFailed (clean_and_insert u env r o).1
  unfolding clean_and_insert
  clean_and_insert-IsFailed (text, force) o h =
      bind_keeps IsFailed (run_cleanup env text force) (run_insertion env) o
        (run_cleanup-IsFailed env text force o h) (run_insertion-IsFailed env)

  finish_unified-IsFailed :
      (text : Text) (o : Orch) → IsFailed o → IsFailed (finish_unified u env text o).1
  unfolding finish_unified
  finish_unified-IsFailed text o h =
      bind_keeps IsFailed (apply_vision u env (correct u o text)) (clean_and_insert u env) o
        (vision-IsFailed_of env.vision (correct u o text) o refl h) clean_and_insert-IsFailed

  continue_unified-IsFailed :
      (answer : Bool × Text) (o : Orch) → IsFailed o → IsFailed (continue_unified u env answer o).1
  unfolding continue_unified
  continue_unified-IsFailed (true, text) o h = h
  continue_unified-IsFailed (false, text) o h = finish_unified-IsFailed text o h

  commands-IsFailed :
      (text : Text) (o : Orch)
      → IsFailed o
      → IsFailed (process_commands_and_adaptive u env text o).1
  unfolding process_commands_and_adaptive check_for_correction run_commands
  commands-IsFailed [] o h = ground arith
  commands-IsFailed (c ∷ s) o h = ground arith

  -- How the body of a run ends that started in transcribing.
  abbrev pub IsEnded : Orch → Orch → Type 0
  IsEnded o o' = (IsSettled u o o' ⊎ IsStopped u env o o') ⊎ IsFailed o'

  accept_segment_moves :
      (text : Text) (o : Orch)
      → o.state ≡ transcribing
      → ((accept_segment u env text o).1.state ≡ cleaning)
        × ((accept_segment u env text o).1.last_transcript ≡ o.last_transcript)
        × ((accept_segment u env text o).1.current_transcript ≡ some text)
  unfolding accept_segment
  accept_segment_moves text o h = ground (arith, transcript_cleans)

  choose_path_ends :
      (text : Text) (o o' : Orch)
      → o.state ≡ cleaning
      → o.current_transcript ≡ some text
      → choose_path u env text o ≡ (done tt, o')
      → IsSettled u o o' ⊎ IsStopped u env o o'
  unfolding choose_path
  choose_path_ends text o o' h read = elim (Bool-cases (takes_fast_path u env o)) [
    | inl fast ↦ rw fast (λ e. run_pipelined_ends u env text (await_in_flight u env o) o' h read e)
    | inr slow ↦ rw slow (λ e. run_unified_ends u env o o' h e)
  ]

  run_asr_ends :
      (o o' : Orch)
      → o.state ≡ transcribing
      → run_asr env o ≡ (done tt, o')
      → ((o'.state ≡ cleaning) × (o'.last_transcript ≡ o.last_transcript)) ⊎ IsFailed o'
  unfolding run_asr
  run_asr_ends o o' h e = ground (arith, transcript_cleans, retries_fail)

  run_unified-IsFailed : (o : Orch) → IsFailed o → IsFailed (run_unified u env o).1
  unfolding run_unified
  run_unified-IsFailed o h =
      let text = text_or_empty o.current_transcript in
      bind_keeps IsFailed (process_commands_and_adaptive u env text) (continue_unified u env) o
        (commands-IsFailed text o h) continue_unified-IsFailed

  IsEnded-back :
      (o o₁ o' : Orch)
      → o₁.last_transcript ≡ o.last_transcript
      → IsSettled u o₁ o' ⊎ IsStopped u env o₁ o'
      → IsEnded o o'
  IsEnded-back o o₁ o' s (inl (inl x)) = inl (inl (inl x))
  IsEnded-back o o₁ o' s (inl (inr x)) = inl (inl (inr (x.0, x.1 ∙ s, x.2)))
  IsEnded-back o o₁ o' s (inr x) = inl (inr (x.0, x.1 ∙ s, x.2))

  run_streamed_ends :
      (text : Text) (o o' : Orch)
      → o.state ≡ transcribing
      → run_streamed u env text o ≡ (done tt, o')
      → IsEnded o o'
  unfolding run_streamed
  run_streamed_ends text o o' h e =
      let m = accept_segment u env text in
      let (_, o₁, e₁, f₁) = bind_done m (λ _. choose_path u env text) o tt o' e in
      let moved = accept_segment_moves text o h in
      let moved₁ : (o₁.state ≡ cleaning)
          × (o₁.last_transcript ≡ o.last_transcript)
          × (o₁.current_transcript ≡ some text) =
        subst
          (λ (x : Result (Unit {0}) × Orch).
            (x.1.state ≡ cleaning)
            × (x.1.last_transcript ≡ o.last_transcript)
            × (x.1.current_transcript ≡ some text))
          e₁ moved in
      IsEnded-back o o₁ o' moved₁.1 (choose_path_ends text o₁ o' moved₁.0 moved₁.2 f₁)

  run_batch_ends :
      (o o' : Orch) → o.state ≡ transcribing → run_batch u env o ≡ (done tt, o') → IsEnded o o'
  unfolding run_batch
  run_batch_ends o o' h e =
      let (_, o₁, e₁, f₁) = bind_done (run_asr env) (λ _. run_unified u env) o tt o' e in
      elim (run_asr_ends o o₁ h e₁) [
        | inl moved ↦ IsEnded-back o o₁ o' moved.1 (run_unified_ends u env o₁ o' moved.0 f₁)
        | inr failed ↦ inr (
            subst (λ (x : Result (Unit {0}) × Orch). IsFailed x.1) f₁
              (run_unified-IsFailed o₁ failed))
      ]

  pub pipeline_body_ends :
      (o o' : Orch) → o.state ≡ transcribing → pipeline_body u env o ≡ (done tt, o') → IsEnded o o'
  unfolding pipeline_body
  pipeline_body_ends o o' h = elim (Bool-cases (env.streaming_enabled && o.stream_active)) [
    | inl on ↦ elim (Option-cases o.stream_final_segment) [
      | inl e ↦ rw (on, e) (run_batch_ends o o' h)
      | inr (text, e) ↦ rw (on, e) (run_streamed_ends text o o' h)
    ]
    | inr off ↦ rw off (run_batch_ends o o' h)
  ]
