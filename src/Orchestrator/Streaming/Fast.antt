-- ===== src/Orchestrator/Streaming/Fast.antt =====
-- The fast path of the pipelined cleanup.
use agent_voca.Prelude.{
  if◌then◌else◌, true, false, none, some, List, [], ◌∷◌, ◌++◌, ◌≡◌, refl, ap, ◌∙◌, arith,
}
use agent_voca.Text.{Text, Unicode}
use agent_voca.Orchestrator.{Env, Orch, CleanupContext, returned, InsertionResult}
use agent_voca.Orchestrator.Exec.{Result, done, after}
use agent_voca.Orchestrator.Steps.Cleanup.{
  run_cleanup, resolve_context, cleanup_context, accept_cleaned, cleanup_attempts,
}
use agent_voca.Orchestrator.Steps.Commands.{process_commands_and_adaptive}
use agent_voca.Orchestrator.Steps.Insertion.{run_insertion}
use agent_voca.Orchestrator.Pipeline.{
  has_segments, await_in_flight, has_screenshots, takes_fast_path, run_unified, correct,
  join_spaced, join_and_insert, finish_pipelined, continue_pipelined, run_pipelined, unless_stopped,
  accept_segment, choose_path, run_streamed, pipeline_body, run_pipeline,
}
use agent_voca.Orchestrator.Pipeline.Failures.{no_commands, conclude-last_transcript}
use agent_voca.Orchestrator.Pipeline.Success.{correct_same}

module _ (u : Unicode) (env : Env) where
  cleaned :
      (o : Orch) (text trailing : Text)
      → env.cleanup_available ≡ true
      → ((context : CleanupContext) → env.rewrite 0 text context ≡ returned trailing)
      → run_cleanup env text false o ≡ accept_cleaned env trailing (resolve_context env o)
  unfolding run_cleanup cleanup_attempts
  cleaned o text trailing available rewrite =
      simp (available, rewrite (cleanup_context env false (resolve_context env o)))

  -- A cleanup that succeeds leaves what the joining reads.
  accept_cleaned-keeps :
      (o : Orch) (trailing : Text)
      → let r = accept_cleaned env trailing (resolve_context env o) in
        (r.0 ≡ done trailing)
        × (r.1.cleaned_segments ≡ o.cleaned_segments)
        × (r.1.vocab ≡ o.vocab)
        × (r.1.snippets ≡ o.snippets)
  unfolding accept_cleaned resolve_context
  accept_cleaned-keeps o trailing = ground arith

  inserted :
      (text : Text) (o : Orch) (result : InsertionResult)
      → env.insert text ≡ returned result
      → result.success ≡ true
      → (run_insertion env text o).1.last_transcript ≡ some text
  unfolding run_insertion
  inserted text o result insert success = rw (insert, success) refl

  finish_pipelined-inserts :
      (o : Orch) (text trailing : Text) (segments : List Text) (result : InsertionResult)
      → o.cleaned_segments ≡ segments
      → env.cleanup_available ≡ true
      → ((context : CleanupContext) → env.rewrite 0 text context ≡ returned trailing)
      → let joined = correct u o (join_spaced (segments ++ trailing ∷ [])) in
        env.insert joined ≡ returned result
        → result.success ≡ true
        → (finish_pipelined u env text o).1.last_transcript ≡ some joined
  unfolding finish_pipelined join_and_insert
  finish_pipelined-inserts o text trailing segments result kept available rewrite insert success =
      let r = accept_cleaned env trailing (resolve_context env o) in
      let keeps = accept_cleaned-keeps o trailing in
      let joined = correct u o (join_spaced (segments ++ trailing ∷ [])) in
      let runs : run_cleanup env text false o ≡ (done trailing, r.1) =
        cleaned o text trailing available rewrite ∙ ap (λ (x : Result Text). (x, r.1)) keeps.0 in
      let same : correct u r.1 (join_spaced (r.1.cleaned_segments ++ trailing ∷ [])) ≡ joined =
        correct_same u env o r.1 (join_spaced (r.1.cleaned_segments ++ trailing ∷ [])) keeps.2
          keeps.3
        ∙ ap (λ l. correct u o (join_spaced (l ++ trailing ∷ []))) (keeps.1 ∙ kept) in
      ap (λ (x : Result (Unit {0}) × Orch). x.1.last_transcript)
        (after (run_cleanup env text false) (join_and_insert u env) o runs
          ∙ ap (λ t. run_insertion env t r.1) same)
      ∙ inserted joined r.1 result insert success

  pipelined :
      (o : Orch) (text : Text)
      → env.commands ≡ none
      → o.adaptive_store ≡ none
      → run_pipelined u env text o ≡ finish_pipelined u env text o
  unfolding run_pipelined continue_pipelined unless_stopped
  pipelined o text commands store =
      after (process_commands_and_adaptive u env text) (continue_pipelined u env) o
        (no_commands u env text o commands store)

  accept_segment-keeps :
      (o : Orch) (text : Text)
      → let r = accept_segment u env text o in
        (r.0 ≡ done tt)
        × (r.1.cleaned_segments ≡ o.cleaned_segments)
        × (r.1.in_flight ≡ o.in_flight)
        × (r.1.adaptive_store ≡ o.adaptive_store)
        × (r.1.vocab ≡ o.vocab)
        × (r.1.snippets ≡ o.snippets)
  unfolding accept_segment
  accept_segment-keeps o text = ground arith

  fast_path :
      (o : Orch) (text : Text)
      → env.pipelined_cleanup_enabled ≡ true
      → env.vision ≡ none
      → has_segments o.cleaned_segments ≡ true
      → choose_path u env text o ≡ run_pipelined u env text (await_in_flight u env o)
  unfolding choose_path
  fast_path o text pipelined_on vision cleaned =
      let taken : takes_fast_path u env o ≡ true =
        simp (pipelined_on, has_screenshots, vision, cleaned) in
      ap
        (λ b. if b then run_pipelined u env text (await_in_flight u env o) else run_unified u env o)
        taken

  streamed_body :
      (o : Orch) (text : Text)
      → env.streaming_enabled ≡ true
      → o.stream_active ≡ true
      → o.stream_final_segment ≡ some text
      → pipeline_body u env o ≡ run_streamed u env text o
  unfolding pipeline_body
  streamed_body o text streaming active final = simp (streaming, active, final)

  -- From the end of a stream on, with some cleanups over and others in flight.
  pub run_pipeline-joins :
      (o : Orch) (text trailing : Text) (segments : List Text) (result : InsertionResult)
      → env.streaming_enabled ≡ true
      → env.pipelined_cleanup_enabled ≡ true
      → o.stream_active ≡ true
      → o.stream_final_segment ≡ some text
      → has_segments o.cleaned_segments ≡ true
      → o.cleaned_segments ++ o.in_flight ≡ segments
      → env.commands ≡ none
      → env.vision ≡ none
      → o.adaptive_store ≡ none
      → env.cleanup_available ≡ true
      → ((context : CleanupContext) → env.rewrite 0 text context ≡ returned trailing)
      → let joined = correct u o (join_spaced (segments ++ trailing ∷ [])) in
        env.insert joined ≡ returned result
        → result.success ≡ true
        → (run_pipeline u env o).1.last_transcript ≡ some joined
  unfolding run_pipeline run_streamed
  run_pipeline-joins o text trailing segments result streaming pipelined_on active final over kept
        commands vision store available rewrite insert success =
      let o1 = (accept_segment u env text o).1 in
      let keeps = accept_segment-keeps o text in
      let accepted : accept_segment u env text o ≡ (done tt, o1) =
        ap (λ (x : Result (Unit {0})). (x, o1)) keeps.0 in
      let o2 = await_in_flight u env o1 in
      let kept2 : o2.cleaned_segments ≡ segments =
        ap (λ l. l ++ o1.in_flight) keeps.1 ∙ ap (λ l. o.cleaned_segments ++ l) keeps.2 ∙ kept in
      let all = join_spaced (segments ++ trailing ∷ []) in
      let same : correct u o2 all ≡ correct u o all = correct_same u env o o2 all keeps.4 keeps.5 in
      conclude-last_transcript u env (pipeline_body u env o) (some (correct u o all)) (
        ap (λ (x : Result (Unit {0}) × Orch). x.1.last_transcript)
          (streamed_body o text streaming active final
            ∙ after (accept_segment u env text) (λ _. choose_path u env text) o accepted
            ∙ fast_path o1 text pipelined_on vision (ap has_segments keeps.1 ∙ over)
            ∙ pipelined o2 text commands (keeps.3 ∙ store))
        ∙ finish_pipelined-inserts o2 text trailing segments result kept2 available rewrite
            (ap env.insert same ∙ insert) success
        ∙ ap some same)
