-- ===== src/Orchestrator/Pipeline/Failures.antt =====
-- Runs of the pipeline whose providers fail.
use agent_voca.Prelude.{
  ℕ, true, false, Option, none, some, List, [], ◌∷◌, ◌≡◌, arith, refl, ap, ◌∙◌,
}
use agent_voca.Text.{Text, Unicode}
use agent_voca.Orchestrator.{Env, Orch, returned, provider_error, InsertionResult}
use agent_voca.Orchestrator.Steps.Asr.{run_asr, exhaust_asr}
use agent_voca.Orchestrator.Pipeline.{
  correct, text_or_empty, conclude_pipeline, continue_unified, clean_and_insert, finish_unified,
  run_unified, run_batch, pipeline_body, run_pipeline,
}
use agent_voca.Orchestrator.Steps.Commands.{process_commands_and_adaptive}
use agent_voca.Orchestrator.Exec.{Result, done, raised, stopped, after}
use agent_voca.Orchestrator.Steps.Vision.{apply_vision}
use agent_voca.Orchestrator.Steps.Insertion.{run_insertion}
use agent_voca.Orchestrator.Steps.Cleanup.{run_cleanup}

module _ (u : Unicode) (env : Env) where
  exhausted :
      (o : Orch) (audio : List ℕ)
      → ((n : ℕ) (a : List ℕ) (rate : ℕ) → env.transcribe n a rate ≡ provider_error)
      → o.current_audio_bytes ≡ some audio
      → run_asr env o ≡ exhaust_asr o
  unfolding run_asr
  exhausted o audio fail e =
      rw (e, fail 0 audio o.current_sample_rate, fail 1 audio o.current_sample_rate) refl

  -- Without commands and a store of corrections the text goes on as it is.
  pub no_commands :
      (text : Text) (o : Orch)
      → env.commands ≡ none
      → o.adaptive_store ≡ none
      → process_commands_and_adaptive u env text o ≡ (done (false, text), o)
  unfolding process_commands_and_adaptive
  no_commands [] o commands store = rw store refl
  no_commands (c ∷ s) o commands store = rw (store, commands) refl

  pub no_vision :
      (text : Text) (o : Orch)
      → env.vision ≡ none
      → apply_vision u env text o ≡ (done (text, false), o)
  unfolding apply_vision
  no_vision text o vision = rw vision refl

  -- Without a cleanup the raw text is inserted.
  inserts_raw :
      (text : Text) (o : Orch) (result : InsertionResult)
      → env.cleanup_available ≡ false
      → env.insert text ≡ returned result
      → result.success ≡ true
      → (clean_and_insert u env (text, false) o).1.last_transcript ≡ some text
  unfolding clean_and_insert run_cleanup run_insertion
  inserts_raw text o result cleanup insert success = rw (cleanup, insert, success) refl

  -- Without commands, screenshots and a cleanup, the current text is what is inserted.
  run_unified_raw :
      (o : Orch) (result : InsertionResult)
      → env.commands ≡ none
      → env.vision ≡ none
      → o.adaptive_store ≡ none
      → env.cleanup_available ≡ false
      → env.insert (correct u o (text_or_empty o.current_transcript)) ≡ returned result
      → result.success ≡ true
      → (run_unified u env o).1.last_transcript
        ≡ some (correct u o (text_or_empty o.current_transcript))
  unfolding run_unified continue_unified finish_unified
  run_unified_raw o result commands vision store cleanup insert success =
      let text = text_or_empty o.current_transcript in
      let fixed = correct u o text in
      let seen =
        after (apply_vision u env fixed) (clean_and_insert u env) o (no_vision fixed o vision) in
      let spoken =
        after (process_commands_and_adaptive u env text) (continue_unified u env) o
          (no_commands text o commands store) in
      ap (λ (r : Result (Unit {0}) × Orch). r.1.last_transcript) (spoken ∙ seen)
      ∙ inserts_raw fixed o result cleanup insert success

  pub conclude-last_transcript :
      (r : Result (Unit {0}) × Orch) (t : Option Text)
      → r.1.last_transcript ≡ t
      → (conclude_pipeline u env r).1.last_transcript ≡ t
  unfolding conclude_pipeline
  conclude-last_transcript (done x, o) t h = h
  conclude-last_transcript (raised, o) t h = h
  conclude-last_transcript (stopped, o) t h = h

  pub batch_body :
      (o : Orch) → env.streaming_enabled ≡ false → pipeline_body u env o ≡ run_batch u env o
  unfolding pipeline_body
  batch_body o batch = ground arith

  -- When every attempt to transcribe a recording fails, and there are no commands, no screenshots,
  -- no store of corrections and no cleanup, the text left over from the dictation before, corrected
  -- by the vocabulary and the snippets, is inserted once more: it is the last transcript afterwards.
  pub run_pipeline-stale :
      (o : Orch) (audio : List ℕ) (result : InsertionResult)
      → env.streaming_enabled ≡ false
      → o.current_audio_bytes ≡ some audio
      → ((n : ℕ) (a : List ℕ) (rate : ℕ) → env.transcribe n a rate ≡ provider_error)
      → env.commands ≡ none
      → env.vision ≡ none
      → o.adaptive_store ≡ none
      → env.cleanup_available ≡ false
      → env.insert (correct u o (text_or_empty o.current_transcript)) ≡ returned result
      → result.success ≡ true
      → (run_pipeline u env o).1.last_transcript
        ≡ some (correct u o (text_or_empty o.current_transcript))
  unfolding run_pipeline run_batch exhaust_asr conclude_pipeline correct
  run_pipeline-stale o audio result batch bytes fail commands vision store cleanup insert success =
      let failed = exhausted o audio fail bytes in
      let o₁ = (exhaust_asr o).1 in
      let ran = after (run_asr env) (λ _. run_unified u env) o failed in
      conclude-last_transcript (pipeline_body u env o)
        (some (correct u o (text_or_empty o.current_transcript)))
        (ap (λ (r : Result (Unit {0}) × Orch). r.1.last_transcript) (batch_body o batch ∙ ran)
          ∙ run_unified_raw o₁ result commands vision store cleanup insert success)
