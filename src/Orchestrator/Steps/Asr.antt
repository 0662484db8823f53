-- ===== src/Orchestrator/Steps/Asr.antt =====
-- `_run_asr`: the batch transcription, with one retry.
use agent_voca.Prelude.{ℕ, zero, suc, ◌+◌, true, false, Option, none, some, List}
use agent_voca.Text.{Text}
use agent_voca.Machine.{
  transcribing, error_event, transcript as transcript_event, asr as asr_stage, no_context,
}
use agent_voca.Orchestrator.{
  Env, returned, provider_error, other_error, cancelled, Stage, timing, transcript,
}
use agent_voca.Orchestrator.Exec.{
  Exec, raised, stopped, ◌>>=◌, ◌>>◌, raise, modify, publish, transition, emit_if, emit_error,
}

-- `_ASR_RETRIES`
abbrev pub asr_retries : ℕ
asr_retries = 1

-- A transcript has arrived.
unfoldable pub accept_transcript : Text → Exec Unit
accept_transcript text = do
  publish (timing Stage.asr)
  publish (transcript text)
  modify (λ o. record o { current_transcript = some text })
  result ← transition transcript_event (record no_context { is_final = some true })
  emit_if result.transitioned transcribing result.new_state

-- Every attempt has failed.
unfoldable pub exhaust_asr : Exec Unit
exhaust_asr = do
  _ ←
      transition error_event
        (record no_context { retries_exhausted = some true; stage = some asr_stage })
  emit_error Stage.asr false

module _ (env : Env) (audio_bytes : List ℕ) (sample_rate : ℕ) where
  -- The loop, with the attempts that are left and the number of this one.
  unfoldable pub asr_attempts : ℕ → ℕ → Exec Unit
  unfolding accept_transcript exhaust_asr
  asr_attempts zero attempt o = exhaust_asr o
  asr_attempts (suc left) attempt o = elim (env.transcribe attempt audio_bytes sample_rate) [
    | returned text ↦ accept_transcript text o
    | provider_error ↦ asr_attempts left (attempt + 1) o
    | other_error ↦ (raised, o)
    | cancelled ↦ (stopped, o)
  ]

module _ (env : Env) where
  unfoldable pub run_asr_on : Option (List ℕ) → ℕ → Exec Unit
  unfolding asr_attempts
  run_asr_on none sample_rate = raise
  run_asr_on (some audio_bytes) sample_rate =
      asr_attempts env audio_bytes sample_rate (1 + asr_retries) 0

  unfoldable pub run_asr : Exec Unit
  unfolding run_asr_on
  run_asr o = run_asr_on o.current_audio_bytes o.current_sample_rate o
