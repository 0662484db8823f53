-- ===== src/Orchestrator/Pipeline/Recording.antt =====
-- A stopped recording, from the event to the settled machine.
use agent_voca.Prelude.{ℕ, true, false, none, some, List, [], ◌≡◌, ◌⊎◌, inl, inr, arith, refl}
use agent_voca.Text.{Unicode}
use agent_voca.Machine.{idle, recording, transcribing}
use agent_voca.Machine.Taken.{toggle_records, duration_stops}
use agent_voca.Orchestrator.{Env, Orch}
use agent_voca.Orchestrator.Exec.{Result, done, raised, stopped}
use agent_voca.Orchestrator.Pipeline.{
  pipeline_body, conclude_pipeline, run_pipeline, drive_from_idle, drive_from_recording,
  on_recording_stopped,
}
use agent_voca.Orchestrator.Pipeline.Ends.{IsEnded, pipeline_body_ends}

-- Nothing of a streamed dictation is left over.
abbrev pub IsReset : Orch → Type 0
IsReset o = (o.stream_active ≡ false) × (o.stream_final_segment ≡ none) × (o.cleaned_segments ≡ [])

module _ (u : Unicode) (env : Env) where
  -- The run ended by itself, an exception was reported and the error timer set, or it was
  -- cancelled.
  abbrev pub IsConcluded : Orch → Result (Unit {0}) × Orch → Type 0
  IsConcluded o r =
      ((r.0 ≡ done tt) × IsEnded u env o r.1)
      ⊎ ((r.0 ≡ done tt) × (r.1.error_timer ≡ true))
      ⊎ (r.0 ≡ stopped)

  conclude_pipeline_ends :
      (o : Orch) (r : Result (Unit {0}) × Orch)
      → ((o' : Orch) → r ≡ (done tt, o') → IsEnded u env o o')
      → IsReset (conclude_pipeline u env r).1 × IsConcluded o (conclude_pipeline u env r)
  unfolding conclude_pipeline
  conclude_pipeline_ends o (done x, o') h = ((refl, refl, refl), inl (refl, h o' refl))
  conclude_pipeline_ends o (raised, o') h = ((refl, refl, refl), inr (inl (refl, refl)))
  conclude_pipeline_ends o (stopped, o') h = ((refl, refl, refl), inr (inr refl))

  -- A run from transcribing always leaves the streaming state reset and never raises. It ends in
  -- one of the four ways of its stages, or with the error timer set after an exception, or
  -- cancelled.
  pub run_pipeline_ends :
      (o : Orch)
      → o.state ≡ transcribing
      → IsReset (run_pipeline u env o).1 × IsConcluded o (run_pipeline u env o)
  unfolding run_pipeline
  run_pipeline_ends o h =
      conclude_pipeline_ends o (pipeline_body u env o) (λ o' e. pipeline_body_ends u env o o' h e)

  drive_moves :
      (o : Orch)
      → (o.state ≡ idle) ⊎ (o.state ≡ recording)
      → let o' = drive_from_recording u env (drive_from_idle u env o) in
        (o'.state ≡ transcribing) × (o'.last_transcript ≡ o.last_transcript)
  unfolding drive_from_recording drive_from_idle
  drive_moves o h = ground (arith, toggle_records, duration_stops)

  -- When a recording stops while the machine is idle or recording, nothing of the streamed
  -- dictation is left over, however the pipeline ends.
  pub on_recording_stopped_ends :
      (audio_bytes : List ℕ) (sample_rate duration_ms : ℕ) (o : Orch)
      → (o.state ≡ idle) ⊎ (o.state ≡ recording)
      → IsReset (on_recording_stopped u env audio_bytes sample_rate duration_ms o)
  unfolding on_recording_stopped
  on_recording_stopped_ends audio_bytes sample_rate duration_ms o h =
      let o1 = record o {
        current_audio_bytes = some audio_bytes;
        current_sample_rate = sample_rate;
        current_duration_ms = duration_ms;
      } in
      let o2 = drive_from_recording u env (drive_from_idle u env o1) in
      (run_pipeline_ends o2 (drive_moves o1 h).0).0
