-- ===== src/Whisper/Transcribe.antt =====
-- asr/faster_whisper.py: `warm_up` and `transcribe_audio`.
use agent_voca.Prelude.{
  ℕ, zero, suc, ◌%◌, Bool, true, false, ◌==◌, Option, none, some, List, [], ◌∷◌, ◌++◌, length,
  if◌then◌else◌,
}
use agent_voca.Text.{Text, Unicode, strip, lower, is_empty, codes}
use agent_voca.Orchestrator.Streaming.{Segment}
use agent_voca.Whisper.{
  Library, Settings, Provider, Model, heard, inference_error, timed_out, Call, Result, done, failed,
  Failure, asr_error, other_error, timeout_error, ◌>>=◌, ◌>>◌, pure, count_call, cpu, int8,
  mentions, inference_keywords, get_model, get_streaming_model,
}

-- The reset to the CPU.
abbrev pub use_cpu : Provider → Provider
use_cpu p = record p { model = none; device = cpu; compute_type = int8 }

-- `np.frombuffer(..., dtype=np.float32)`: bytes that are no whole number of samples raise `ValueError`.
unfoldable pub frombuffer : List ℕ → Option (List ℕ)
frombuffer bytes = if length bytes % 4 == 0 then some bytes else none

-- The text of that `ValueError`
abbrev pub value_error : Failure
value_error = other_error (codes "buffer size must be a multiple of element size")

-- `"".join([s.text for s in segments])`
unfoldable pub join_texts : List Text → Text
join_texts [] = []
join_texts (t ∷ l) = t ++ join_texts l

-- `str(e)` of an inference that gives no segments; a timeout has an empty text.
abbrev pub message : Failure → Text
message (asr_error t) = t
message (other_error t) = t
message timeout_error = []

-- `context.language_hint if context else self._config.language_hint`
abbrev pub language_of : Settings → Option (Option Text) → Option Text
language_of settings none = settings.language_hint
language_of settings (some hint) = hint

-- 300 ms of silence at 16000 samples a second
unfoldable pub zeros : ℕ → List ℕ
zeros zero = []
zeros (suc n) = 0 ∷ zeros n

module _ (u : Unicode) (lib : Library) (settings : Settings) where
  -- A final segment of the accurate model.
  abbrev pub final_segment : List Text → Text → Segment
  final_segment texts language = record {
    text = strip u (join_texts texts);
    is_final = true;
    language_detected = some language;
  }

  unfoldable pub is_cuda_error : Text → Bool
  unfolding mentions inference_keywords
  is_cuda_error t = mentions inference_keywords (lower u t)

  -- The inference of a model, as a call that raises.
  unfoldable pub run_inference : Bool → Model → List ℕ → Option Text → Call (List Text × Text)
  run_inference fast model audio language p = elim (lib.infer p.calls fast model audio language) [
    | heard texts language' ↦ (done (texts, language'), count_call p)
    | inference_error t ↦ (failed (other_error t), count_call p)
    | timed_out ↦ (failed timeout_error, count_call p)
  ]

  -- The probe of `warm_up`: whether it makes the provider turn to the CPU.
  unfoldable pub probe_fails : Result (List Text × Text) → Bool
  unfolding is_cuda_error
  probe_fails (done _) = false
  probe_fails (failed timeout_error) = true
  probe_fails (failed (asr_error t)) = is_cuda_error t
  probe_fails (failed (other_error t)) = is_cuda_error t

  unfoldable pub probe : Model → Call Unit
  unfolding run_inference probe_fails zeros get_model
  probe model p =
      let (r, p') = run_inference true model (zeros 19200) none p in
      if probe_fails r
      then (get_model u lib settings >>= λ _. pure tt)
          (record (use_cpu p') { streaming_model = none })
      else (done tt, p')

  -- The streaming model is loaded too, on the device that the probe has left.
  unfoldable pub warm_streaming : Call Unit
  unfolding get_streaming_model
  warm_streaming =
      if settings.streaming then (get_streaming_model u lib settings >>= λ _. pure tt) else pure tt

  abbrev pub set_warm : Call Unit
  set_warm p = (done tt, record p { warmed_up = true })

  -- `warm_up`, from the test of `_warmed_up` on
  unfoldable pub warm_up_models : Call Unit
  unfolding get_model warm_streaming probe
  warm_up_models = do model ← get_model u lib settings; probe model; warm_streaming; set_warm

  unfoldable pub warm_up : Call Unit
  unfolding warm_up_models
  warm_up p = if p.warmed_up then (done tt, p) else warm_up_models p

  -- The inference of `transcribe_audio`, with its handler.
  unfoldable pub transcribe_samples : List ℕ → Option Text → Model → Call Segment
  unfolding run_inference is_cuda_error
  transcribe_samples audio language model p =
      let (r, p') = run_inference false model audio language p in
      elim r [
        | done heard' ↦ (done (final_segment heard'.0 heard'.1), p')
        | failed e ↦ (
          failed (asr_error (codes "Faster-Whisper transcription failed: " ++ message e)),
          if is_cuda_error (message e) then use_cpu p' else p',
        )
      ]

  -- The bytes, read as samples once the model is there.
  unfoldable pub transcribe_bytes : List ℕ → Option Text → Model → Call Segment
  unfolding transcribe_samples frombuffer
  transcribe_bytes bytes language model = elim (frombuffer bytes) [
    | none ↦ λ p. (failed value_error, p)
    | some audio ↦ transcribe_samples audio language model
  ]

  -- `transcribe_audio`
  unfoldable pub transcribe_audio : List ℕ → Option (Option Text) → Call Segment
  unfolding get_model transcribe_bytes
  transcribe_audio bytes context =
      if is_empty bytes
      then pure (record { text = []; is_final = true; language_detected = none })
      else (get_model u lib settings >>= transcribe_bytes bytes (language_of settings context))
