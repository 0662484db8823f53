-- ===== src/Whisper/Fallback.antt =====
-- asr/faster_whisper.py: what stays on the CPU once the provider has turned to it. Loading, the warm-up
-- and the batch transcription.
pub mod Passes
pub mod Settled
use mathlib.Core.Path.{subst}
use agent_voca.Prelude.{
  ℕ, zero, suc, ◌+◌, ◌≡◌, ◌≢◌, refl, sym, ap, Bool, true, false, Bool-cases, inl, inr, Option, none,
  some, List, [], ◌∷◌, ◌++◌, if-either, Option-cases, if◌then◌else◌, arith, ◌==◌, ◌&&◌, length, ltb,
}
use agent_voca.Text.{Text, Unicode, codes, is_empty}
use agent_voca.Orchestrator.Streaming.{Segment}
use agent_voca.Whisper.{
  Library, Settings, Provider, Model, Device, Compute, cpu, int8, Inference, heard, inference_error,
  timed_out, Call, Result, done, failed, Failure, asr_error, other_error, timeout_error,
  streaming_device, ◌>>=◌, pure, count_call, ◌>>◌, is_cpu, get_model, load_devices, tries_next,
  devices, load_streaming, load_streaming_model, get_streaming_model, model_size, or_default,
}
use agent_voca.Whisper.Transcribe.{
  use_cpu, frombuffer, language_of, is_cuda_error, run_inference, probe_fails, probe,
  warm_streaming, set_warm, warm_up_models, warm_up, transcribe_samples, transcribe_audio,
  transcribe_bytes, zeros, message, value_error, final_segment,
}
use agent_voca.Whisper.Streaming.{
  Arrival, Streamed, Listening, collect, launch, start_partial, on_arrival, stream_loop,
  attempt_final, is_retried, final_attempts, final_pass, finish_with, end_stream, stream_with,
  stream_transcribe, join_chunks, window_snapshot, min_partial_bytes, partial_segments, final_error,
}

abbrev pub IsCpuModel : Option Model → Type 0
IsCpuModel none = Unit
IsCpuModel (some model) = model.device ≡ cpu

-- The provider has turned to the CPU, and its accurate model, if it is loaded, is there.
abbrev pub IsOnCpu : Provider → Type 0
IsOnCpu p = (p.device ≡ cpu) × IsCpuModel p.model

abbrev pub Keeps : {A : Type 0} → Call A → Type 0
Keeps {A} m = (p : Provider) → IsOnCpu p → IsOnCpu (m p).1

pub >>=-Keeps :
    {A B : Type 0} (m : Call A) (f : A → Call B)
    → Keeps m
    → ((a : A) → Keeps (f a))
    → Keeps (m >>= f)
>>=-Keeps {A} {B} m f k h p c = go (m p) (k p c)
  where
    go :
        (r : Result A × Provider)
        → IsOnCpu r.1
        → IsOnCpu
            (elim r.0 as (λ x. Result B × Provider) [
              | done a ↦ f a r.1
              | failed e ↦ (failed e, r.1)
            ]).1
    go (done a, q) d = h a q d
    go (failed e, q) d = d

module _ (u : Unicode) (lib : Library) (settings : Settings) where
  load_cpu-Keeps :
      (compute : Compute) (err : Text)
      → Keeps (load_devices u lib settings ((cpu, compute) ∷ []) err)
  unfolding load_devices
  load_cpu-Keeps compute err p c =
      elim (Option-cases (lib.load p.calls (model_size u lib settings) cpu compute)) [
        | inl e ↦ rw (e, load_devices) (c.0, refl)
        | inr (t, e) ↦
            rw (e, load_devices)
              (if-either (λ (r : Result Model × Provider). IsOnCpu r.1)
                (tries_next u lib settings cpu t) c c)
      ]

  pub get_model-Keeps : Keeps (get_model u lib settings)
  unfolding get_model devices
  get_model-Keeps p c = elim (Option-cases p.model) [
    | inl e ↦
        rw (e, get_model)
          (subst
            (λ d.
              IsOnCpu
                (load_devices u lib settings (devices u lib settings d p.compute_type)
                  (codes "None") p).1)
            (sym c.0) (load_cpu-Keeps _ (codes "None") p c))
    | inr (m, e) ↦ rw (e, get_model) c
  ]

  load_streaming-Keeps :
      (device : Device) (compute : Compute) → Keeps (load_streaming u lib settings device compute)
  unfolding load_streaming
  load_streaming-Keeps device compute p c =
      elim (Option-cases
        (lib.load p.calls (or_default (codes "base.en") settings.streaming_model) device compute)) [
          | inl e ↦ rw (e, load_streaming) c
          | inr (t, e) ↦ rw (e, load_streaming) c
        ]

  load_streaming_model-Keeps : Keeps (load_streaming_model u lib settings)
  unfolding load_streaming_model
  load_streaming_model-Keeps p c =
      let d = streaming_device u lib settings p.device in
      go (load_streaming u lib settings d.0 d.1 p) (load_streaming-Keeps d.0 d.1 p c)
    where
      go :
          (r : Result Model × Provider)
          → IsOnCpu r.1
          → IsOnCpu
              (elim r.0 as (λ x. Result Model × Provider) [
                | done m ↦ r
                | failed _ ↦ load_streaming u lib settings cpu int8 r.1
              ]).1
      go (done m, q) k = k
      go (failed e, q) k = load_streaming-Keeps cpu int8 q k

  pub get_streaming_model-Keeps : Keeps (get_streaming_model u lib settings)
  unfolding get_streaming_model
  get_streaming_model-Keeps p c = elim (Option-cases p.streaming_model) [
    | inl e ↦ rw (e, get_streaming_model) (load_streaming_model-Keeps p c)
    | inr (m, e) ↦ rw (e, get_streaming_model) c
  ]

  pub run_inference-Keeps :
      (fast : Bool) (model : Model) (audio : List ℕ) (language : Option Text)
      → Keeps (run_inference u lib settings fast model audio language)
  unfolding run_inference
  run_inference-Keeps fast model audio language p c =
      go (lib.infer p.calls fast model audio language)
    where
      go :
          (i : Inference)
          → IsOnCpu
              (elim i as (λ x. Result (List Text × Text) × Provider) [
                | heard texts detected ↦ (done (texts, detected), count_call p)
                | inference_error t ↦ (failed (other_error t), count_call p)
                | timed_out ↦ (failed timeout_error, count_call p)
              ]).1
      go (heard texts detected) = c
      go (inference_error t) = c
      go timed_out = c

  probe-Keeps : (model : Model) → Keeps (probe u lib settings model)
  unfolding probe
  probe-Keeps model p c =
      let r = run_inference u lib settings true model (zeros 19200) none p in
      if-either (λ (x : Result Unit × Provider). IsOnCpu x.1) (probe_fails u lib settings r.0)
        (>>=-Keeps (get_model u lib settings) (λ _. pure tt) get_model-Keeps (λ _ q k. k)
          (record (use_cpu r.1) { streaming_model = none }) (refl, tt))
        (run_inference-Keeps true model (zeros 19200) none p c)

  warm_streaming-Keeps : Keeps (warm_streaming u lib settings)
  unfolding warm_streaming
  warm_streaming-Keeps p c =
      if-either (λ (m : Call Unit). IsOnCpu (m p).1) settings.streaming
        (>>=-Keeps (get_streaming_model u lib settings) (λ _. pure tt) get_streaming_model-Keeps
          (λ _ q k. k) p c)
        c

  warm_up_models-Keeps : Keeps (warm_up_models u lib settings)
  unfolding warm_up_models
  warm_up_models-Keeps =
      let rest : Call Unit = warm_streaming u lib settings >> set_warm u lib settings in
      >>=-Keeps (get_model u lib settings) (λ model. probe u lib settings model >> rest)
        get_model-Keeps
        (λ model.
          >>=-Keeps (probe u lib settings model) (λ _. rest) (probe-Keeps model)
            (λ _.
              >>=-Keeps (warm_streaming u lib settings) (λ _. set_warm u lib settings)
                warm_streaming-Keeps (λ _ q k. k)))

  pub warm_up-Keeps : Keeps (warm_up u lib settings)
  unfolding warm_up
  warm_up-Keeps p c =
      if-either (λ (x : Result Unit × Provider). IsOnCpu x.1) p.warmed_up c
        (warm_up_models-Keeps p c)

  transcribe_samples-Keeps :
      (audio : List ℕ) (language : Option Text) (model : Model)
      → Keeps (transcribe_samples u lib settings audio language model)
  unfolding transcribe_samples
  transcribe_samples-Keeps audio language model p c =
      go (run_inference u lib settings false model audio language p)
        (run_inference-Keeps false model audio language p c)
    where
      go :
          (r : Result (List Text × Text) × Provider)
          → IsOnCpu r.1
          → IsOnCpu
              (elim r.0 as (λ x. Result Segment × Provider) [
                | done heard' ↦ (done (final_segment u lib settings heard'.0 heard'.1), r.1)
                | failed e ↦ (
                  failed (asr_error (codes "Faster-Whisper transcription failed: " ++ message e)),
                  if is_cuda_error u lib settings (message e) then use_cpu r.1 else r.1,
                )
              ]).1
      go (done h, q) k = k
      go (failed e, q) k = if-either IsOnCpu (is_cuda_error u lib settings (message e)) (refl, tt) k

  transcribe_bytes-Keeps :
      (bytes : List ℕ) (language : Option Text) (model : Model)
      → Keeps (transcribe_bytes u lib settings bytes language model)
  unfolding transcribe_bytes
  transcribe_bytes-Keeps bytes language model p c = elim (Option-cases (frombuffer bytes)) [
    | inl e ↦ rw (e, transcribe_bytes) c
    | inr (audio, e) ↦ rw (e, transcribe_bytes) (transcribe_samples-Keeps audio language model p c)
  ]

  pub transcribe_audio-Keeps :
      (bytes : List ℕ) (context : Option (Option Text))
      → Keeps (transcribe_audio u lib settings bytes context)
  unfolding transcribe_audio
  transcribe_audio-Keeps bytes context p c =
      if-either (λ (m : Call Segment). IsOnCpu (m p).1) (is_empty bytes) c
        (>>=-Keeps (get_model u lib settings)
          (transcribe_bytes u lib settings bytes (language_of settings context)) get_model-Keeps
          (transcribe_bytes-Keeps bytes (language_of settings context)) p c)
