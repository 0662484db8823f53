-- ===== src/Whisper/Fallback/Settled.antt =====
-- asr/faster_whisper.py: the turn to the CPU is for good.
use agent_voca.Prelude.{
  ℕ, ◌≡◌, refl, ap, Bool, true, false, Option, some, List, [], ◌∷◌, ◌++◌, arith,
}
use agent_voca.Text.{Text, Unicode, codes, is_empty}
use agent_voca.Orchestrator.Streaming.{Segment}
use agent_voca.Whisper.{
  Library, Settings, Provider, Model, inference_error, Result, failed, asr_error, count_call,
  get_model,
}
use agent_voca.Whisper.Transcribe.{
  use_cpu, frombuffer, language_of, is_cuda_error, run_inference, warm_up, transcribe_samples,
  transcribe_audio, transcribe_bytes,
}
use agent_voca.Whisper.Streaming.{Arrival, stream_transcribe}
use agent_voca.Whisper.Fallback.{IsOnCpu, warm_up-Keeps, transcribe_audio-Keeps}
use agent_voca.Whisper.Fallback.Passes.{stream_transcribe-Keeps}

-- What is called on the provider from outside.
pub data Operation : Type 0 where
  warming : Operation
  transcribing : List ℕ → Option (Option Text) → Operation
  streaming : List Arrival → Bool → ℕ → Option (Option Text) → Operation

module _ (u : Unicode) (lib : Library) (settings : Settings) where
  -- `run` makes the calls one after the other, whatever each of them returns or raises.
  unfoldable pub perform : Operation → Provider → Provider
  unfolding warm_up transcribe_audio stream_transcribe
  perform warming p = (warm_up u lib settings p).1
  perform (transcribing bytes context) p = (transcribe_audio u lib settings bytes context p).1
  perform (streaming l in_time rate context) p =
      (stream_transcribe u lib settings l in_time rate context p).provider

  unfoldable pub run : List Operation → Provider → Provider
  unfolding perform
  run [] p = p
  run (o ∷ l) p = run l (perform o p)

  perform-IsOnCpu : (o : Operation) (p : Provider) → IsOnCpu p → IsOnCpu (perform o p)
  unfolding perform
  perform-IsOnCpu warming p c = warm_up-Keeps u lib settings p c
  perform-IsOnCpu (transcribing bytes context) p c =
      transcribe_audio-Keeps u lib settings bytes context p c
  perform-IsOnCpu (streaming l in_time rate context) p c =
      stream_transcribe-Keeps u lib settings l in_time rate context p c

  run-IsOnCpu : (l : List Operation) (p : Provider) → IsOnCpu p → IsOnCpu (run l p)
  unfolding run
  run-IsOnCpu [] p c = c
  run-IsOnCpu (o ∷ l) p c = run-IsOnCpu l (perform o p) (perform-IsOnCpu o p c)

  module _ (bytes : List ℕ) (context : Option (Option Text)) (p : Provider) where
    -- When the loaded model raises an exception that names CUDA or one of its libraries on a recording
    -- of whole samples: the transcription raises an `ASRError` with its text, and whatever is called
    -- afterwards, in any order and however the libraries answer, the provider stays on the CPU, and
    -- its accurate model is there whenever it is loaded.
    pub transcribe_audio-settles :
        (model : Model) (t : Text) (l : List Operation)
        → is_empty bytes ≡ false
        → frombuffer bytes ≡ some bytes
        → p.model ≡ some model
        → lib.infer p.calls false model bytes (language_of settings context) ≡ inference_error t
        → is_cuda_error u lib settings t ≡ true
        → ((transcribe_audio u lib settings bytes context p).0
            ≡ failed (asr_error (codes "Faster-Whisper transcription failed: " ++ t)))
          × IsOnCpu (run l (transcribe_audio u lib settings bytes context p).1)
    unfolding transcribe_audio transcribe_bytes transcribe_samples run_inference get_model
    transcribe_audio-settles model t l nonempty whole loaded raised names =
        let fails : transcribe_audio u lib settings bytes context p ≡ (
          failed (asr_error (codes "Faster-Whisper transcription failed: " ++ t)),
          use_cpu (count_call p),
        ) =
          ground (arith, nonempty, whole, loaded, raised, names) in
        (
          ap (λ (r : Result Segment × Provider). r.0) fails,
          rw fails (run-IsOnCpu l (use_cpu (count_call p)) (refl, tt)),
        )
