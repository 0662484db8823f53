-- ===== src/Whisper/Fallback/Passes.antt =====
-- asr/faster_whisper.py: the streamed transcription stays on the CPU too.
use agent_voca.Prelude.{
  ℕ, zero, suc, ◌+◌, refl, Bool, true, false, inl, inr, Option, none, some, List, [], ◌∷◌, ◌++◌,
  if-either, Option-cases, if◌then◌else◌, ◌==◌, ◌&&◌, length, ltb,
}
use agent_voca.Text.{Text, Unicode}
use agent_voca.Orchestrator.Streaming.{Segment}
use agent_voca.Whisper.{
  Library, Settings, Provider, Model, Inference, Result, done, failed, Failure, ◌>>=◌, pure,
  count_call, get_model, get_streaming_model,
}
use agent_voca.Whisper.Transcribe.{
  use_cpu, frombuffer, language_of, run_inference, transcribe_audio, value_error, final_segment,
}
use agent_voca.Whisper.Streaming.{
  Arrival, Streamed, Listening, collect, launch, start_partial, on_arrival, stream_loop,
  attempt_final, is_retried, final_attempts, final_pass, finish_with, end_stream, stream_with,
  stream_transcribe, join_chunks, window_snapshot, min_partial_bytes, final_error,
}
use agent_voca.Whisper.Fallback.{
  IsOnCpu, Keeps, >>=-Keeps, get_model-Keeps, get_streaming_model-Keeps, run_inference-Keeps,
  transcribe_audio-Keeps,
}

module _ (u : Unicode) (lib : Library) (settings : Settings) where
  module _ (rate : ℕ) (language : Option Text) where
    on_arrival-Keeps :
        (model : Model) (a : Arrival) (s : Listening)
        → IsOnCpu s.provider
        → IsOnCpu (on_arrival u lib settings rate language model a s).1.provider
    unfolding on_arrival start_partial launch collect
    on_arrival-Keeps model a s c =
        let s' : Listening = record s { buffer = s.buffer ++ a.chunk } in
        if-either (λ (r : Option Failure × Listening). IsOnCpu r.1.provider)
          (ltb (length s'.buffer) (min_partial_bytes rate)) c
          (starts (collect u lib settings a.is_done s')
            (if-either (λ (t : Listening). IsOnCpu t.provider) a.is_done c c))
      where
        launches :
            (o : Option (List ℕ)) (t : Listening)
            → IsOnCpu t.provider
            → IsOnCpu
                (elim o as (λ x. Option Failure × Listening) [
                  | none ↦ (some value_error, t)
                  | some audio ↦ (
                    none,
                    record t {
                      pending = some (lib.infer t.provider.calls true model audio language);
                      provider = count_call t.provider;
                    },
                  )
                ]).1.provider
        launches none t k = k
        launches (some audio) t k = k

        starts_with_pending :
            (o : Option Inference) (t : Listening)
            → IsOnCpu t.provider
            → IsOnCpu
                (elim o as (λ x. Option Failure × Listening) [
                  | some _ ↦ (none, t)
                  | none ↦ launch u lib settings rate language model t
                ]).1.provider
        starts_with_pending (some i) t k = k
        starts_with_pending none t k =
            launches (frombuffer (window_snapshot t.buffer settings.streaming_window_s rate)) t k

        starts :
            (t : Listening)
            → IsOnCpu t.provider
            → IsOnCpu (start_partial u lib settings rate language model t).1.provider
        starts t k = starts_with_pending t.pending t k

    stream_loop-Keeps :
        (model : Model) (l : List Arrival) (s : Listening)
        → IsOnCpu s.provider
        → IsOnCpu (stream_loop u lib settings rate language model l s).1.provider
    unfolding stream_loop
    stream_loop-Keeps model [] s c = c
    stream_loop-Keeps model (a ∷ l) s c =
        go (on_arrival u lib settings rate language model a s) (on_arrival-Keeps model a s c)
          (stream_loop-Keeps model l)
      where
        go :
            (r : Option Failure × Listening)
            → IsOnCpu r.1.provider
            → ((t : Listening)
                → IsOnCpu t.provider
                → IsOnCpu (stream_loop u lib settings rate language model l t).1.provider)
            → IsOnCpu
                (elim r.0 as (λ x. Option Failure × Listening) [
                  | some e ↦ (some e, r.1)
                  | none ↦ stream_loop u lib settings rate language model l r.1
                ]).1.provider
        go (some e, t) k ih = k
        go (none, t) k ih = ih t k

    attempt_final-Keeps :
        (audio : List ℕ) → Keeps (attempt_final u lib settings rate language audio)
    unfolding attempt_final
    attempt_final-Keeps audio =
        let last = λ (r : List Text × Text). pure (final_segment u lib settings r.0 r.1) in
        >>=-Keeps (get_model u lib settings)
          (λ model. run_inference u lib settings false model audio language >>= last)
          (get_model-Keeps u lib settings)
          (λ model.
            >>=-Keeps (run_inference u lib settings false model audio language) last
              (run_inference-Keeps u lib settings false model audio language) (λ _ q k. k))

    final_attempts-Keeps :
        (left attempt : ℕ) (audio : List ℕ)
        → Keeps (final_attempts u lib settings rate language left attempt audio)
    unfolding final_attempts
    final_attempts-Keeps zero attempt audio p c = c
    final_attempts-Keeps (suc left) attempt audio p c =
        let r = attempt_final u lib settings rate language audio p in
        go r (attempt_final-Keeps audio p c)
          (final_attempts-Keeps left (attempt + 1) audio (use_cpu r.1) (refl, tt))
      where
        go :
            (r : Result Segment × Provider)
            → IsOnCpu r.1
            → IsOnCpu
                (final_attempts u lib settings rate language left
                  (attempt + 1)
                  audio
                  (use_cpu r.1)).1
            → IsOnCpu
                (elim r.0 as (λ x. Result (List Segment) × Provider) [
                  | done segment ↦ (done (segment ∷ []), r.1)
                  | failed e ↦
                      if is_retried u lib settings rate language e && attempt == 0
                      then final_attempts u lib settings rate language left
                          (attempt + 1)
                          audio
                          (use_cpu r.1)
                      else (failed (final_error u lib settings rate language e), r.1)
                ]).1
        go (done segment, q) k again = k
        go (failed e, q) k again =
            if-either (λ (x : Result (List Segment) × Provider). IsOnCpu x.1)
              (is_retried u lib settings rate language e && attempt == 0) again k

    final_pass-Keeps : (audio : List ℕ) → Keeps (final_pass u lib settings rate language audio)
    unfolding final_pass
    final_pass-Keeps [] p c = c
    final_pass-Keeps (b ∷ bs) p c = elim (Option-cases (frombuffer (b ∷ bs))) [
      | inl e ↦ rw (e, final_pass) c
      | inr (audio, e) ↦ rw (e, final_pass) (final_attempts-Keeps 2 0 audio p c)
    ]

    finish_with-Keeps :
        (yields : List Segment) (r : Result (List Segment) × Provider)
        → IsOnCpu r.1
        → IsOnCpu (finish_with u lib settings yields r).provider
    finish_with-Keeps yields (done l, p) c = c
    finish_with-Keeps yields (failed e, p) c = c

    end_stream-Keeps :
        (in_time : Bool) (r : Option Failure × Listening)
        → IsOnCpu r.1.provider
        → IsOnCpu (end_stream u lib settings rate language in_time r).provider
    unfolding end_stream
    end_stream-Keeps in_time (some e, s) c = c
    end_stream-Keeps in_time (none, s) c =
        finish_with-Keeps _ (final_pass u lib settings rate language s.buffer s.provider)
          (final_pass-Keeps s.buffer s.provider c)

    stream_with-Keeps :
        (l : List Arrival) (in_time : Bool) (r : Result {0} Model × Provider)
        → IsOnCpu r.1
        → IsOnCpu (stream_with u lib settings l in_time rate language r).provider
    unfolding stream_with
    stream_with-Keeps l in_time (failed e, p) c = c
    stream_with-Keeps l in_time (done model, p) c =
        let s : Listening = record { buffer = []; pending = none; yields = []; provider = p } in
        end_stream-Keeps in_time (stream_loop u lib settings rate language model l s)
          (stream_loop-Keeps model l s c)

  pub stream_transcribe-Keeps :
      (l : List Arrival) (in_time : Bool) (rate : ℕ) (context : Option (Option Text)) (p : Provider)
      → IsOnCpu p
      → IsOnCpu (stream_transcribe u lib settings l in_time rate context p).provider
  unfolding stream_transcribe
  stream_transcribe-Keeps l in_time rate context p c =
      if-either (λ (r : Streamed). IsOnCpu r.provider) settings.streaming
        (stream_with-Keeps rate (language_of settings context) l in_time
          (get_streaming_model u lib settings p) (get_streaming_model-Keeps u lib settings p c))
        (finish_with-Keeps rate none [] _ (
          >>=-Keeps (transcribe_audio u lib settings (join_chunks l) context)
            (λ segment. pure (segment ∷ []))
            (transcribe_audio-Keeps u lib settings (join_chunks l) context) (λ _ q k. k) p c))
