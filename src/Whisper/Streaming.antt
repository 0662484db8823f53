-- ===== src/Whisper/Streaming.antt =====
-- asr/faster_whisper.py: `stream_transcribe`. The chunks arrive one after the other; with each one the
-- environment says whether the partial transcription that is running is over.
pub mod Read
pub mod Closed
use agent_voca.Prelude.{
  ℕ, zero, suc, ◌+◌, ◌-◌, ◌*◌, ◌/◌, Bool, true, false, ◌&&◌, ◌==◌, Option, none, some, List, [],
  ◌∷◌, ◌++◌, length, drop, ltb, if◌then◌else◌,
}
use agent_voca.Text.{Text, Unicode, strip, is_empty, codes}
use agent_voca.Orchestrator.Streaming.{Segment}
use agent_voca.Whisper.{
  Library, Settings, Provider, Model, Inference, heard, inference_error, timed_out, Call, Result,
  done, failed, Failure, asr_error, other_error, timeout_error, ◌>>=◌, ◌>>◌, pure, count_call,
  get_model, get_streaming_model,
}
use agent_voca.Whisper.Transcribe.{
  use_cpu, frombuffer, value_error, join_texts, message, language_of, final_segment, is_cuda_error,
  run_inference, transcribe_audio,
}

-- A chunk, and whether a running partial transcription is done when it comes.
pub record Arrival : Type 0 where
  pub chunk : List ℕ
  pub is_done : Bool

-- What a call yields, the exception that ends it, and the fields behind it.
pub record Streamed : Type 0 where
  pub yields : List Segment
  pub failure : Option Failure
  pub provider : Provider

-- `full_buffer`, `_partial_fut` with what it will give, and what was yielded.
pub record Listening : Type 0 where
  pub buffer : List ℕ
  pub pending : Option Inference
  pub yields : List Segment
  pub provider : Provider

-- `mv[-n:]`
abbrev pub take_last : ℕ → List ℕ → List ℕ
take_last n l = if n == 0 then l else drop (length l - n) l

-- `_window_snapshot`, before its bytes are read as samples
unfoldable pub window_snapshot : List ℕ → ℕ → ℕ → List ℕ
window_snapshot buffer window_s sample_rate =
    let window_bytes = window_s * sample_rate * 4 in
    if ltb 0 window_s && ltb window_bytes (length buffer)
    then take_last window_bytes buffer
    else buffer

-- `int(0.5 * sample_rate) * 4`
abbrev pub min_partial_bytes : ℕ → ℕ
min_partial_bytes sample_rate = (sample_rate / 2) * 4

-- `b"".join` of the chunks
unfoldable pub join_chunks : List Arrival → List ℕ
join_chunks [] = []
join_chunks (a ∷ l) = a.chunk ++ join_chunks l

module _ (u : Unicode) (lib : Library) (settings : Settings) where
  -- What a partial transcription that is over yields; its exceptions are dropped.
  unfoldable pub partial_segments : Option Inference → List Segment
  unfolding join_texts strip
  partial_segments none = []
  partial_segments (some (inference_error t)) = []
  partial_segments (some timed_out) = []
  partial_segments (some (heard texts language)) =
      let text = strip u (join_texts texts) in
      if is_empty text
      then []
      else record { text = text; is_final = false; language_detected = none } ∷ []

  -- `if _partial_fut is not None and _partial_fut.done()`
  unfoldable pub collect : Bool → Listening → Listening
  unfolding partial_segments
  collect is_done s =
      if is_done
      then record s { yields = s.yields ++ partial_segments s.pending; pending = none }
      else s

  module _ (sample_rate : ℕ) (language : Option Text) where
    -- A new partial transcription of the window.
    unfoldable pub launch : Model → Listening → Option Failure × Listening
    unfolding window_snapshot
    launch model s =
        elim (frombuffer (window_snapshot s.buffer settings.streaming_window_s sample_rate)) [
          | none ↦ (some value_error, s)
          | some audio ↦ (
            none,
            record s {
              pending = some (lib.infer s.provider.calls true model audio language);
              provider = count_call s.provider;
            },
          )
        ]

    -- A new one only when no other is running.
    unfoldable pub start_partial : Model → Listening → Option Failure × Listening
    unfolding launch
    start_partial model s = elim s.pending [ some _ ↦ (none, s) | none ↦ launch model s ]

    -- The body of the loop over the chunks.
    unfoldable pub on_arrival : Model → Arrival → Listening → Option Failure × Listening
    unfolding start_partial collect
    on_arrival model a s =
        let s' = record s { buffer = s.buffer ++ a.chunk } in
        if ltb (length s'.buffer) (min_partial_bytes sample_rate)
        then (none, s')
        else start_partial model (collect a.is_done s')

    unfoldable pub stream_loop : Model → List Arrival → Listening → Option Failure × Listening
    unfolding on_arrival
    stream_loop model [] s = (none, s)
    stream_loop model (a ∷ l) s =
        let r = on_arrival model a s in
        elim r.0 [ some e ↦ (some e, r.1) | none ↦ stream_loop model l r.1 ]

    -- One accurate pass.
    unfoldable pub attempt_final : List ℕ → Call Segment
    unfolding get_model run_inference
    attempt_final audio = do
      model ← get_model u lib settings
      result ← run_inference u lib settings false model audio language
      pure (final_segment u lib settings result.0 result.1)

    -- The exceptions after which the first attempt is followed by another one on the CPU.
    unfoldable pub is_retried : Failure → Bool
    unfolding is_cuda_error
    is_retried timeout_error = true
    is_retried (asr_error t) = is_cuda_error u lib settings t
    is_retried (other_error t) = is_cuda_error u lib settings t

    abbrev pub final_error : Failure → Failure
    final_error timeout_error = asr_error (codes "Faster-Whisper final transcription timed out.")
    final_error e = asr_error (codes "Faster-Whisper final transcription failed: " ++ message e)

    -- The loop, with the attempts that are left and the number of this one; behind the last one it
    -- would end with no segment.
    unfoldable pub final_attempts : ℕ → ℕ → List ℕ → Call (List Segment)
    unfolding attempt_final is_retried
    final_attempts zero attempt audio p = (done [], p)
    final_attempts (suc left) attempt audio p =
        let r = attempt_final audio p in
        let again = final_attempts left (attempt + 1) audio (use_cpu r.1) in
        elim r.0 [
          | done segment ↦ (done (segment ∷ []), r.1)
          | failed e ↦ if is_retried e && attempt == 0 then again else (failed (final_error e), r.1)
        ]

    -- From the end of the stream on.
    unfoldable pub final_pass : List ℕ → Call (List Segment)
    unfolding final_attempts
    final_pass [] = pure (record { text = []; is_final = true; language_detected = none } ∷ [])
    final_pass (b ∷ bs) = elim (frombuffer (b ∷ bs)) [
      | none ↦ λ p. (failed value_error, p)
      | some audio ↦ final_attempts 2 0 audio
    ]

  -- What a method adds to what was yielded.
  abbrev pub finish_with : List Segment → Result (List Segment) × Provider → Streamed
  finish_with yields (done segments, p) = record {
    yields = yields ++ segments;
    failure = none;
    provider = p;
  }
  finish_with yields (failed e, p) = record { yields = yields; failure = some e; provider = p }

  -- Behind the loop: a pending partial transcription counts when it ends in time.
  unfoldable pub end_stream : ℕ → Option Text → Bool → Option Failure × Listening → Streamed
  unfolding final_pass partial_segments
  end_stream sample_rate language in_time (some e, s) = record {
    yields = s.yields;
    failure = some e;
    provider = s.provider;
  }
  end_stream sample_rate language in_time (none, s) =
      finish_with (s.yields ++ (if in_time then partial_segments s.pending else []))
        (final_pass sample_rate language s.buffer s.provider)

  unfoldable pub stream_with :
      List Arrival → Bool → ℕ → Option Text → Result {0} Model × Provider → Streamed
  unfolding end_stream stream_loop
  stream_with l in_time sample_rate language (failed e, p) = record {
    yields = [];
    failure = some e;
    provider = p;
  }
  stream_with l in_time sample_rate language (done model, p) =
      let s : Listening = record { buffer = []; pending = none; yields = []; provider = p } in
      end_stream sample_rate language in_time (stream_loop sample_rate language model l s)

  -- `stream_transcribe`; without streaming the chunks are transcribed as one recording.
  unfoldable pub stream_transcribe :
      List Arrival → Bool → ℕ → Option (Option Text) → Provider → Streamed
  unfolding stream_with transcribe_audio get_streaming_model join_chunks
  stream_transcribe l in_time sample_rate context p =
      if settings.streaming
      then stream_with l in_time sample_rate (language_of settings context)
          (get_streaming_model u lib settings p)
      else finish_with [] (
          (transcribe_audio u lib settings (join_chunks l) context >>= λ segment.
          pure (segment ∷ []))
            p)
