-- ===== src/Orchestrator/Streaming.antt =====
-- core/orchestrator.py: the streamed dictation (`_on_audio_chunk`, `_run_streaming_asr`) and the cleanup
-- of its segments while the user speaks (`_on_segment_finalized`, `_clean_segment`).
pub mod Fed
pub mod Segments
pub mod Fast
pub mod Repeated
use agent_voca.Prelude.{
  ℕ, suc, Bool, true, false, not, ◌&&◌, Option, none, some, List, [], ◌∷◌, ◌++◌, if◌then◌else◌,
}
use agent_voca.Text.{Text, Unicode, strip, is_empty}
use agent_voca.Orchestrator.{
  Env, Orch, Answer, returned, provider_error, other_error, cancelled, CleanupContext,
}
use agent_voca.Chunker.{AudioChunk}
use agent_voca.Orchestrator.Pipeline.{reset_streaming_state}

-- `TranscriptSegment`, with what the orchestrator reads of it
pub record Segment : Type 0 where
  pub text : Text
  pub is_final : Bool
  pub language_detected : Option Text

-- `PartialTranscriptEvent` and `SegmentFinalizedEvent`
pub data StreamEvent : Type 0 where
  partial : Text → StreamEvent
  finalized : Text → ℕ → StreamEvent

-- The streaming fields of `Orchestrator` beside those of `Orch`; `none` in the queue is `_STREAM_END`.
-- `languages` are the updates of the language resolver, `cleanup_tasks` the texts and the indices of
-- the segments whose cleanup was started, those that are over included.
pub record Stream : Type 0 where
  pub orch : Orch
  pub queue : List (Option (List ℕ))
  pub final_ready : Bool
  pub cleanup_tasks : List (Text × ℕ)
  pub languages : List Text
  pub events : List StreamEvent

abbrev pub put : Option (List ℕ) → Stream → Stream
put item s = record s { queue = s.queue ++ item ∷ [] }

-- `if event.data`
unfoldable pub put_data : List ℕ → Stream → Stream
put_data [] s = s
put_data (b ∷ bs) s = put (some (b ∷ bs)) s

-- `_on_audio_chunk`, with the sample rate of the event
unfoldable pub on_audio_chunk : Bool → ℕ → AudioChunk → Stream → Stream
unfolding put_data
on_audio_chunk streaming_enabled sample_rate event s =
    if not streaming_enabled
    then s
    else if event.is_flush
    then put none (put_data event.data_bytes s)
    else let started = if s.orch.stream_active then s else record s {
      orch = record s.orch { current_sample_rate = sample_rate; stream_active = true };
    } in
      put (some event.data_bytes) started

-- `audio_chunk_iter`, over what the queue holds: the chunks in front of the end, and what is left.
unfoldable pub audio_chunk_iter : List (Option (List ℕ)) → List (List ℕ) × List (Option (List ℕ))
audio_chunk_iter [] = ([], [])
audio_chunk_iter (none ∷ queue) = ([], queue)
audio_chunk_iter (some bytes ∷ queue) =
    let (chunks, rest) = audio_chunk_iter queue in (bytes ∷ chunks, rest)

-- `_reset_streaming_state`, with the queue and the tasks
abbrev pub reset_stream : Stream → Stream
reset_stream s = record s {
  orch = reset_streaming_state s.orch;
  queue = [];
  final_ready = false;
  cleanup_tasks = [];
}

-- `if segment.language_detected`, with a language resolver
unfoldable pub update_language : Env → Option Text → Stream → Stream
update_language env none s = s
update_language env (some language) s = elim env.context [
  | none ↦ s
  | some engine ↦
      if is_empty language then s else record s { languages = s.languages ++ language ∷ [] }
]

module _ (u : Unicode) (env : Env) where
  -- `_on_segment_finalized`
  unfoldable pub on_segment_finalized : Text → ℕ → Stream → Stream
  unfolding strip
  on_segment_finalized text index s =
      if env.pipelined_cleanup_enabled && not (is_empty (strip u text))
      then record s { cleanup_tasks = s.cleanup_tasks ++ (text, index) ∷ [] }
      else s

  -- The body of the loop for a final segment; the bus hands the event to `_on_segment_finalized`.
  unfoldable pub finalize_segment : Text → ℕ → Stream → Stream
  unfolding on_segment_finalized
  finalize_segment text index s = on_segment_finalized text index (record s {
    orch = record s.orch { stream_final_segment = some text };
    events = s.events ++ finalized text index ∷ [];
  })

  -- The loop over the segments that the provider yields.
  unfoldable pub run_segments : List Segment → ℕ → Stream → Stream
  unfolding finalize_segment update_language
  run_segments [] index s = s
  run_segments (segment ∷ segments) index s =
      let s' = update_language env segment.language_detected s in
      let text = segment.text in
      let after_final = run_segments segments index (finalize_segment text index s') in
      let after_partial =
        run_segments segments (suc index) (record s' { events = s'.events ++ partial text ∷ [] }) in
      if segment.is_final then after_final else after_partial

  -- `_run_streaming_asr`: what the provider yields for the chunks and the rate; an exception behind its
  -- last segment is logged.
  unfoldable pub run_streaming_asr : (List (List ℕ) → ℕ → List Segment) → Stream → Stream
  unfolding run_segments audio_chunk_iter
  run_streaming_asr stream_transcribe s =
      let (chunks, rest) = audio_chunk_iter s.queue in
      let s' = record s {
        orch = record s.orch { stream_final_segment = none };
        queue = rest;
        final_ready = false;
      } in
      let segments = stream_transcribe chunks s.orch.current_sample_rate in
      record (run_segments segments 0 s') { final_ready = true }

  -- The task of the stream, which the first chunk that is not a flush starts.
  unfoldable pub run_stream_task : (List (List ℕ) → ℕ → List Segment) → Stream → Stream
  unfolding run_streaming_asr
  run_stream_task stream_transcribe s =
      if s.orch.stream_active then run_streaming_asr stream_transcribe s else s

  -- The context of a segment's cleanup.
  abbrev pub segment_context : CleanupContext
  segment_context = record { style = env.style; preserve_code = env.preserve_code; app_name = none }

  -- `_clean_segment`, when the provider has answered
  unfoldable pub clean_segment : Text → Answer Text → Orch → Orch
  clean_segment text (returned cleaned) o = record o {
    cleaned_segments = o.cleaned_segments ++ cleaned ∷ [];
  }
  clean_segment text provider_error o = record o {
    cleaned_segments = o.cleaned_segments ++ text ∷ [];
  }
  clean_segment text other_error o = record o { cleaned_segments = o.cleaned_segments ++ text ∷ [] }
  clean_segment text cancelled o = o

  -- The cleanups, in the order in which they end.
  unfoldable pub finish_cleanups : List (Text × ℕ) → Orch → Orch
  unfolding clean_segment
  finish_cleanups [] o = o
  finish_cleanups ((text, index) ∷ tasks) o =
      finish_cleanups tasks (clean_segment text (env.rewrite 0 text segment_context) o)

  -- The cleanups run beside the stream, and of what the stream and the pipeline use they write only the
  -- cleaned segments. When the pipeline goes on, those of the first list are over, in their order, and those
  -- of the second are in flight.
  unfoldable pub settle_cleanups : List (Text × ℕ) → List (Text × ℕ) → Orch → Orch
  unfolding finish_cleanups
  settle_cleanups over running o =
      let o' = finish_cleanups over o in
      record o' {
        in_flight = (finish_cleanups running (record o { cleaned_segments = [] })).cleaned_segments;
      }
