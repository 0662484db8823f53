-- ===== src/Tests/Streaming.antt =====
-- The streamed dictation and the anchors of screenshots at concrete inputs.
use agent_voca.Prelude.{
  ℕ, true, false, none, some, List, [], ◌∷◌, ◌++◌, map, ◌≡◌, refl, if◌then◌else◌,
}
use agent_voca.Text.{Text, ascii, codes, strip}
use agent_voca.Machine.{transcribing}
use agent_voca.Orchestrator.{Env, Orch, returned, keyboard}
use agent_voca.Orchestrator.Pipeline.{correct, join_spaced, run_pipeline}
use agent_voca.Orchestrator.Streaming.{
  Stream, Segment, audio_chunk_iter, run_streaming_asr, run_stream_task,
}
use agent_voca.Orchestrator.Streaming.Fed.{on_chunks, concat, streamed-fed}
use agent_voca.Orchestrator.Streaming.Segments.{
  spoken, texts, last_final, run_streaming_asr-IsHeard,
}
use agent_voca.Orchestrator.Streaming.Repeated.{settled, run_pipeline-repeats}
use agent_voca.Chunker.{start, stop}
use agent_voca.Chunker
use agent_voca.Chunker.Deltas.{Happening, arrives, wakes, record_audio, fed}
use agent_voca.Vision.Anchors
use agent_voca.Vision.Anchors.{find_anchors, replace_paired, splice_nonblank}
use agent_voca.Vision.Anchors.Weave.{weave, replace_paired-find_anchors}

-- The cleanup writes an exclamation mark behind its text.
abbrev polish : Text → Text
polish t = t ++ codes "!"

abbrev env : Env
env = record {
  streaming_enabled = true;
  pipelined_cleanup_enabled = true;
  style = codes "casual";
  preserve_code = false;
  fallback_enabled = true;
  transcribe = λ n a rate. returned [];
  cleanup_available = true;
  rewrite = λ n t c. returned (polish t);
  insert = λ t. returned (record { success = true; method_used = keyboard; error = none });
  undo_last = returned true;
  clipboard_insert =
      λ t. returned (record { success = true; method_used = keyboard; error = none });
  commands = none;
  context = none;
  vision = none;
  now_ms = 0;
}

abbrev orch : Orch
orch = record {
  state = transcribing;
  last_transcript = none;
  current_transcript = none;
  current_audio_bytes = some (1 ∷ []);
  current_sample_rate = 16000;
  current_duration_ms = 900;
  cleanup_success = false;
  vocab = record { terms = []; mappings = []; casing = []; pattern = [] };
  snippets = record { snippets = []; pattern = [] };
  adaptive_store = none;
  potential_wrong_term = none;
  undo_timestamp = 0;
  resolved_style = none;
  resolved_app_name = none;
  resolved_language = none;
  stream_active = true;
  stream_final_segment = none;
  cleaned_segments = [];
  in_flight = [];
  error_timer = false;
  published = [];
  spawned = [];
}

abbrev stream : Stream
stream = record {
  orch = orch;
  queue = [];
  final_ready = false;
  cleanup_tasks = [];
  languages = [];
  events = [];
}

abbrev happenings : List Happening
happenings = arrives (1 ∷ 2 ∷ []) ∷ wakes (3 ∷ []) ∷ arrives (4 ∷ []) ∷ []

streamed-fed_example :
    let chunks = (stop true (record_audio happenings (start (Chunker.init 500)))).published in
    let (read, rest) = audio_chunk_iter (on_chunks 16000 chunks stream).queue in
    (concat read ≡ fed happenings) × (rest ≡ [])
streamed-fed_example = streamed-fed 500 16000 happenings stream refl

-- A partial transcript and two final segments.
abbrev provider : List (List ℕ) → ℕ → List Segment
provider chunks rate =
    record { text = codes "one"; is_final = false; language_detected = none }
    ∷ record { text = codes "one"; is_final = true; language_detected = some (codes "en") }
    ∷ record { text = codes "two"; is_final = true; language_detected = none }
    ∷ []

run_streaming_asr-IsHeard_example :
    let s = run_streaming_asr ascii env provider stream in
    (s.orch.stream_final_segment ≡ last_final (provider [] 16000) none)
    × (texts s.cleanup_tasks
        ≡ texts stream.cleanup_tasks
          ++ (if env.pipelined_cleanup_enabled then spoken ascii (provider [] 16000) else []))
run_streaming_asr-IsHeard_example = run_streaming_asr-IsHeard ascii env provider stream

-- One cleanup is over when the pipeline goes on, and one is in flight.
run_pipeline-repeats_example :
    let joined = correct ascii orch (
      join_spaced (
        (map polish (codes "one" ∷ []) ++ polish (codes "two") ∷ [])
        ++ polish (codes "two") ∷ [])) in
    let o = settled ascii env 0 (run_stream_task ascii env provider stream) in
    (run_pipeline ascii env o).1.last_transcript ≡ some joined
unfolding spoken strip ascii last_final
run_pipeline-repeats_example =
    run_pipeline-repeats ascii env provider polish stream 0 (codes "one" ∷ []) (codes "two")
      (record { success = true; method_used = keyboard; error = none }) refl refl refl refl refl
      refl refl refl refl refl refl (λ t c. refl) refl refl

abbrev dictated : Text
dictated = codes "see this image and the attached screenshot"

abbrev phrases : List Text
phrases = Anchors.init ascii []

replace_paired-find_anchors_example :
    replace_paired ascii (find_anchors ascii phrases dictated) (codes "x" ∷ codes "y" ∷ []) dictated
    ≡ weave ascii 0 dictated (find_anchors ascii phrases dictated) (codes "x" ∷ codes "y" ∷ [])
replace_paired-find_anchors_example =
    replace_paired-find_anchors ascii phrases dictated (codes "x" ∷ codes "y" ∷ [])
