-- ===== src/Tests/Whispered.antt =====
-- The local transcription at concrete inputs.
use agent_voca.Prelude.{true, false, none, some, List, [], ◌∷◌, ◌++◌, ◌≡◌, refl}
use agent_voca.Text.{ascii, codes, lower}
use agent_voca.Machine.{transcribing}
use agent_voca.Orchestrator.{Env, Orch, returned, keyboard}
use agent_voca.Orchestrator.Streaming.{Stream}
use agent_voca.Chunker.{get_delta, tick, add_audio, publish}
use agent_voca.Chunker
use agent_voca.Chunker.Deltas.{Happening, arrives, wakes}
use agent_voca.Whisper
use agent_voca.Whisper.{
  Library, Settings, Provider, Model, auto, cuda, float16, default_type, heard, inference_error,
  failed, asr_error, mentions, inference_keywords, has_infix, get_streaming_model,
}
use agent_voca.Whisper.Transcribe.{frombuffer, language_of, is_cuda_error, transcribe_audio}
use agent_voca.Whisper.Streaming.{Arrival, join_chunks, stream_transcribe}
use agent_voca.Whisper.Streaming.Closed.{IsClosed, stream_transcribe-IsClosed}
use agent_voca.Whisper.Fallback.{IsOnCpu}
use agent_voca.Whisper.Fallback.Settled.{
  run, warming, transcribing as transcribing_again, transcribe_audio-settles,
}

-- Every model loads and hears two words.
abbrev library : Library
library = record {
  supported = λ device. none;
  load = λ n size device compute. none;
  infer = λ n fast model audio language. heard (codes " hi" ∷ codes " you" ∷ []) (codes "en");
}

abbrev settings : Settings
settings = record {
  model = none;
  streaming = true;
  streaming_model = none;
  streaming_window_s = 8;
  language_hint = none;
  device = auto;
  compute_type = default_type;
}

abbrev env : Env
env = record {
  streaming_enabled = true;
  pipelined_cleanup_enabled = true;
  style = codes "casual";
  preserve_code = false;
  fallback_enabled = true;
  transcribe = λ n a rate. returned [];
  cleanup_available = true;
  rewrite = λ n t c. returned t;
  insert = λ t. returned (record { success = true; method_used = keyboard; error = none });
  undo_last = returned true;
  clipboard_insert =
      λ t. returned (record { success = true; method_used = keyboard; error = none });
  commands = none;
  context = none;
  vision = none;
  now_ms = 0;
}

abbrev orch : Orch
orch = record {
  state = transcribing;
  last_transcript = none;
  current_transcript = none;
  current_audio_bytes = some (1 ∷ []);
  current_sample_rate = 16000;
  current_duration_ms = 900;
  cleanup_success = false;
  vocab = record { terms = []; mappings = []; casing = []; pattern = [] };
  snippets = record { snippets = []; pattern = [] };
  adaptive_store = none;
  potential_wrong_term = none;
  undo_timestamp = 0;
  resolved_style = none;
  resolved_app_name = none;
  resolved_language = none;
  stream_active = true;
  stream_final_segment = none;
  cleaned_segments = [];
  in_flight = [];
  error_timer = false;
  published = [];
  spawned = [];
}

abbrev stream : Stream
stream = record {
  orch = orch;
  queue = [];
  final_ready = false;
  cleanup_tasks = [];
  languages = [];
  events = [];
}

-- One sample, in two pieces.
abbrev happenings : List Happening
happenings = arrives (1 ∷ 2 ∷ []) ∷ wakes (3 ∷ []) ∷ arrives (4 ∷ []) ∷ []

abbrev waiting : Stream
waiting = record stream { orch = record orch { stream_active = false } }

-- At two samples a second every sample is long enough for a preview.
abbrev arrivals : List Arrival
arrivals =
    record { chunk = 1 ∷ 2 ∷ 3 ∷ 4 ∷ []; is_done = false }
    ∷ record { chunk = 5 ∷ 6 ∷ 7 ∷ 8 ∷ []; is_done = true }
    ∷ []

stream_transcribe-IsClosed_example :
    let r = stream_transcribe ascii library settings arrivals true 2 none (Whisper.init settings) in
    IsClosed ascii library settings
      (join_chunks arrivals)
      (language_of settings none)
      r.failure
      r.yields
stream_transcribe-IsClosed_example =
    stream_transcribe-IsClosed ascii library settings arrivals true 2 none (Whisper.init settings)
      refl

-- Every inference fails on the GPU.
abbrev broken : Library
broken = record library {
  infer = λ n fast model audio language. inference_error (codes "CUDA error: out of memory");
}

abbrev on_cuda : Model
on_cuda = record { size = codes "base"; device = cuda; compute_type = float16 }

abbrev loaded : Provider
loaded = record (Whisper.init settings) { model = some on_cuda }

transcribe_audio-settles_example :
    ((transcribe_audio ascii broken settings (1 ∷ 2 ∷ 3 ∷ 4 ∷ []) none loaded).0
      ≡ failed (
          asr_error
            (codes "Faster-Whisper transcription failed: " ++ codes "CUDA error: out of memory")))
    × IsOnCpu (
        run ascii broken settings
          (warming ∷ transcribing_again (1 ∷ []) none ∷ [])
          (transcribe_audio ascii broken settings (1 ∷ 2 ∷ 3 ∷ 4 ∷ []) none loaded).1)
unfolding frombuffer is_cuda_error has_infix lower ascii
transcribe_audio-settles_example =
    transcribe_audio-settles ascii broken settings (1 ∷ 2 ∷ 3 ∷ 4 ∷ []) none loaded on_cuda
      (codes "CUDA error: out of memory") (warming ∷ transcribing_again (1 ∷ []) none ∷ []) refl
      refl refl refl refl
