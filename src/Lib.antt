-- ===== src/Lib.antt =====
-- AgentVoca: a voice dictation program with an ambient session recorder. These modules model the core
-- of the Python package src/agentvoca and prove what its parts keep to.
--
-- The parts and their modules:
-- - Machine: core/state_machine.py. `transition` is the table's first fitting rule, as a function from
--   a state, an event type and its keyword arguments to the new state and the result.
-- - Orchestrator: core/orchestrator.py. `Orch` holds the fields that the pipeline reads and writes,
--   `Env` the configuration and the answers of its providers. A method is an action (Exec) that reads
--   and writes `Orch` and returns, raises or is cancelled. Steps has one module for each stage (ASR,
--   commands, vision, cleanup, insertion); Pipeline composes them as `_run_pipeline` and
--   `_on_recording_stopped` do, with `cancel` and the error timeout. Streaming has the streamed
--   dictation: the queue of chunks, the segments of the provider and their cleanup. Config has what
--   `start` loads from the settings and what `apply_config_update` replaces in the running program.
-- - Commands: commands/processor.py. Vocab: vocab/dictionary.py, vocab/snippets.py, vocab/adaptive.py;
--   Vocab.Match holds the word patterns that the first two share.
-- - Observer: observer/. Store is the write queue, the tables and the purges of observer/store.py,
--   Session the session manager of observer/session.py, Controller observer/controller.py with its
--   compile task, Blocks the `split_blocks` of observer/compile/base.py, Gate the rate limit and
--   Triggers the sources of observer/triggers.py, Screen observer/screen.py, Arbiter
--   observer/arbiter.py and Ambient observer/audio.py. Compile has the compilers of a recorded
--   session: Records and Rules observer/compile/rules.py, Prompts observer/compile/prompts.py, Llm
--   observer/compile/openai_compatible.py, and Sidecar observer/export/json_sidecar.py.
-- - Whisper: asr/faster_whisper.py, with the loading of the models in Whisper, the warm-up and the batch
--   transcription in Transcribe, and `stream_transcribe` in Streaming; Dictated joins it with the
--   chunker and the orchestrator.
-- - Insertion: insertion/keyboard.py and insertion/clipboard.py, as the keys that they send. Context:
--   context/profiles.py and observer/privacy.py. Setup: setup/controllers/restart_policy.py.
-- - Vision: vision/anchors.py, the splicing of what was read off screenshots into a transcript.
-- - Chunker: audio/chunker.py. Vad: audio/vad.py. EventBus: core/event_bus.py.
-- - Text: strings as lists of code points; the Unicode tables are a parameter. Prelude: shared tests
--   and lists. Tests: the theorems at concrete inputs.
--
-- How the parts interact: the orchestrator drives the machine and publishes events; its vocabulary,
-- snippets and learned corrections are fields of `Orch`; a stopped recording comes with the audio that
-- the chunker has also handed out in deltas, which Streaming reads from its queue. The recorder's
-- controller opens and closes sessions and tells its capture objects; the session manager writes through the store's
-- queue, whose bundles the blocks are cut from; the gate admits screen captures, and the listener's
-- utterances go to the arbiter, which shares the transcription with the dictation.
--
-- Bounds: the retries of the transcription and of the cleanup are those of the source, one each, and
-- the loops run on the attempts that are left; so does the accurate pass of Whisper, with two. The digits
-- of a number are written with the number's successor as fuel. The turns of the arbiter's worker are counted by a
-- number, of which twice the number of jobs and one are enough; all other loops are recursions on a list.
-- Time is in whole milliseconds. The gate's tokens are counted in units of 1/60000, so that its refill
-- is exact where the source uses floating point.
--
-- Not modelled: the remote providers (cleanup, vision, OCR) and the active window, whose answers are in
-- `Env`, as those of the transcription and the insertion are where the pipeline is the subject; the
-- arrival of further chunks while the streaming provider reads its queue; the confidences of
-- transcripts; stop and warm-up of the orchestrator, and the providers and subscriptions of its start; files, SQL text and the text of
-- JSON; the timeouts of waiting for the store's writer;
-- handlers of the event bus that change the subscriptions of an event while it is delivered; the texts of errors outside Whisper and the
-- durations in published events; the user interface, the rest of setup and configuration, and the writing
-- of exports.
pub mod Prelude
pub mod Text
pub mod Machine
pub mod Vocab
pub mod Commands
pub mod Orchestrator
pub mod Observer
pub mod Chunker
pub mod EventBus
pub mod Vision
pub mod Vad
pub mod Whisper
pub mod Insertion
pub mod Context
pub mod Setup
pub mod Tests
