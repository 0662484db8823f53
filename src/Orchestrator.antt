-- ===== src/Orchestrator.antt =====
-- core/orchestrator.py: the dictation pipeline. The state of the object, what it publishes, and
-- what its providers answer; the methods are in the modules below.
pub mod Exec
pub mod Steps
pub mod Pipeline
pub mod Streaming
pub mod Config
use agent_voca.Prelude.{ℕ, Bool, Option, List}
use agent_voca.Text.{Text}
use agent_voca.Machine.{State}
use agent_voca.Commands.{CommandAction, CommandResult}
use agent_voca.Vocab.Dictionary.{Dictionary}
use agent_voca.Vocab.Snippets.{Expander}
use agent_voca.Vocab.Adaptive

pub data Stage : Type 0 where
  asr cleanup insertion clipboard_fallback vision pipeline : Stage

pub data Method : Type 0 where
  keyboard clipboard : Method

-- The events that the pipeline publishes on the bus, with the fields that it fills in; the
-- durations of `TimingEvent`, `CleanedTextEvent` and `VisionExtractedEvent` are left out.
pub data Published : Type 0 where
  timing : Stage → Published
  transcript : Text → Published
  cleaned_text : Text → Bool → Published
  context_resolved : Option Text → Option Text → Option Text → Published
  insertion_complete : Bool → Method → Published
  observer_utterance : Text → ℕ → Published
  state_changed : State → State → Published
  error_published : Stage → Bool → Published
  command_recognized : Option CommandAction → Text → Published
  correction_learned : Text → Text → Bool → Published
  vision_extracted : ℕ → ℕ → Published

-- What `asyncio.create_task` starts beside the pipeline.
pub data Spawned : Type 0 where
  insert_text : Text → Spawned
  undo_last_insertion : Spawned
  redo_capitalized : Text → Spawned

-- What an awaited call of a provider does: it returns, raises the provider's own error
-- (`ASRError`, `CleanupError`, `VisionError`), raises any other exception, or is cancelled.
pub data Answer (A : Type 0) : Type 0 where
  returned : A → Answer A
  provider_error other_error cancelled : Answer A

pub record CleanupContext : Type 0 where
  pub style : Text
  pub preserve_code : Bool
  pub app_name : Option Text

pub record InsertionResult : Type 0 where
  pub success : Bool
  pub method_used : Method
  pub error : Option Text

-- The context engine: the application that the detector reports, the style that the profiles give
-- an application, and the language hint.
pub record ContextEngine : Type 0 where
  pub app_name : Option Text
  pub resolve : Text → Option Text
  pub language : Option Text

-- The vision engine: whether a snip is pending, the screenshots that `drain` returns, the
-- extraction from each, and the splicer.
pub record Vision : Type 0 where
  pub has_pending : Bool
  pub shots : List (List ℕ)
  pub extract : List ℕ → Text → Answer Text
  pub splice : Text → List Text → Text × ℕ

-- The configuration and the collaborators of one run of the pipeline.
pub record Env : Type 0 where
  pub streaming_enabled : Bool
  pub pipelined_cleanup_enabled : Bool
  pub style : Text
  pub preserve_code : Bool
  pub fallback_enabled : Bool
  -- `transcribe_audio`, or `transcribe_priority` of an attached arbiter, at each attempt
  pub transcribe : ℕ → List ℕ → ℕ → Answer Text
  pub cleanup_available : Bool
  pub rewrite : ℕ → Text → CleanupContext → Answer Text
  -- the insertion strategy, and the clipboard strategy of the fallback
  pub insert : Text → Answer InsertionResult
  pub undo_last : Answer Bool
  pub clipboard_insert : Text → Answer InsertionResult
  -- the command processor, if commands are enabled
  pub commands : Option (Text → CommandResult)
  pub context : Option ContextEngine
  pub vision : Option Vision
  pub now_ms : ℕ

-- The fields of `Orchestrator` that the pipeline reads and writes.
pub record Orch : Type 0 where
  pub state : State
  pub last_transcript : Option Text
  pub current_transcript : Option Text
  pub current_audio_bytes : Option (List ℕ)
  pub current_sample_rate : ℕ
  pub current_duration_ms : ℕ
  pub cleanup_success : Bool
  pub vocab : Dictionary
  pub snippets : Expander
  pub adaptive_store : Option Adaptive.Store
  pub potential_wrong_term : Option Text
  pub undo_timestamp : ℕ
  pub resolved_style : Option Text
  pub resolved_app_name : Option Text
  pub resolved_language : Option Text
  pub stream_active : Bool
  pub stream_final_segment : Option Text
  pub cleaned_segments : List Text
  -- What the cleanups of segments that are not over append when they end, in the order of their ends.
  pub in_flight : List Text
  pub error_timer : Bool
  pub published : List Published
  pub spawned : List Spawned
