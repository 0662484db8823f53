-- ===== src/Vad.antt =====
-- audio/vad.py: `VAD`, with the model of silero-vad as an argument.
pub mod Flips
use agent_voca.Prelude.{
  ℕ, ◌≢◌, Bool, true, false, not, ◌||◌, Option, none, some, List, [], ◌∷◌, ◌++◌, ltb, if◌then◌else◌,
}

pub record VadSpeechEvent : Type 0 where
  pub is_speech : Bool
  pub timestamp_ms : ℕ

-- The loader of the model; and the number of speech segments that the model finds in a chunk, or its
-- exception.
pub record Silero : Type 0 where
  pub loads : Bool
  pub segments : List ℕ → Option ℕ

-- The fields of `VAD`; the event bus is the events published on it.
pub record Vad : Type 0 where
  pub has_event_bus : Bool
  pub has_model : Bool
  pub last_speech_state : Option Bool
  pub published : List VadSpeechEvent

abbrev pub init : Bool → Vad
init has_event_bus = record {
  has_event_bus = has_event_bus;
  has_model = false;
  last_speech_state = none;
  published = [];
}

-- `start`; `none` is `VADError`.
unfoldable pub start : Silero → Vad → Option Vad
start silero v = if silero.loads then some (record v { has_model = true }) else none

-- `stop`
unfoldable pub stop : Vad → Vad
stop v = record v { has_model = false; last_speech_state = none }

-- `is_speech`: without a model, or when it fails, everything counts as speech.
abbrev pub any_segment : Option ℕ → Bool
any_segment none = true
any_segment (some n) = ltb 0 n

unfoldable pub is_speech : Silero → Vad → List ℕ → Bool
is_speech silero v audio_chunk =
    if v.has_model then any_segment (silero.segments audio_chunk) else true

-- The test of `emit_transition`: the last state is unknown or another one.
abbrev pub flips : Option Bool → Bool → Bool
flips none b = true
flips (some true) b = not b
flips (some false) b = b

-- `emit_transition`
unfoldable pub emit_transition : Bool → ℕ → Vad → Vad
emit_transition speech timestamp_ms v =
    if v.has_event_bus
    then if flips v.last_speech_state speech
      then record v {
        last_speech_state = some speech;
        published = v.published ++ record { is_speech = speech; timestamp_ms = timestamp_ms } ∷ [];
      }
      else v
    else v

-- `process_chunk`
unfoldable pub process_chunk : Silero → List ℕ → ℕ → Vad → Bool × Vad
unfolding is_speech emit_transition
process_chunk silero audio_chunk timestamp_ms v =
    let speech = is_speech silero v audio_chunk in (speech, emit_transition speech timestamp_ms v)

-- The chunks of a capture, with their time stamps, one after the other.
unfoldable pub process_chunks : Silero → List (List ℕ × ℕ) → Vad → List Bool × Vad
unfolding process_chunk
process_chunks silero [] v = ([], v)
process_chunks silero (c ∷ l) v =
    let r = process_chunk silero c.0 c.1 v in
    let rest = process_chunks silero l r.1 in (r.0 ∷ rest.0, rest.1)
