-- ===== src/Machine.antt =====
-- core/state_machine.py: the transition table of the dictation pipeline and its evaluation.
pub mod Diagram
pub mod Taken
use agent_voca.Prelude.{
  Bool, true, false, ◌&&◌, ◌||◌, Option, none, some, List, [], ◌∷◌, not, is_true, is_false,
  if◌then◌else◌,
}

-- `STATES`
pub data State : Type 0 where
  idle recording transcribing cleaning inserting error : State

-- The event types that the table names; any other type of event is `other_event`.
pub data EventType : Type 0 where
  hotkey vad_speech duration transcript error_event cleaned_text : EventType
  insertion_complete timeout other_event : EventType

-- The values of `HotkeyEvent.action`.
pub data Action : Type 0 where
  toggle_recording open_settings insert_last undo cancel : Action
  capture_screenshot toggle_observer pause_observer : Action

pub data Mode : Type 0 where
  push_to_talk toggle auto_stop : Mode

-- The stages of an `ErrorEvent`; `other_stage` is any that no condition names.
pub data Stage : Type 0 where
  asr cleanup other_stage : Stage

-- The keyword arguments of `transition`; `none` is a key that is not given.
pub record Context : Type 0 where
  pub action : Option Action
  pub mode : Option Mode
  pub last_transcript_available : Option Bool
  pub is_speech : Option Bool
  pub silence_timeout_reached : Option Bool
  pub is_final : Option Bool
  pub retries_exhausted : Option Bool
  pub stage : Option Stage
  pub success : Option Bool
  pub clipboard_fallback : Option Bool

abbrev pub no_context : Context
no_context = record {
  action = none;
  mode = none;
  last_transcript_available = none;
  is_speech = none;
  silence_timeout_reached = none;
  is_final = none;
  retries_exhausted = none;
  stage = none;
  success = none;
  clipboard_fallback = none;
}

-- The named conditions of the table.
pub data Condition : Type 0 where
  toggle_recording_toggle_or_auto_stop toggle_recording_push_to_talk : Condition
  toggle_recording_toggle insert_last_available silence_timeout always : Condition
  cancel final asr_retries_exhausted cleanup_error success : Condition
  clipboard_fallback no_clipboard_fallback open_settings : Condition

pub data Effect : Type 0 where
  start_audio_capture show_recording_indicator insert_last_transcript : Effect
  stop_audio_capture emit_recording_stopped cancel_recording : Effect
  submit_to_cleanup emit_asr_error notify_user discard_transcript : Effect
  use_raw_fallback log_cleanup_warning start_insertion : Effect
  store_last_transcript hide_indicator clipboard_insert : Effect
  notify_clipboard_used emit_insertion_error reset : Effect

-- `TransitionRule`: a `from_state` of `none` is "any", a `to_state` of `none` is "unchanged".
pub record Rule : Type 0 where
  pub from_state : Option State
  pub event_type : EventType
  pub condition : Option Condition
  pub to_state : Option State

pub record TransitionResult : Type 0 where
  pub new_state : State
  pub side_effects : List Effect
  pub transitioned : Bool

abbrev pub rule : State → EventType → Condition → State → Rule
rule s e c t = record { from_state = some s; event_type = e; condition = some c; to_state = some t }

-- `_TRANSITIONS`, in the order of the source: the first rule that fits wins.
unfoldable pub transitions : List Rule
transitions =
    rule idle hotkey toggle_recording_toggle_or_auto_stop recording
    ∷ rule idle hotkey toggle_recording_push_to_talk recording
    ∷ rule idle hotkey insert_last_available inserting
    ∷ rule recording hotkey toggle_recording_toggle transcribing
    ∷ rule recording hotkey toggle_recording_push_to_talk transcribing
    ∷ rule recording vad_speech silence_timeout transcribing
    ∷ rule recording duration always transcribing
    ∷ rule recording hotkey Condition.cancel idle
    ∷ rule transcribing transcript final cleaning
    ∷ rule transcribing error_event asr_retries_exhausted error
    ∷ rule transcribing hotkey Condition.cancel idle
    ∷ rule cleaning cleaned_text success inserting
    ∷ rule cleaning error_event cleanup_error inserting
    ∷ rule cleaning hotkey Condition.cancel idle
    ∷ rule inserting insertion_complete success idle
    ∷ rule inserting insertion_complete clipboard_fallback idle
    ∷ rule inserting insertion_complete no_clipboard_fallback error
    ∷ rule error timeout always idle
    ∷ rule error hotkey Condition.cancel idle
    ∷ record {
      from_state = none;
      event_type = hotkey;
      condition = some Condition.open_settings;
      to_state = none;
    }
    ∷ []

abbrev pub state_eq : State → State → Bool
state_eq idle idle = true
state_eq recording recording = true
state_eq transcribing transcribing = true
state_eq cleaning cleaning = true
state_eq inserting inserting = true
state_eq error error = true
state_eq _ _ = false

abbrev pub event_type_eq : EventType → EventType → Bool
event_type_eq hotkey hotkey = true
event_type_eq vad_speech vad_speech = true
event_type_eq duration duration = true
event_type_eq transcript transcript = true
event_type_eq error_event error_event = true
event_type_eq cleaned_text cleaned_text = true
event_type_eq insertion_complete insertion_complete = true
event_type_eq timeout timeout = true
event_type_eq other_event other_event = true
event_type_eq _ _ = false

-- `ctx.get("action") == a` for the four actions that the conditions name.
abbrev asks_toggle : Option Action → Bool
asks_toggle (some toggle_recording) = true
asks_toggle _ = false

abbrev asks_insert_last : Option Action → Bool
asks_insert_last (some insert_last) = true
asks_insert_last _ = false

abbrev asks_cancel : Option Action → Bool
asks_cancel (some Action.cancel) = true
asks_cancel _ = false

abbrev asks_open_settings : Option Action → Bool
asks_open_settings (some Action.open_settings) = true
asks_open_settings _ = false

abbrev is_push_to_talk : Option Mode → Bool
is_push_to_talk (some push_to_talk) = true
is_push_to_talk _ = false

abbrev is_toggle : Option Mode → Bool
is_toggle (some toggle) = true
is_toggle _ = false

abbrev is_toggle_or_auto_stop : Option Mode → Bool
is_toggle_or_auto_stop (some toggle) = true
is_toggle_or_auto_stop (some auto_stop) = true
is_toggle_or_auto_stop _ = false

abbrev is_asr_stage : Option Stage → Bool
is_asr_stage (some asr) = true
is_asr_stage _ = false

abbrev is_cleanup_stage : Option Stage → Bool
is_cleanup_stage (some cleanup) = true
is_cleanup_stage _ = false

-- `_eval_condition`
unfoldable pub eval_condition : Condition → Context → Bool
eval_condition toggle_recording_toggle_or_auto_stop ctx =
    asks_toggle ctx.action && is_toggle_or_auto_stop ctx.mode
eval_condition toggle_recording_push_to_talk ctx =
    asks_toggle ctx.action && is_push_to_talk ctx.mode
eval_condition toggle_recording_toggle ctx = asks_toggle ctx.action && is_toggle ctx.mode
eval_condition insert_last_available ctx =
    asks_insert_last ctx.action && is_true ctx.last_transcript_available
eval_condition silence_timeout ctx = is_false ctx.is_speech && is_true ctx.silence_timeout_reached
eval_condition always ctx = true
eval_condition Condition.cancel ctx = asks_cancel ctx.action
eval_condition final ctx = is_true ctx.is_final
eval_condition asr_retries_exhausted ctx = is_true ctx.retries_exhausted && is_asr_stage ctx.stage
eval_condition cleanup_error ctx = is_cleanup_stage ctx.stage
eval_condition success ctx = is_true ctx.success
eval_condition clipboard_fallback ctx = is_false ctx.success && is_true ctx.clipboard_fallback
eval_condition no_clipboard_fallback ctx = is_false ctx.success && is_false ctx.clipboard_fallback
eval_condition Condition.open_settings ctx = asks_open_settings ctx.action

-- `_side_effects_for`
unfoldable pub side_effects_for : State → State → Option Condition → List Effect
side_effects_for idle recording (some toggle_recording_toggle_or_auto_stop) =
    start_audio_capture ∷ show_recording_indicator ∷ []
side_effects_for idle recording _ = start_audio_capture ∷ []
side_effects_for idle inserting _ = insert_last_transcript ∷ []
side_effects_for recording transcribing _ = stop_audio_capture ∷ emit_recording_stopped ∷ []
side_effects_for recording idle _ = cancel_recording ∷ []
side_effects_for transcribing cleaning _ = submit_to_cleanup ∷ []
side_effects_for transcribing error _ = emit_asr_error ∷ notify_user ∷ []
side_effects_for transcribing idle _ = discard_transcript ∷ []
side_effects_for cleaning inserting (some cleanup_error) =
    use_raw_fallback ∷ log_cleanup_warning ∷ start_insertion ∷ []
side_effects_for cleaning inserting _ = start_insertion ∷ []
side_effects_for cleaning idle _ = discard_transcript ∷ []
side_effects_for inserting idle (some success) = store_last_transcript ∷ hide_indicator ∷ []
side_effects_for inserting idle (some clipboard_fallback) =
    clipboard_insert ∷ notify_clipboard_used ∷ []
side_effects_for inserting idle _ = []
side_effects_for inserting error _ = emit_insertion_error ∷ []
side_effects_for error idle _ = reset ∷ []
side_effects_for _ _ _ = []

-- The three tests that make the loop of `transition` skip a rule.
abbrev fits : Rule → State → EventType → Context → Bool
fits r state e ctx =
    elim r.from_state [ none ↦ true | some s ↦ state_eq s state ]
    && event_type_eq r.event_type e
    && elim r.condition [ none ↦ true | some c ↦ eval_condition c ctx ]

unfoldable pub first_match : List Rule → State → EventType → Context → Option Rule
first_match [] state e ctx = none
first_match (r ∷ rs) state e ctx = if fits r state e ctx then some r else first_match rs state e ctx

abbrev nonempty : List Effect → Bool
nonempty [] = false
nonempty (_ ∷ _) = true

abbrev target : State → Option State → State
target state none = state
target state (some t) = t

-- The rule is applied: the state is written before `transitioned` compares with it.
abbrev apply_rule : State → Option Rule → State × TransitionResult
apply_rule state none =
    (state, record { new_state = state; side_effects = []; transitioned = false })
apply_rule state (some best) =
    let new_state = target state best.to_state in
    let side_effects = side_effects_for state new_state best.condition in
    let state' = new_state in
    (
      state',
      record {
        new_state = new_state;
        side_effects = side_effects;
        transitioned = not (state_eq new_state state') || nonempty side_effects;
      },
    )

-- `StateMachine.transition`: the machine's state after the event, and the result.
unfoldable pub transition : State → EventType → Context → State × TransitionResult
unfolding transitions eval_condition side_effects_for first_match
transition state e ctx = apply_rule state (first_match transitions state e ctx)
