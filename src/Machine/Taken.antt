-- ===== src/Machine/Taken.antt =====
-- The transitions that the orchestrator takes, each at the state in which it expects to be.
use agent_voca.Prelude.{true, false, some, ◌≡◌, refl}
use agent_voca.Machine.{
  State, idle, recording, transcribing, cleaning, inserting, error, TransitionResult, hotkey,
  duration, transcript, error_event, cleaned_text, insertion_complete, timeout, toggle_recording,
  toggle, asr, cleanup, no_context, transition,
}

-- The machine moves to `t`, and says so.
abbrev pub MovesTo : State → State × TransitionResult → Type 0
MovesTo t r = (r.0 ≡ t) × (r.1.new_state ≡ t) × (r.1.transitioned ≡ true)

pub toggle_records : MovesTo recording (
    transition idle hotkey
      (record no_context { action = some toggle_recording; mode = some toggle }))
unfolding transition
toggle_records = (refl, refl, refl)

pub duration_stops : MovesTo transcribing (transition recording duration no_context)
unfolding transition
duration_stops = (refl, refl, refl)

pub transcript_cleans :
    MovesTo cleaning
      (transition transcribing transcript (record no_context { is_final = some true }))
unfolding transition
transcript_cleans = (refl, refl, refl)

pub retries_fail : MovesTo error (
    transition transcribing error_event
      (record no_context { retries_exhausted = some true; stage = some asr }))
unfolding transition
retries_fail = (refl, refl, refl)

pub cleaned_inserts :
    MovesTo inserting (transition cleaning cleaned_text (record no_context { success = some true }))
unfolding transition
cleaned_inserts = (refl, refl, refl)

pub raw_inserts :
    MovesTo inserting (transition cleaning error_event (record no_context { stage = some cleanup }))
unfolding transition
raw_inserts = (refl, refl, refl)

pub inserted_idles :
    MovesTo idle
      (transition inserting insertion_complete (record no_context { success = some true }))
unfolding transition
inserted_idles = (refl, refl, refl)

pub pasted_idles : MovesTo idle (
    transition inserting insertion_complete
      (record no_context { success = some false; clipboard_fallback = some true }))
unfolding transition
pasted_idles = (refl, refl, refl)

pub insertion_fails : MovesTo error (
    transition inserting insertion_complete
      (record no_context { success = some false; clipboard_fallback = some false }))
unfolding transition
insertion_fails = (refl, refl, refl)

pub timeout_idles : MovesTo idle (transition error timeout no_context)
unfolding transition
timeout_idles = (refl, refl, refl)

-- In error this report does not move the machine.
pub error_cleaned :
    (transition error cleaned_text (record no_context { success = some true })).0 ≡ error
unfolding transition
error_cleaned = refl

-- In error this report does not move the machine.
pub error_raw :
    (transition error error_event (record no_context { stage = some cleanup })).0 ≡ error
unfolding transition
error_raw = refl

-- In error this report does not move the machine.
pub error_inserted :
    (transition error insertion_complete (record no_context { success = some true })).0 ≡ error
unfolding transition
error_inserted = refl

-- In error this report does not move the machine.
pub error_pasted :
    (transition error insertion_complete
      (record no_context { success = some false; clipboard_fallback = some true })).0
    ≡ error
unfolding transition
error_pasted = refl

-- In error this report does not move the machine.
pub error_refused :
    (transition error insertion_complete
      (record no_context { success = some false; clipboard_fallback = some false })).0
    ≡ error
unfolding transition
error_refused = refl
