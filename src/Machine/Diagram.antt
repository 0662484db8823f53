-- ===== src/Machine/Diagram.antt =====
-- The diagram of the pipeline's states, and what every event and every run keeps to.
use agent_voca.Prelude.{if◌then◌else◌, true, some, ◌≡◌, ◌≢◌, ◌↔◌, ◌⊎◌, inl, refl, arith}
use agent_voca.Machine.{
  State, idle, recording, transcribing, cleaning, inserting, error, EventType, hotkey, other_event,
  Action, Context, state_eq, transition,
}

infix 40 ◌⟶◌
pub data ◌⟶◌ : State → State → Type 0 where
  begin : idle ⟶ recording
  insert_again : idle ⟶ inserting
  stop : recording ⟶ transcribing
  drop_recording : recording ⟶ idle
  transcribed : transcribing ⟶ cleaning
  asr_failed : transcribing ⟶ error
  drop_transcript : transcribing ⟶ idle
  cleaned : cleaning ⟶ inserting
  drop_cleanup : cleaning ⟶ idle
  inserted : inserting ⟶ idle
  insertion_failed : inserting ⟶ error
  recovered : error ⟶ idle

ruleset edges = (
  begin, insert_again, stop, drop_recording, transcribed, asr_failed, drop_transcript, cleaned,
  drop_cleanup, inserted, insertion_failed, recovered,
)

-- An event either leaves the state alone, or moves it along one edge of the diagram.
pub transition-⟶ :
    (s : State) (e : EventType) (ctx : Context)
    → ((transition s e ctx).0 ≡ s) ⊎ (s ⟶ (transition s e ctx).0)
unfolding transition
transition-⟶ idle other_event ctx = inl refl
transition-⟶ s e ctx = grind (arith, edges)

-- `transitioned` is computed after the state is written, from the side effects alone; it still
-- says exactly whether the state changed.
pub transitioned_iff_changed :
    (s : State) (e : EventType) (ctx : Context)
    → ((transition s e ctx).1.transitioned ≡ true) ↔ ((transition s e ctx).0 ≢ s)
unfolding transition
transitioned_iff_changed idle other_event ctx = ground arith
transitioned_iff_changed s e ctx = ground arith

-- The Cancel hotkey ends in idle from every state but inserting, which it leaves as it is.
pub transition-cancel :
    (s : State) (ctx : Context)
    → ctx.action ≡ some Action.cancel
    → (transition s hotkey ctx).0 ≡ (if state_eq s inserting then inserting else idle)
unfolding transition
transition-cancel idle ctx h = ground arith
transition-cancel s ctx h = ground arith
