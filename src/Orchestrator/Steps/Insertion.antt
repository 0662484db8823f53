-- ===== src/Orchestrator/Steps/Insertion.antt =====
-- `_run_insertion`, its clipboard fallback, and `undo_last_insertion`.
pub mod Outcome
use agent_voca.Prelude.{Bool, true, false, Option, none, some, [], ◌∷◌, if◌then◌else◌}
use agent_voca.Text.{Text, Unicode, is_empty, capitalize}
use agent_voca.Machine.{State, idle, insertion_complete as insertion_complete_event, no_context}
use agent_voca.Orchestrator.{
  Env, Orch, Answer, returned, provider_error, other_error, cancelled, InsertionResult, Method,
  keyboard, clipboard, Stage, insertion, clipboard_fallback, timing, insertion_complete,
  observer_utterance, state_changed,
}
use agent_voca.Orchestrator.Exec.{
  Exec, Result, done, raised, stopped, ◌>>=◌, ◌>>◌, pure, gets, modify, await_answer, publish,
  transition, emit_if, emit_error,
}

module _ (env : Env) where
  -- `_try_clipboard_insert`: any exception becomes an unsuccessful result.
  unfoldable pub try_clipboard_insert : Text → Exec InsertionResult
  try_clipboard_insert text o = elim (env.clipboard_insert text) [
    | returned r ↦ (done r, o)
    | cancelled ↦ (stopped, o)
    | _ ↦ (done (record { success = false; method_used = clipboard; error = some [] }), o)
  ]

  -- The branch of `_run_insertion` in which the text was inserted.
  unfoldable pub finish_insertion : Text → State → Method → Exec Unit
  finish_insertion text current_state method = do
    modify (λ o. record o { last_transcript = some text })
    publish (insertion_complete true method)
    duration ← gets (λ o. o.current_duration_ms)
    publish (observer_utterance text duration)
    _ ← transition insertion_complete_event (record no_context { success = some true })
    emit_if true current_state idle

  -- What follows the fallback's second attempt.
  unfoldable pub finish_fallback : Bool → Text → State → Exec Unit
  finish_fallback true text current_state = do
    modify (λ o. record o { last_transcript = some text })
    publish (insertion_complete true clipboard)
    _ ←
        transition insertion_complete_event
          (record no_context { success = some false; clipboard_fallback = some true })
    emit_if true current_state idle
  finish_fallback false text current_state = do
    publish (insertion_complete false clipboard)
    _ ←
        transition insertion_complete_event
          (record no_context { success = some false; clipboard_fallback = some false })
    emit_error insertion false

  -- The branch with the clipboard fallback.
  unfoldable pub fall_back : Text → State → Exec Unit
  unfolding try_clipboard_insert finish_fallback
  fall_back text current_state = do
    publish (insertion_complete false keyboard)
    _ ← await_answer env.undo_last
    result ← try_clipboard_insert text
    publish (timing clipboard_fallback)
    finish_fallback result.success text current_state

  -- The branch without it.
  unfoldable pub fail_insertion : Method → Exec Unit
  fail_insertion method = do
    publish (insertion_complete false method)
    _ ←
        transition insertion_complete_event
          (record no_context { success = some false; clipboard_fallback = some false })
    emit_error insertion false

  -- What follows the strategy's attempt.
  unfoldable pub conclude_insertion : InsertionResult → Text → State → Exec Unit
  unfolding finish_insertion fall_back fail_insertion
  conclude_insertion result text current_state =
      if result.success
      then finish_insertion text current_state result.method_used
      else if env.fallback_enabled
      then fall_back text current_state
      else fail_insertion result.method_used

  unfoldable pub run_insertion : Text → Exec Unit
  unfolding conclude_insertion
  run_insertion text = do
    current_state ← gets (λ o. o.state)
    result ← await_answer (env.insert text)
    publish (timing insertion)
    conclude_insertion result text current_state

  -- The text that `undo_last_insertion` keeps as a possible mistake.
  remember_undone : Orch → Orch
  remember_undone o = elim o.last_transcript [
    | none ↦ o
    | some [] ↦ o
    | some (c ∷ s) ↦ record o { potential_wrong_term = some (c ∷ s); undo_timestamp = env.now_ms }
  ]

  unfoldable pub undo_last_insertion : Exec Bool
  unfolding remember_undone
  undo_last_insertion = do modify remember_undone; await_answer env.undo_last

  module _ (u : Unicode) where
    -- `_redo_capitalized`
    unfoldable pub redo_capitalized : Text → Exec Unit
    unfolding undo_last_insertion run_insertion
    redo_capitalized text = do
      undone ← undo_last_insertion
      if undone then run_insertion (capitalize u text) else pure tt
