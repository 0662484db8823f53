-- ===== src/Orchestrator/Steps/Commands.antt =====
-- `_process_commands_and_adaptive`: the correction heuristic, then the spoken commands.
use agent_voca.Prelude.{◌-◌, Bool, true, false, Option, none, some, [], ◌∷◌, ltb, if◌then◌else◌}
use agent_voca.Text.{Text, Unicode, text_eq, strip, lower, capitalize as capitalize_text}
use agent_voca.Commands.{
  CommandAction, CommandResult, newline, paragraph, delete_last, undo, capitalize,
}
use agent_voca.Vocab.Dictionary.{add_mapping}
use agent_voca.Vocab.Adaptive
use agent_voca.Orchestrator.{
  Env, Orch, command_recognized, correction_learned, insert_text, undo_last_insertion,
  redo_capitalized,
}
use agent_voca.Orchestrator.Exec.{Exec, done, ◌>>◌, pure, publish, publish_to, spawn}

module _ (u : Unicode) (env : Env) where
  -- `_check_for_correction` where a store is there and an undone text is remembered.
  unfoldable pub learn_correction : Adaptive.Store → Text → Text → Orch → Orch
  learn_correction store wrong transcript o =
      let right = strip u transcript in
      let forgotten = record o { potential_wrong_term = none } in
      let (store', promoted) = Adaptive.record_correction u store wrong right in
      let learned =
        publish_to (correction_learned wrong right promoted)
          (record forgotten { adaptive_store = some store' }) in
      if ltb 30000 (env.now_ms - o.undo_timestamp)
      then forgotten
      else if text_eq (lower u wrong) (lower u right)
      then forgotten
      else if promoted
      then record learned { vocab = add_mapping u o.vocab wrong right }
      else learned

  unfoldable pub check_for_correction : Text → Orch → Orch
  unfolding learn_correction
  check_for_correction transcript o = elim o.adaptive_store [
    | none ↦ o
    | some store ↦ elim o.potential_wrong_term [
      | none ↦ o
      | some [] ↦ o
      | some (c ∷ s) ↦ learn_correction store (c ∷ s) transcript o
    ]
  ]

  -- The end of `_run_commands`: dictation that is left goes on.
  abbrev remaining_or_stop : Text → Bool × Text
  remaining_or_stop [] = (true, [])
  remaining_or_stop (c ∷ s) = (false, c ∷ s)

  unfoldable pub run_capitalize : Text → Exec (Bool × Text)
  run_capitalize (c ∷ s) o = (done (false, capitalize_text u (c ∷ s)), o)
  run_capitalize [] o = elim o.last_transcript [
    | none ↦ (done (true, []), o)
    | some [] ↦ (done (true, []), o)
    | some (c ∷ s) ↦ (do spawn (redo_capitalized (c ∷ s)); pure (true, [])) o
  ]

  unfoldable pub run_action : Option CommandAction → Text → Exec (Bool × Text)
  unfolding run_capitalize
  run_action (some newline) rest = do spawn (insert_text (10 ∷ [])); pure (remaining_or_stop rest)
  run_action (some paragraph) rest = do
    spawn (insert_text (10 ∷ 10 ∷ []))
    pure (remaining_or_stop rest)
  run_action (some delete_last) rest = do spawn undo_last_insertion; pure (remaining_or_stop rest)
  run_action (some undo) rest = do spawn undo_last_insertion; pure (remaining_or_stop rest)
  run_action (some capitalize) rest = run_capitalize rest
  run_action _ rest = pure (remaining_or_stop rest)

  -- `_run_commands` where a processor is there and the transcript is not empty.
  unfoldable pub run_result : CommandResult → Text → Exec (Bool × Text)
  unfolding run_action
  run_result result transcript =
      if result.matched
      then (do
        publish (command_recognized result.action transcript)
        run_action result.action result.remaining_text)
      else pure (false, transcript)

  unfoldable pub run_commands : Text → Exec (Bool × Text)
  unfolding run_result
  run_commands [] = pure (false, [])
  run_commands (c ∷ s) = elim env.commands [
    | none ↦ pure (false, c ∷ s)
    | some process ↦ run_result (process (c ∷ s)) (c ∷ s)
  ]

  unfoldable pub process_commands_and_adaptive : Text → Exec (Bool × Text)
  unfolding check_for_correction run_commands
  process_commands_and_adaptive text o = run_commands text (check_for_correction text o)
