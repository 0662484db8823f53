-- ===== src/Orchestrator/Pipeline/Outcome.antt =====
-- How a run of the pipeline ends, whatever its providers answer.
use mathlib.Core.Path.{subst}
use agent_voca.Prelude.{
  ℕ, Bool, true, false, Option, none, some, List, [], ◌∷◌, ◌≡◌, ◌⊎◌, inl, inr, arith, refl, ◌∙◌,
  ◌++◌, sym, ap,
}
use agent_voca.Text.{Text, Unicode}
use agent_voca.Commands.{CommandResult}
use agent_voca.Machine.{cleaning}
use agent_voca.Orchestrator.{Env, Vision, Orch}
use agent_voca.Orchestrator.Exec.{Exec, Result, done, pure, bind_done}
use agent_voca.Orchestrator.Steps.Cleanup.{run_cleanup}
use agent_voca.Orchestrator.Steps.Cleanup.Outcome.{run_cleanup_ends}
use agent_voca.Orchestrator.Steps.Commands.{
  process_commands_and_adaptive, check_for_correction, run_commands, run_result, run_action,
  run_capitalize,
}
use agent_voca.Orchestrator.Steps.Insertion.{run_insertion}
use agent_voca.Orchestrator.Steps.Insertion.Outcome.{IsInserted, IsRefused, run_insertion_ends}
use agent_voca.Orchestrator.Steps.Vision.{extract_all, apply_vision}
use agent_voca.Orchestrator.Pipeline.{
  correct, clean_and_insert, continue_unified, continue_pipelined, join_and_insert, join_spaced,
  text_or_empty, finish_unified, run_unified, finish_pipelined, run_pipelined,
}

-- The state of the machine, the last transcript and the transcript of the run are as before.
abbrev pub SameView : Orch → Orch → Type 0
SameView o o' =
    (o'.state ≡ o.state)
    × (o'.last_transcript ≡ o.last_transcript)
    × (o'.current_transcript ≡ o.current_transcript)

-- The whole text is a spoken command: the processor takes it for one, and nothing is left behind it.
abbrev pub IsCommand : Env → Text → Type 0
IsCommand env text =
    (process : Text → CommandResult) × (env.commands ≡ some process)
    × ((process text).matched ≡ true)
    × ((process text).remaining_text ≡ [])

module _ (u : Unicode) where
  check_for_correction-SameView :
      (env : Env) (text : Text) (o : Orch) → SameView o (check_for_correction u env text o)
  unfolding check_for_correction
  check_for_correction-SameView env text o = ground arith

  run_commands-SameView :
      (env : Env) (text : Text) (o : Orch) → SameView o (run_commands u env text o).1
  unfolding run_commands
  run_commands-SameView env [] o = (refl, refl, refl)
  run_commands-SameView env (c ∷ s) o = ground arith

  commands-SameView :
      (env : Env) (text : Text) (o : Orch)
      → SameView o (process_commands_and_adaptive u env text o).1
  unfolding process_commands_and_adaptive
  commands-SameView env text o = ground (
    arith,
    check_for_correction-SameView env text o,
    run_commands-SameView env text (check_for_correction u env text o),
  )

  pub extract_all_pure :
      (v : Vision) (text : Text) (shots : List (List ℕ)) (o : Orch)
      → (extract_all u v text shots o).1 ≡ o
  unfolding extract_all
  extract_all_pure v text [] o = refl
  extract_all_pure v text (shot ∷ shots) o = ground (arith, extract_all_pure v text shots o)

  vision-SameView_of :
      (env : Env) (v : Option Vision) (text : Text) (o : Orch)
      → env.vision ≡ v
      → SameView o (apply_vision u env text o).1
  unfolding apply_vision
  vision-SameView_of env none text o e = rw e (refl, refl, refl)
  vision-SameView_of env (some v) text o e =
      rw e (ground (arith, extract_all_pure v text v.shots o))

  -- The text of a dictation is in, or an error is shown and the earlier text kept.
  abbrev pub IsSettled : Orch → Orch → Type 0
  IsSettled o o' = ((t : Text) × IsInserted t o') ⊎ IsRefused o.last_transcript o'

  IsSettled-back : (o o₁ o' : Orch) → SameView o o₁ → IsSettled o₁ o' → IsSettled o o'
  IsSettled-back o o₁ o' s (inl x) = inl x
  IsSettled-back o o₁ o' s (inr x) = inr (x.0, x.1 ∙ s.1, x.2)

  clean_and_insert_ends :
      (env : Env) (r : Text × Bool) (o o' : Orch)
      → o.state ≡ cleaning
      → clean_and_insert u env r o ≡ (done tt, o')
      → IsSettled o o'
  unfolding clean_and_insert
  clean_and_insert_ends env (text, force) o o' h e =
      let (t, o₁, e₁, f₁) = bind_done (run_cleanup env text force) (run_insertion env) o tt o' e in
      let (ready, kept, _) = run_cleanup_ends env text force o o₁ t h e₁ in
      elim (run_insertion_ends env t o₁ o' ready f₁) [
        | inl x ↦ inl (t, x)
        | inr x ↦ inr (x.0, x.1 ∙ kept, x.2)
      ]

  finish_unified_ends :
      (env : Env) (text : Text) (o o' : Orch)
      → o.state ≡ cleaning
      → finish_unified u env text o ≡ (done tt, o')
      → IsSettled o o'
  unfolding finish_unified
  finish_unified_ends env text o o' h e =
      let m = apply_vision u env (correct u o text) in
      let (r, o₁, e₁, f₁) = bind_done m (clean_and_insert u env) o tt o' e in
      let same : SameView o (m o).1 = vision-SameView_of env env.vision (correct u o text) o refl in
      let same₁ : SameView o o₁ =
        subst (λ (x : Result (Text × Bool) × Orch). SameView o x.1) e₁ same in
      let settled = clean_and_insert_ends env r o₁ o' (same₁.0 ∙ h) f₁ in
      IsSettled-back o o₁ o' same₁ settled

  run_result_stops :
      (env : Env) (r : CommandResult) (text rest : Text) (o o' : Orch)
      → run_result u env r text o ≡ (done (true, rest), o')
      → (r.matched ≡ true) × (r.remaining_text ≡ [])
  unfolding run_result run_action run_capitalize
  run_result_stops env r text rest o o' h = ground (arith, h)

  run_commands_stops :
      (env : Env) (text rest : Text) (o o' : Orch)
      → run_commands u env text o ≡ (done (true, rest), o')
      → IsCommand env text
  unfolding run_commands
  run_commands_stops env [] rest o o' h = absurd (ground (arith, h))
  run_commands_stops env (c ∷ s) rest o o' h = go env.commands refl h
    where
      go :
          (p : Option (Text → CommandResult))
          → env.commands ≡ p
          → elim p as (λ z. Exec (Bool × Text)) [
            | none ↦ pure (false, c ∷ s)
            | some process ↦ run_result u env (process (c ∷ s)) (c ∷ s)
          ]
              o
            ≡ (done (true, rest), o')
          → IsCommand env (c ∷ s)
      go none e h = absurd (ground (arith, h))
      go (some process) e h =
          let stopped = run_result_stops env (process (c ∷ s)) (c ∷ s) rest o o' h in
          (process, e, stopped.0, stopped.1)

  -- The transcript of the run was a spoken command, and the pipeline itself has inserted nothing.
  abbrev pub IsStopped : Env → Orch → Orch → Type 0
  IsStopped env o o' =
      (o'.state ≡ cleaning)
      × (o'.last_transcript ≡ o.last_transcript)
      × IsCommand env (text_or_empty o'.current_transcript)

  continue_unified_ends :
      (env : Env) (answer : Bool × Text) (o o' : Orch)
      → o.state ≡ cleaning
      → (answer.0 ≡ true → IsCommand env (text_or_empty o.current_transcript))
      → continue_unified u env answer o ≡ (done tt, o')
      → IsSettled o o' ⊎ IsStopped env o o'
  unfolding continue_unified
  continue_unified_ends env (true, text) o o' h k e =
      let same : o ≡ o' = ground (arith, e) in inr (subst (IsStopped env o) same (h, refl, k refl))
  continue_unified_ends env (false, text) o o' h k e = inl (finish_unified_ends env text o o' h e)

  pub IsStopped-back :
      (env : Env) (o o₁ o' : Orch)
      → SameView o o₁
      → IsSettled o₁ o' ⊎ IsStopped env o₁ o'
      → IsSettled o o' ⊎ IsStopped env o o'
  IsStopped-back env o o₁ o' s (inl x) = inl (IsSettled-back o o₁ o' s x)
  IsStopped-back env o o₁ o' s (inr x) = inr (x.0, x.1 ∙ s.1, x.2)

  -- A run that is told to stop behind the commands has read a command.
  stops :
      (env : Env) (text : Text) (o o₁ : Orch) (r : Bool × Text)
      → text_or_empty o.current_transcript ≡ text
      → process_commands_and_adaptive u env text o ≡ (done r, o₁)
      → SameView o o₁
      → r.0 ≡ true
      → IsCommand env (text_or_empty o₁.current_transcript)
  unfolding process_commands_and_adaptive
  stops env text o o₁ (true, rest) same e view h =
      subst (IsCommand env) (sym same ∙ sym (ap text_or_empty view.2))
        (run_commands_stops env text rest (check_for_correction u env text o) o₁ e)
  stops env text o o₁ (false, rest) same e view h = absurd (ground (arith, h))

  pub run_unified_ends :
      (env : Env) (o o' : Orch)
      → o.state ≡ cleaning
      → run_unified u env o ≡ (done tt, o')
      → IsSettled o o' ⊎ IsStopped env o o'
  unfolding run_unified
  run_unified_ends env o o' h e =
      let m = process_commands_and_adaptive u env (text_or_empty o.current_transcript) in
      let (r, o₁, e₁, f₁) = bind_done m (continue_unified u env) o tt o' e in
      let same₁ : SameView o o₁ =
        subst (λ (x : Result (Bool × Text) × Orch). SameView o x.1) e₁
          (commands-SameView env (text_or_empty o.current_transcript) o) in
      let text = text_or_empty o.current_transcript in
      IsStopped-back env o o₁ o' same₁
        (continue_unified_ends env r o₁ o' (same₁.0 ∙ h) (stops env text o o₁ r refl e₁ same₁) f₁)

  finish_pipelined_ends :
      (env : Env) (text : Text) (o o' : Orch)
      → o.state ≡ cleaning
      → finish_pipelined u env text o ≡ (done tt, o')
      → IsSettled o o'
  unfolding finish_pipelined
  finish_pipelined_ends env text o o' h e =
      let (t, o₁, e₁, f₁) =
        bind_done (run_cleanup env text false) (join_and_insert u env) o tt o' e in
      let (ready, kept, _) = run_cleanup_ends env text false o o₁ t h e₁ in
      let joined = correct u o₁ (join_spaced (o₁.cleaned_segments ++ t ∷ [])) in
      elim (run_insertion_ends env joined o₁ o' ready f₁) [
        | inl x ↦ inl (joined, x)
        | inr x ↦ inr (x.0, x.1 ∙ kept, x.2)
      ]

  continue_pipelined_ends :
      (env : Env) (answer : Bool × Text) (o o' : Orch)
      → o.state ≡ cleaning
      → (answer.0 ≡ true → IsCommand env (text_or_empty o.current_transcript))
      → continue_pipelined u env answer o ≡ (done tt, o')
      → IsSettled o o' ⊎ IsStopped env o o'
  unfolding continue_pipelined
  continue_pipelined_ends env (true, text) o o' h k e =
      let same : o ≡ o' = ground (arith, e) in inr (subst (IsStopped env o) same (h, refl, k refl))
  continue_pipelined_ends env (false, text) o o' h k e =
      inl (finish_pipelined_ends env text o o' h e)

  pub run_pipelined_ends :
      (env : Env) (text : Text) (o o' : Orch)
      → o.state ≡ cleaning
      → o.current_transcript ≡ some text
      → run_pipelined u env text o ≡ (done tt, o')
      → IsSettled o o' ⊎ IsStopped env o o'
  unfolding run_pipelined
  run_pipelined_ends env text o o' h read e =
      let m = process_commands_and_adaptive u env text in
      let (r, o₁, e₁, f₁) = bind_done m (continue_pipelined u env) o tt o' e in
      let same₁ : SameView o o₁ =
        subst (λ (x : Result (Bool × Text) × Orch). SameView o x.1) e₁
          (commands-SameView env text o) in
      IsStopped-back env o o₁ o' same₁ (
        continue_pipelined_ends env r o₁ o' (same₁.0 ∙ h)
          (stops env text o o₁ r (ap text_or_empty read) e₁ same₁) f₁)
