-- ===== src/Orchestrator/Steps/Cleanup.antt =====
-- `_resolve_context` and `_run_cleanup`, with one retry and the raw transcript as the last resort.
pub mod Outcome
use agent_voca.Prelude.{
  ℕ, zero, suc, ◌+◌, Bool, true, false, ◌||◌, Option, none, some, [], ◌∷◌, if◌then◌else◌,
}
use agent_voca.Text.{Text}
use agent_voca.Machine.{
  error_event, cleaned_text as cleaned_text_event, cleanup as cleanup_stage, no_context,
}
use agent_voca.Orchestrator.{
  Env, Orch, CleanupContext, returned, provider_error, other_error, cancelled, Stage, timing,
  cleaned_text, context_resolved,
}
use agent_voca.Orchestrator.Exec.{
  Exec, done, raised, stopped, ◌>>=◌, ◌>>◌, pure, gets, modify, publish, publish_to, transition,
}

-- `if app_name and self._profile_resolver is not None`
abbrev style_for : (Text → Option Text) → Option Text → Option Text
style_for resolve none = none
style_for resolve (some []) = none
style_for resolve (some (c ∷ s)) = resolve (c ∷ s)

abbrev style_or : Text → Option Text → Text
style_or default none = default
style_or default (some []) = default
style_or default (some (c ∷ s)) = c ∷ s

abbrev unresolved : Orch → Orch
unresolved o = record o {
  resolved_style = none;
  resolved_app_name = none;
  resolved_language = none;
}

module _ (env : Env) where
  unfoldable pub resolve_context : Orch → Orch
  resolve_context o = elim env.context [
    | none ↦ unresolved o
    | some engine ↦
        let style = style_for engine.resolve engine.app_name in
        record (publish_to (context_resolved engine.app_name style engine.language)
          (unresolved o)) {
            resolved_style = style;
            resolved_app_name = engine.app_name;
            resolved_language = engine.language;
          }
  ]

  -- The cleanup gave up: the raw transcript goes on.
  unfoldable pub use_raw : Text → Exec Text
  use_raw text = do
    publish (cleaned_text text true)
    _ ← transition error_event (record no_context { stage = some cleanup_stage })
    pure text

  unfoldable pub accept_cleaned : Text → Exec Text
  accept_cleaned cleaned = do
    publish (timing Stage.cleanup)
    publish (cleaned_text cleaned false)
    _ ← transition cleaned_text_event (record no_context { success = some true })
    modify (λ o. record o { cleanup_success = true })
    pure cleaned

  unfoldable pub give_up_cleanup : Text → Exec Text
  unfolding use_raw
  give_up_cleanup text = do
    text' ← use_raw text
    modify (λ o. record o { cleanup_success = false })
    pure text'

  -- The loop, with the attempts that are left and the number of this one.
  unfoldable pub cleanup_attempts : Text → CleanupContext → ℕ → ℕ → Exec Text
  unfolding accept_cleaned give_up_cleanup
  cleanup_attempts text context zero attempt o = give_up_cleanup text o
  cleanup_attempts text context (suc left) attempt o = elim (env.rewrite attempt text context) [
    | returned cleaned ↦ accept_cleaned cleaned o
    | provider_error ↦ cleanup_attempts text context left (attempt + 1) o
    | other_error ↦ (raised, o)
    | cancelled ↦ (stopped, o)
  ]

  -- `_CLEANUP_RETRIES`
  abbrev pub cleanup_retries : ℕ
  cleanup_retries = 1

  -- The `CleanupContext` of a call, behind the resolved context.
  abbrev pub cleanup_context : Bool → Orch → CleanupContext
  cleanup_context force_preserve_code o = record {
    style = style_or env.style o.resolved_style;
    preserve_code = env.preserve_code || force_preserve_code;
    app_name = o.resolved_app_name;
  }

  unfoldable pub run_cleanup : Text → Bool → Exec Text
  unfolding resolve_context use_raw cleanup_attempts
  run_cleanup text force_preserve_code o =
      let o' = resolve_context o in
      if env.cleanup_available
      then cleanup_attempts text (cleanup_context force_preserve_code o') (1 + cleanup_retries) 0 o'
      else use_raw text o
