-- ===== src/Orchestrator/Steps/Cleanup/Outcome.antt =====
-- What a cleanup returns, and in which state it leaves the machine.
use agent_voca.Prelude.{Bool, ◌≡◌, ◌⊎◌, arith}
use agent_voca.Text.{Text}
use agent_voca.Machine.{cleaning, inserting}
use agent_voca.Machine.Taken.{error_cleaned, error_raw, cleaned_inserts, raw_inserts}
use agent_voca.Orchestrator.{Env, Orch, returned}
use agent_voca.Orchestrator.Exec.{done}
use agent_voca.Orchestrator.Steps.Insertion.Outcome.{IsFailed}
use agent_voca.Orchestrator.Steps.Cleanup.{run_cleanup, resolve_context, cleanup_context}

module _ (env : Env) where
  -- The text is the raw one, or what the provider made of it at one of the two attempts.
  abbrev pub IsCleanupOf : Bool → Orch → Text → Text → Type 0
  IsCleanupOf force o text out =
      (out ≡ text)
      ⊎ (env.rewrite 0 text (cleanup_context env force (resolve_context env o)) ≡ returned out)
      ⊎ (env.rewrite 1 text (cleanup_context env force (resolve_context env o)) ≡ returned out)

  -- A cleanup that returns has moved the machine from cleaning to inserting; its text is the raw
  -- transcript or the provider's answer to it; it inserts nothing.
  pub run_cleanup_ends :
      (text : Text) (force : Bool) (o o' : Orch) (out : Text)
      → o.state ≡ cleaning
      → run_cleanup env text force o ≡ (done out, o')
      → (o'.state ≡ inserting)
        × (o'.last_transcript ≡ o.last_transcript)
        × IsCleanupOf force o text out
  unfolding run_cleanup
  run_cleanup_ends text force o o' out h e = ground (arith, cleaned_inserts, raw_inserts)

  -- A machine in error, with its timer set, stays so.
  pub run_cleanup-IsFailed :
      (text : Text) (force : Bool) (o : Orch)
      → IsFailed o
      → IsFailed (run_cleanup env text force o).1
  unfolding run_cleanup
  run_cleanup-IsFailed text force o h = ground (arith, error_cleaned, error_raw)
