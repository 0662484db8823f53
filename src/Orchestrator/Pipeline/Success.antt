-- ===== src/Orchestrator/Pipeline/Success.antt =====
-- Runs of the pipeline whose providers succeed.
use agent_voca.Prelude.{◌≡◌, refl}
use agent_voca.Text.{Text, Unicode}
use agent_voca.Orchestrator.{Env, Orch}
use agent_voca.Orchestrator.Pipeline.{correct}

module _ (u : Unicode) (env : Env) where
  pub correct_same :
      (o o' : Orch) (text : Text)
      → o'.vocab ≡ o.vocab
      → o'.snippets ≡ o.snippets
      → correct u o' text ≡ correct u o text
  unfolding correct
  correct_same o o' text v s = rw (v, s) refl
