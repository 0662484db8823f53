-- ===== src/Orchestrator/Steps/Insertion/Outcome.antt =====
-- How an insertion ends.
use agent_voca.Prelude.{true, Option, some, ◌≡◌, ◌⊎◌, arith}
use agent_voca.Text.{Text}
use agent_voca.Machine.{idle, inserting, error}
use agent_voca.Machine.Taken.{
  error_inserted, error_pasted, error_refused, inserted_idles, pasted_idles, insertion_fails,
}
use agent_voca.Orchestrator.{Env, Orch}
use agent_voca.Orchestrator.Exec.{done}
use agent_voca.Orchestrator.Steps.Insertion.{run_insertion}

-- The text is in, or it is not and the machine is in error.
abbrev pub IsInserted : Text → Orch → Type 0
IsInserted text o = (o.state ≡ idle) × (o.last_transcript ≡ some text)

abbrev pub IsRefused : Option Text → Orch → Type 0
IsRefused last o = (o.state ≡ error) × (o.last_transcript ≡ last) × (o.error_timer ≡ true)

abbrev pub IsFailed : Orch → Type 0
IsFailed o = (o.state ≡ error) × (o.error_timer ≡ true)

module _ (env : Env) where
  -- An insertion from inserting that returns has either put the text in, with the machine idle and
  -- the text as the last transcript, or left the machine in error with its timer set and the last
  -- transcript as it was.
  pub run_insertion_ends :
      (text : Text) (o o' : Orch)
      → o.state ≡ inserting
      → run_insertion env text o ≡ (done tt, o')
      → IsInserted text o' ⊎ IsRefused o.last_transcript o'
  unfolding run_insertion
  run_insertion_ends text o o' h e = ground (arith, inserted_idles, pasted_idles, insertion_fails)

  -- A machine in error, with its timer set, stays so.
  pub run_insertion-IsFailed :
      (text : Text) (o : Orch) → IsFailed o → IsFailed (run_insertion env text o).1
  unfolding run_insertion
  run_insertion-IsFailed text o h = ground (arith, error_inserted, error_pasted, error_refused)
