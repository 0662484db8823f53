-- ===== src/Observer/Controller/Calls.antt =====
-- The calls of the controller, in any order.
use agent_voca.Prelude.{ℕ, Bool, Option, none, some, List, [], ◌∷◌}
use agent_voca.Text.{Text}
use agent_voca.Observer.Controller.{
  Controller, start_session, stop_session, toggle_session, pause, resume, shutdown,
}
use agent_voca.Observer.Controller.Compile.{run_compile}

pub data Call : Type 0 where
  start_call toggle_call : Text → ℕ → Text → Call
  stop_call compile_call shutdown_call : ℕ → Call
  pause_call resume_call : Text → Call

-- A call that raises an error leaves the controller as it was.
abbrev pub after_start : Option (Bool × Controller) → Controller → Controller
after_start none c = c
after_start (some r) c = r.1

abbrev pub after_toggle : Option Controller → Controller → Controller
after_toggle none c = c
after_toggle (some c') c = c'

unfoldable pub perform_call : Call → Controller → Controller
unfolding start_session stop_session pause resume run_compile shutdown
perform_call (start_call app_version now_ms uuid) c =
    after_start (start_session app_version now_ms uuid c) c
perform_call (toggle_call app_version now_ms uuid) c =
    after_toggle (toggle_session app_version now_ms uuid c) c
perform_call (stop_call now_ms) c = stop_session now_ms c
perform_call (compile_call i) c = run_compile i c
perform_call (shutdown_call now_ms) c = shutdown now_ms c
perform_call (pause_call reason) c = pause reason c
perform_call (resume_call reason) c = resume reason c

unfoldable pub run_calls : List Call → Controller → Controller
unfolding perform_call
run_calls [] c = c
run_calls (k ∷ ks) c = run_calls ks (perform_call k c)
