-- ===== src/Tests/Storage.antt =====
-- The store, the controller, the triggers and the worker at concrete inputs.
use agent_voca.Prelude.{
  ℕ, true, false, Option, none, some, List, [], ◌∷◌, ◌++◌, ◌≡◌, refl, arith, All, length,
}
use agent_voca.Text.{Text, codes}
use agent_voca.Orchestrator.{Answer, returned}
use agent_voca.Observer.{
  ObserverEvent, ObserverSession, SessionStatus, opened, closed, compiled, keyframe,
}
use agent_voca.Observer.Store.{append, of_session, enqueue, flush}
use agent_voca.Observer.Store.Purge.{Archive, purge_expired, expired_ids, cutoff_ms}
use agent_voca.Observer.Store.Purge.Laws.{kept, purge_expired-exact}
use agent_voca.Observer.Store.Integrity.{IsSound}
use agent_voca.Observer.Store.Runs
use agent_voca.Observer.Store.Runs.{Call, run_calls, run_calls-IsSound}
use agent_voca.Observer.Controller
use agent_voca.Observer.Controller.{
  Controller, CaptureObject, returns, raises, ambient, is_active, CompiledSession, SessionBundle,
  Compiler, Exporter, path, paths, nothing, raised, shutdown,
}
use agent_voca.Observer.Controller.Calls
use agent_voca.Observer.Controller.Capture
use agent_voca.Observer.Controller.Capture.Steady.{IsSteady, run_calls-IsSteady}
use agent_voca.Observer.Controller.Compile.{load_bundle, run_compile}
use agent_voca.Observer.Controller.Compile.Marks.{IsMarked, run_compile-IsMarked}
use agent_voca.Observer.Controller.Shutdown.{shutdown-shutdown}
use agent_voca.Observer.Triggers
use agent_voca.Observer.Triggers.{Sources, Input, speech, scrolled, clicked, polled, Point, pos}
use agent_voca.Observer.Triggers.Focus.{focuses, changes, answers, run-changes}
use agent_voca.Observer.Arbiter
use agent_voca.Observer.Arbiter.{Arbiter, AmbientJob}
use agent_voca.Observer.Arbiter.Worker.{
  turns, all_heard, until_sentinel, busy, turns-until_sentinel,
}

abbrev event : ObserverEvent
event = record {
  id = 0;
  session_id = 1;
  ts_ms = 100;
  kind = keyframe;
  app_name = none;
  window_title = none;
  text = none;
  blob_path = none;
  meta = [];
}

abbrev empty_archive : Archive
empty_archive = record {
  store = record {
    started = true;
    queue = [];
    last_ts_ms = [];
    sessions = [];
    events = [];
    next_session = 1;
    next_event = 1;
  };
  blobs = [];
  exports = [];
}

-- A session is recorded, closed and purged, and another one begins.
abbrev calls : List Runs.Call
calls =
    Runs.open_call (codes "0.4.0") 5 (codes "a")
    ∷ Runs.enqueue_call (append event)
    ∷ Runs.write_call
    ∷ Runs.close_call 1 9
    ∷ Runs.expire_call 90000000 1
    ∷ Runs.open_call (codes "0.4.0") 90000001 (codes "b")
    ∷ Runs.enqueue_call (append event)
    ∷ Runs.stop_call
    ∷ []

run_calls-IsSound_example : IsSound (run_calls (λ t. true) calls empty_archive).store
run_calls-IsSound_example = run_calls-IsSound (λ t. true) calls empty_archive (tt, tt, tt)

abbrev session : ℕ → SessionStatus → Option ℕ → ObserverSession
session i status ended = record {
  id = i;
  uuid = codes "u";
  started_at_ms = 1;
  ended_at_ms = ended;
  status = status;
  app_version = codes "0.4.0";
  schema_version = 1;
}

-- An old session, one that is open, and a recent one.
abbrev archive : Archive
archive = record empty_archive {
  store = record empty_archive.store {
    sessions =
        session 1 closed (some 2) ∷ session 2 opened none ∷ session 3 compiled (some 90000000) ∷ [];
    events = event ∷ record event { id = 1; session_id = 2 } ∷ [];
  };
}

purge_expired-exact_example :
    let cutoff = cutoff_ms 100000000 1 in
    let left = kept cutoff archive.store.sessions in
    (a' : Archive) × (purge_expired (λ t. true) 100000000 1 archive
      ≡ some (length (expired_ids cutoff archive.store.sessions), a'))
    × (a'.store.sessions ≡ left)
    × All
        (λ (x : ObserverSession).
          of_session x.id a'.store.events ≡ of_session x.id archive.store.events)
        left
purge_expired-exact_example =
    purge_expired-exact (λ t. true) 100000000 1 archive (refl, refl)
      ((omega arith, (omega arith, tt)), ((omega arith, tt), (tt, tt))) refl

-- A recorder with one capture object, whose stop fails.
abbrev listener : CaptureObject
listener = record { start_hook = returns; stop_hook = raises }

abbrev document : CompiledSession
document = record {
  markdown = codes "# notes";
  summary = [];
  blocks = [];
  provider = codes "rules";
  degraded = false;
}

abbrev compile : Compiler
compile bundle = some document

abbrev exporters : List Exporter
exporters =
    (λ d b. raised)
    ∷ (λ d b. nothing)
    ∷ (λ d b. paths (some (codes "a.md")) (some (codes "a.json")))
    ∷ (λ d b. path (codes "b.md"))
    ∷ []

abbrev controller : Controller
controller = Controller.attach_surface (some (compile, returns)) exporters none (
    Controller.attach_capture (some listener) none none none none
      (Controller.init true archive.store))

abbrev controller_calls : List Calls.Call
controller_calls =
    Calls.start_call (codes "0.4.0") 5 (codes "a")
    ∷ Calls.pause_call (codes "hotkey")
    ∷ Calls.toggle_call (codes "0.4.0") 9 (codes "b")
    ∷ Calls.compile_call 1
    ∷ Calls.start_call (codes "0.4.0") 12 (codes "c")
    ∷ []

run_calls-IsSteady_example : IsSteady ambient (Calls.run_calls controller_calls controller)
unfolding Capture.is_attached Capture.is_told
run_calls-IsSteady_example = run_calls-IsSteady ambient controller_calls controller (refl, refl)

abbrev old_bundle : SessionBundle
old_bundle = record { session = session 1 closed (some 2); events = event ∷ [] }

run_compile-IsMarked_example :
    IsMarked 1 old_bundle (compile old_bundle) controller (run_compile 1 controller)
unfolding load_bundle
run_compile-IsMarked_example =
    run_compile-IsMarked compile returns 1 old_bundle controller refl refl

shutdown-shutdown_example :
    let once = shutdown 20 (Calls.run_calls controller_calls controller) in
    let twice = shutdown 30 once in
    (is_active once ≡ false)
    × (once.manager.store.started ≡ false)
    × (is_active twice ≡ false)
    × (twice.manager.store ≡ enqueue flush once.manager.store)
shutdown-shutdown_example = shutdown-shutdown 20 30 (Calls.run_calls controller_calls controller)

abbrev sources : Sources
sources = record {
  on_window_change = true;
  on_scroll_settle = true;
  on_click_selection = true;
  on_speech = true;
  scroll_settle_ms = 400;
}

-- Two applications, a drag, and a scroll that settles.
abbrev inputs : List Input
inputs =
    polled (some (some (codes "a"), none)) 10
    ∷ polled (some (some (codes "a"), none)) 510
    ∷ clicked (record { x = pos 0; y = pos 0 }) true
    ∷ clicked (record { x = pos 60; y = pos 0 }) false
    ∷ scrolled 600
    ∷ speech
    ∷ polled (some (some (codes "b"), none)) 1010
    ∷ polled none 1510
    ∷ []

run-changes_example :
    focuses (Triggers.run sources inputs Triggers.init).1
    ≡ changes Triggers.init.last_app (answers sources inputs)
run-changes_example = run-changes sources inputs Triggers.init refl

abbrev job : AmbientJob
job = record { audio = 1 ∷ []; ts_ms = 5; duration_ms = 20; sample_rate = 16000 }

abbrev transcribe : AmbientJob → Answer Text
transcribe j = returned (codes "hi")

turns-until_sentinel_example :
    turns transcribe 6 (busy transcribe (Arbiter.init 16) (until_sentinel (job ∷ job ∷ [])) none [])
    ≡ record (busy transcribe
        (Arbiter.init 16)
        []
        none
        ([] ++ all_heard transcribe (job ∷ job ∷ []))) { running = false }
turns-until_sentinel_example =
    turns-until_sentinel transcribe 6 (job ∷ job ∷ []) (Arbiter.init 16) [] (refl, (refl, tt))
      (omega arith)
