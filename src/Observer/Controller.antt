-- ===== src/Observer/Controller.antt =====
-- observer/controller.py: `ObserverController`, which joins the session manager, the capture objects,
-- the compiler and the exporters. A `trace` lists, in order, what it calls and what it publishes;
-- the durations of the published events are left out.
pub mod Compile
pub mod Capture
pub mod Calls
pub mod Shutdown
use agent_voca.Prelude.{
  ℕ, Bool, true, false, not, ◌||◌, Option, none, some, List, [], ◌∷◌, ◌++◌, is_some, if◌then◌else◌,
}
use agent_voca.Text.{Text}
use agent_voca.Vocab.Dictionary.{Mapping}
use agent_voca.Observer.{ObserverEvent, ObserverSession}
use agent_voca.Observer.Store
use agent_voca.Observer.Store.{Store, flush, drain, enqueue}
use agent_voca.Observer.Store.Purge.{stop}
use agent_voca.Observer.Session
use agent_voca.Observer.Session.{Manager}

-- The labels of the objects that a controller calls.
pub data Label : Type 0 where
  ambient triggers grabber ocr selection : Label

pub data Surface : Type 0 where
  compiler indicator : Surface

-- `getattr(obj, "start", None)`: a method that is not there, or a callable and how it ends.
pub data Hook : Type 0 where
  missing returns raises : Hook

pub record CaptureObject : Type 0 where
  pub start_hook : Hook
  pub stop_hook : Hook

pub data Method : Type 0 where
  start_method stop_method : Method

-- The events of the bus.
pub data Message : Type 0 where
  session_started : Text → ℕ → ℕ → Message
  session_ended : Text → ℕ → Message
  paused : Bool → Text → Message
  compiled_message : Text → Text → Option Text → Bool → Message

pub data Action : Type 0 where
  called : Method → Label → Action
  shut_down : Surface → Action
  published : Message → Action
  scheduled : ℕ → Action

pub record CompiledSession : Type 0 where
  pub markdown : Text
  pub summary : Text
  pub blocks : List Mapping
  pub provider : Text
  pub degraded : Bool

pub record SessionBundle : Type 0 where
  pub session : ObserverSession
  pub events : List ObserverEvent

-- What an exporter does: an exception, `None`, a path, or a dictionary's two paths.
pub data Export : Type 0 where
  raised nothing : Export
  path : Text → Export
  paths : Option Text → Option Text → Export

abbrev pub Exporter : Type 0
Exporter = CompiledSession → SessionBundle → Export

-- `compile`; `none` is an exception.
abbrev pub Compiler : Type 0
Compiler = SessionBundle → Option CompiledSession

pub record Controller : Type 0 where
  pub enabled : Bool
  pub manager : Manager
  pub ambient_object : Option CaptureObject
  pub triggers_object : Option CaptureObject
  pub grabber_object : Option CaptureObject
  pub ocr_object : Option CaptureObject
  pub selection_object : Option CaptureObject
  pub compiler_object : Option (Compiler × Hook)
  pub exporters : List Exporter
  pub indicator_object : Option Hook
  pub loop_is_open : Bool
  pub trace : List Action

-- `ObserverController(config, event_bus, store, loop)`
abbrev pub init : Bool → Store → Controller
init enabled store = record {
  enabled = enabled;
  manager = Session.init store;
  ambient_object = none;
  triggers_object = none;
  grabber_object = none;
  ocr_object = none;
  selection_object = none;
  compiler_object = none;
  exporters = [];
  indicator_object = none;
  loop_is_open = true;
  trace = [];
}

abbrev pub attach_capture :
    Option CaptureObject
    → Option CaptureObject
    → Option CaptureObject
    → Option CaptureObject
    → Option CaptureObject
    → Controller
    → Controller
attach_capture a t g o s c = record c {
  ambient_object = a;
  triggers_object = t;
  grabber_object = g;
  ocr_object = o;
  selection_object = s;
}

abbrev pub attach_surface :
    Option (Compiler × Hook) → List Exporter → Option Hook → Controller → Controller
attach_surface compiler_object exporters indicator_object c = record c {
  compiler_object = compiler_object;
  exporters = exporters;
  indicator_object = indicator_object;
}

-- The tuple that the loops of the controller go through.
abbrev pub capture_objects : Controller → List (Label × Option CaptureObject)
capture_objects c =
    (ambient, c.ambient_object)
    ∷ (triggers, c.triggers_object)
    ∷ (grabber, c.grabber_object)
    ∷ (ocr, c.ocr_object)
    ∷ (selection, c.selection_object)
    ∷ []

abbrev pub hook_of : Method → CaptureObject → Hook
hook_of start_method o = o.start_hook
hook_of stop_method o = o.stop_hook

-- A callable is called, and an exception of it is only logged.
unfoldable pub call_hook : Hook → Action → List Action
call_hook missing a = []
call_hook returns a = a ∷ []
call_hook raises a = a ∷ []

unfoldable pub call_all : Method → List (Label × Option CaptureObject) → List Action
unfolding call_hook
call_all m [] = []
call_all m ((l, none) ∷ objects) = call_all m objects
call_all m ((l, some o) ∷ objects) = call_hook (hook_of m o) (called m l) ++ call_all m objects

abbrev pub is_active : Controller → Bool
is_active c = is_some c.manager.current

abbrev pub trace_all : List Action → Controller → Controller
trace_all actions c = record c { trace = c.trace ++ actions }

abbrev pub publish : Message → Controller → Controller
publish message = trace_all (published message ∷ [])

-- The hooks and the event of the session that `open` returns.
unfoldable pub begin_session : Option ObserverSession → Controller → Option (Bool × Controller)
unfolding call_all
begin_session none c = none
begin_session (some session) c =
    let c' = trace_all (call_all start_method (capture_objects c)) c in
    some (true, publish (session_started session.uuid session.id session.started_at_ms) c')

-- `start_session`; `none` is the error of a store that is not started.
unfoldable pub start_session : Text → ℕ → Text → Controller → Option (Bool × Controller)
unfolding begin_session Session.open_session
start_session app_version now_ms uuid c =
    if not c.enabled || is_active c
    then some (false, c)
    else elim (Session.open_session app_version now_ms uuid c.manager) [
      | none ↦ none
      | some m ↦ begin_session m.current (record c { manager = m })
    ]

-- `_schedule_compile`
abbrev pub schedule_compile : ℕ → Controller → Controller
schedule_compile i c = if c.loop_is_open then trace_all (scheduled i ∷ []) c else c

abbrev pub schedule_if_attached : ℕ → Controller → Controller
schedule_if_attached i c = elim c.compiler_object [ none ↦ c | some o ↦ schedule_compile i c ]

-- The event of the session that `close` returns, and the compilation.
unfoldable pub end_session : Text → ℕ → Option ObserverSession → Controller → Controller
end_session uuid i none c = c
end_session uuid i (some closed) c = schedule_if_attached i (publish (session_ended uuid i) c)

-- `stop_session`
unfoldable pub stop_session : ℕ → Controller → Controller
unfolding call_all end_session Session.close_session
stop_session ended_at_ms c = elim c.manager.current [
  | none ↦ c
  | some session ↦
      let (ended, m) = Session.close_session ended_at_ms c.manager in
      end_session session.uuid session.id ended
        (trace_all (call_all stop_method (capture_objects c)) (record c { manager = m }))
]

-- `toggle_session`
abbrev pub toggle_session : Text → ℕ → Text → Controller → Option Controller
toggle_session app_version now_ms uuid c =
    if is_active c
    then some (stop_session now_ms c)
    else elim (start_session app_version now_ms uuid c) [ none ↦ none | some r ↦ some r.1 ]

unfoldable pub pause : Text → Controller → Controller
unfolding Session.pause
pause reason c =
    let (changed, m) = Session.pause reason c.manager in
    let c' = record c { manager = m } in if changed then publish (paused true reason) c' else c'

unfoldable pub resume : Text → Controller → Controller
unfolding Session.resume
resume reason c =
    let (changed, m) = Session.resume c.manager in
    let c' = record c { manager = m } in if changed then publish (paused false reason) c' else c'

-- `shutdown` of the compiler and of the indicator; an exception, or one in the coroutine, is logged.
unfoldable pub shut_down_object : Option Hook → Surface → List Action
unfolding call_hook
shut_down_object none s = []
shut_down_object (some h) s = call_hook h (shut_down s)

abbrev pub compiler_hook : Option (Compiler × Hook) → Option Hook
compiler_hook none = none
compiler_hook (some o) = some o.1

abbrev pub shutdown_surface : Controller → Controller
shutdown_surface c =
    trace_all
      (shut_down_object (compiler_hook c.compiler_object) compiler
        ++ shut_down_object c.indicator_object indicator)
      c

-- `self._store.flush(timeout=2.0)`: without a writer the barrier stays in the queue.
abbrev pub flush_store : Store → Store
flush_store s = if s.started then drain s else enqueue flush s

-- `shutdown`
unfoldable pub close_at_shutdown : ℕ → Controller → Controller
unfolding call_all Session.close_session
close_at_shutdown ended_at_ms c = elim c.manager.current [
  | none ↦ c
  | some session ↦ record c {
    trace = c.trace ++ call_all stop_method (capture_objects c);
    manager = (Session.close_session ended_at_ms c.manager).1;
  }
]

unfoldable pub shutdown : ℕ → Controller → Controller
unfolding close_at_shutdown stop shut_down_object
shutdown ended_at_ms c =
    let c' = shutdown_surface (close_at_shutdown ended_at_ms c) in
    record c' { manager = record c'.manager { store = stop (flush_store c'.manager.store) } }
