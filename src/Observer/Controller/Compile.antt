-- ===== src/Observer/Controller/Compile.antt =====
-- observer/controller.py: `_run_compile`, with `load_bundle` of observer/store.py.
pub mod Marks
use agent_voca.Prelude.{
  ℕ, Bool, true, false, not, ◌||◌, Option, none, some, List, [], ◌∷◌, ◌++◌, ◌==◌, if◌then◌else◌,
}
use agent_voca.Text.{Text, is_empty}
use agent_voca.Observer.{ObserverSession, compiled}
use agent_voca.Observer.Store.{Store, enqueue, mark, load_events}
use agent_voca.Observer.Controller.{
  Controller, CompiledSession, SessionBundle, Export, raised, nothing, path, paths, Exporter,
  compiled_message, publish, Compiler,
}

-- `SELECT ... FROM sessions WHERE id = ?`
unfoldable pub find_session : ℕ → List ObserverSession → Option ObserverSession
find_session i [] = none
find_session i (s ∷ l) = let rest = find_session i l in if s.id == i then some s else rest

-- `load_bundle`; `none` is the error of an unknown session.
unfoldable pub load_bundle : ℕ → Store → Option SessionBundle
unfolding find_session load_events
load_bundle i s = elim (find_session i s.sessions) [
  | none ↦ none
  | some session ↦ some (record { session = session; events = load_events i s })
]

-- Whether an optional path counts as true.
abbrev pub is_path : Option Text → Bool
is_path none = false
is_path (some t) = not (is_empty t)

-- `result.get("markdown_path", "")`
abbrev pub path_or_empty : Option Text → Text
path_or_empty none = []
path_or_empty (some t) = t

-- The two paths, `markdown_path` and `json_path`, behind one exporter.
unfoldable pub add_export : Export → Text × Option Text → Text × Option Text
add_export raised p = p
add_export nothing p = p
add_export (path t) p = (if is_empty p.0 then t else p.0, p.1)
add_export (paths m j) p =
    (if is_empty p.0 then path_or_empty m else p.0, if is_path p.1 then p.1 else j)

unfoldable pub run_exporters :
    List Exporter → CompiledSession → SessionBundle → Text × Option Text → Text × Option Text
unfolding add_export
run_exporters [] compiled_session bundle p = p
run_exporters (e ∷ es) compiled_session bundle p =
    run_exporters es compiled_session bundle (add_export (e compiled_session bundle) p)

-- `self._store.mark_compiled(session_id=session_id)`
abbrev pub mark_compiled : ℕ → Controller → Controller
mark_compiled i c = record c {
  manager = record c.manager { store = enqueue (mark i compiled) c.manager.store };
}

-- From the compiled session on.
unfoldable pub export_session : ℕ → SessionBundle → CompiledSession → Controller → Controller
unfolding run_exporters
export_session i bundle s c =
    let p = run_exporters c.exporters s bundle ([], none) in
    publish (compiled_message bundle.session.uuid p.0 p.1 s.degraded)
      (if not (is_empty p.0) || is_path p.1 then mark_compiled i c else c)

unfoldable pub compile_bundle : Compiler → ℕ → SessionBundle → Controller → Controller
unfolding export_session
compile_bundle compile i bundle c = elim (compile bundle) [
  | none ↦ publish (compiled_message bundle.session.uuid [] none true) c
  | some s ↦ export_session i bundle s c
]

-- `_run_compile`, as a task of the loop: the error of a session that is gone ends the task.
unfoldable pub run_compile : ℕ → Controller → Controller
unfolding compile_bundle load_bundle
run_compile i c = elim c.compiler_object [
  | none ↦ c
  | some o ↦ elim (load_bundle i c.manager.store) [
    | none ↦ c
    | some bundle ↦ compile_bundle o.0 i bundle c
  ]
]
