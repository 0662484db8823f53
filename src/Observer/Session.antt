-- ===== src/Observer/Session.antt =====
-- observer/session.py: `SessionManager`, the open session and its pauses over the store.
pub mod Laws
use agent_voca.Prelude.{
  ℕ, Bool, true, false, ◌&&◌, not, Option, none, some, List, [], ◌∷◌, if◌then◌else◌,
}
use agent_voca.Text.{Text}
use agent_voca.Vocab.Dictionary.{Mapping}
use agent_voca.Observer.{
  EventKind, pause_start, pause_end, gap, ObserverEvent, ObserverSession, closed,
}
use agent_voca.Observer.Store
use agent_voca.Observer.Store.{Store, append, enqueue}

-- `kind in _ALWAYS_WRITE_KINDS`
unfoldable pub always_writes : EventKind → Bool
always_writes pause_start = true
always_writes pause_end = true
always_writes gap = true
always_writes _ = false

pub record Manager : Type 0 where
  pub store : Store
  pub current : Option ObserverSession
  pub is_paused : Bool
  pub pause_reason : Text

-- `SessionManager(store)`
abbrev pub init : Store → Manager
init store = record { store = store; current = none; is_paused = false; pause_reason = [] }

-- `open`; `none` is an error.
unfoldable pub open_session : Text → ℕ → Text → Manager → Option Manager
open_session app_version now_ms uuid m = elim m.current [
  | some session ↦ none
  | none ↦ elim (Store.open_session app_version now_ms uuid m.store) [
    | none ↦ none
    | some (session, store) ↦
        some
          (record { store = store; current = some session; is_paused = false; pause_reason = [] })
  ]
]

-- `close`, with the closed session
unfoldable pub close_session : ℕ → Manager → Option ObserverSession × Manager
close_session ended_at_ms m = elim m.current [
  | none ↦ (none, m)
  | some session ↦ (
    some (record session { ended_at_ms = some ended_at_ms; status = closed }),
    record {
      store = Store.close_session session.id ended_at_ms m.store;
      current = none;
      is_paused = false;
      pause_reason = [];
    },
  )
]

unfoldable pub pause : Text → Manager → Bool × Manager
pause reason m = elim m.current [
  | none ↦ (false, m)
  | some session ↦
      if m.is_paused
      then (false, m)
      else (true, record m { is_paused = true; pause_reason = reason })
]

unfoldable pub resume : Manager → Bool × Manager
resume m = elim m.current [
  | none ↦ (false, m)
  | some session ↦
      if m.is_paused then (true, record m { is_paused = false; pause_reason = [] }) else (false, m)
]

-- The arguments of `record`, behind the default of `ts_ms`.
pub record Entry : Type 0 where
  pub kind : EventKind
  pub app_name : Option Text
  pub window_title : Option Text
  pub text : Option Text
  pub blob_path : Option Text
  pub meta : Mapping
  pub ts_ms : ℕ

-- The event of an entry of the session.
abbrev pub event_of : ObserverSession → Entry → ObserverEvent
event_of session e = record {
  id = 0;
  session_id = session.id;
  ts_ms = e.ts_ms;
  kind = e.kind;
  app_name = e.app_name;
  window_title = e.window_title;
  text = e.text;
  blob_path = e.blob_path;
  meta = e.meta;
}

-- `record`, with the event that it returns
unfoldable pub record_event : Entry → Manager → Option ObserverEvent × Manager
unfolding always_writes
record_event e m = elim m.current [
  | none ↦ (none, m)
  | some session ↦ if m.is_paused && not (always_writes e.kind) then (none, m) else (
    some (event_of session e),
    record m { store = enqueue (append (event_of session e)) m.store },
  )
]
