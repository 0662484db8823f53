-- ===== src/Observer/Store/Purge.antt =====
-- observer/store.py: the storage management of the store (sessions left open, the list of sessions,
-- purges, stop). The directories of blobs and of exports are lists of the sessions' uuids; whether
-- one can be removed is an argument.
pub mod Laws
use agent_voca.Prelude.{
  ℕ, suc, ◌+◌, ◌-◌, ◌*◌, Bool, true, false, ◌&&◌, ◌||◌, not, Option, none, some, List, [], ◌∷◌, ltb,
  ◌==◌, if◌then◌else◌, length,
}
use agent_voca.Text.{Text, text_eq}
use agent_voca.Observer.{
  ObserverEvent, ObserverSession, SessionStatus, opened, closed, compiled, abandoned,
}
use agent_voca.Observer.Store.{Store, drain}

-- The store beside the directories that it keeps.
pub record Archive : Type 0 where
  pub store : Store
  pub blobs : List Text
  pub exports : List Text

-- `status = 'open'`
abbrev pub is_open : SessionStatus → Bool
is_open opened = true
is_open closed = false
is_open compiled = false
is_open abandoned = false

-- `SELECT uuid FROM sessions WHERE id = ?`
unfoldable pub uuid_of : ℕ → List ObserverSession → Option Text
uuid_of i [] = none
uuid_of i (s ∷ l) = let rest = uuid_of i l in if s.id == i then some s.uuid else rest

-- `DELETE FROM sessions WHERE id = ?`, and the events behind the foreign key
unfoldable pub delete_session : ℕ → List ObserverSession → List ObserverSession
delete_session i [] = []
delete_session i (s ∷ l) = let rest = delete_session i l in if s.id == i then rest else s ∷ rest

unfoldable pub delete_events : ℕ → List ObserverEvent → List ObserverEvent
delete_events i [] = []
delete_events i (e ∷ l) =
    let rest = delete_events i l in if e.session_id == i then rest else e ∷ rest

-- `_enqueue_purge`, on a connection of its own
unfoldable pub enqueue_purge : ℕ → Store → Store
unfolding delete_session delete_events
enqueue_purge i s = record s {
  sessions = delete_session i s.sessions;
  events = delete_events i s.events;
}

-- `shutil.rmtree`; a directory that is missing, or cannot be removed, is left.
unfoldable pub remove_directory : Bool → Text → List Text → List Text
unfolding text_eq
remove_directory removable uuid [] = []
remove_directory removable uuid (d ∷ l) =
    let rest = remove_directory removable uuid l in
    if text_eq d uuid && removable then rest else d ∷ rest

unfoldable pub remove_directories : (Text → Bool) → Text → Archive → Archive
unfolding remove_directory
remove_directories removable uuid a = record a {
  blobs = remove_directory (removable uuid) uuid a.blobs;
  exports = remove_directory (removable uuid) uuid a.exports;
}

-- `purge_session`; `none` is the error before `start`.
unfoldable pub purge_session : (Text → Bool) → ℕ → Archive → Option Archive
unfolding uuid_of enqueue_purge drain remove_directories
purge_session removable i a = elim (uuid_of i a.store.sessions) [
  | none ↦ some a
  | some uuid ↦
      if a.store.started
      then some
          (remove_directories removable uuid (record a { store = drain (enqueue_purge i a.store) }))
      else none
]

-- The loop of `purge_expired`.
unfoldable pub purge_sessions : (Text → Bool) → List ℕ → Archive → Option Archive
unfolding purge_session
purge_sessions removable [] a = some a
purge_sessions removable (i ∷ is) a = elim (purge_session removable i a) [
  | none ↦ none
  | some a' ↦ purge_sessions removable is a'
]

-- `status != 'open' AND ended_at_ms IS NOT NULL AND ended_at_ms < ?`
unfoldable pub is_expired : ℕ → ObserverSession → Bool
is_expired cutoff s = elim s.ended_at_ms [
  | none ↦ false
  | some ended_at_ms ↦ not (is_open s.status) && ltb ended_at_ms cutoff
]

unfoldable pub expired_ids : ℕ → List ObserverSession → List ℕ
unfolding is_expired
expired_ids cutoff [] = []
expired_ids cutoff (s ∷ l) =
    let rest = expired_ids cutoff l in if is_expired cutoff s then s.id ∷ rest else rest

-- `_now_ms() - retention_days * 86_400_000`: no time is before a negative cutoff, nor before 0.
abbrev pub cutoff_ms : ℕ → ℕ → ℕ
cutoff_ms now_ms retention_days = now_ms - retention_days * 86400000

-- `purge_expired`, with its count; a retention of 0 stands for the negative ones too.
unfoldable pub purge_expired : (Text → Bool) → ℕ → ℕ → Archive → Option (ℕ × Archive)
unfolding purge_sessions expired_ids
purge_expired removable now_ms retention_days a =
    let ids = expired_ids (cutoff_ms now_ms retention_days) a.store.sessions in
    if retention_days == 0
    then some (0, a)
    else elim (purge_sessions removable ids a) [ none ↦ none | some a' ↦ some (length ids, a') ]

-- The directories of all the sessions that `purge_all` has read.
unfoldable pub remove_all : (Text → Bool) → List ObserverSession → Archive → Archive
unfolding remove_directories
remove_all removable [] a = a
remove_all removable (s ∷ l) a = remove_all removable l (remove_directories removable s.uuid a)

-- `purge_all`, with its count: all events go with their sessions.
unfoldable pub purge_all : (Text → Bool) → Archive → Option (ℕ × Archive)
unfolding remove_all
purge_all removable a =
    if a.store.started
    then some (
      length a.store.sessions,
      remove_all removable a.store.sessions
          (record a { store = record a.store { sessions = []; events = [] } }),
    )
    else none

-- `ORDER BY started_at_ms`, over the row order
unfoldable pub insert_session : ObserverSession → List ObserverSession → List ObserverSession
insert_session s [] = s ∷ []
insert_session s (x ∷ xs) =
    let rest = insert_session s xs in
    if ltb x.started_at_ms s.started_at_ms then x ∷ rest else s ∷ x ∷ xs

-- `find_open_sessions`
unfoldable pub find_open_sessions : List ObserverSession → List ObserverSession
unfolding insert_session
find_open_sessions [] = []
find_open_sessions (s ∷ l) =
    let rest = find_open_sessions l in if is_open s.status then insert_session s rest else rest

-- `start`, behind the directories and the schema, which it makes if they are missing
abbrev pub start : Store → Store
start s = record s { started = true }

-- `stop`: what is queued is written first; a store that was not started is left alone.
unfoldable pub stop : Store → Store
unfolding drain
stop s = if s.started then record (drain s) { started = false; last_ts_ms = [] } else s
