-- ===== src/Observer/Store.antt =====
-- observer/store.py: the store's queue of write jobs, and the writer that performs them on the
-- database. SQLite's tables are lists in the order of their row ids; a job that the database refuses
-- is logged and dropped.
pub mod Order
pub mod Purge
pub mod Integrity
pub mod Runs
use agent_voca.Prelude.{
  ℕ, suc, ◌+◌, Bool, true, false, ◌&&◌, ◌||◌, Option, none, some, List, [], ◌∷◌, ◌++◌, map, ltb,
  ◌==◌, if◌then◌else◌,
}
use agent_voca.Text.{Text}
use agent_voca.Vocab.Dictionary.{Mapping}
use agent_voca.Vocab.Snippets.{update}
use agent_voca.Observer.{ObserverEvent, ObserverSession, SessionStatus, opened, closed}

-- `_WriteJob`; a barrier is where its caller goes on.
pub data WriteJob : Type 0 where
  append : ObserverEvent → WriteJob
  close : ℕ → ℕ → WriteJob
  mark : ℕ → SessionStatus → WriteJob
  set_text : ℕ → Text → Mapping → WriteJob
  flush : WriteJob

-- The fields of `ObserverStore`, and the tables of its database.
pub record Store : Type 0 where
  pub started : Bool
  pub queue : List WriteJob
  pub last_ts_ms : List (ℕ × ℕ)
  pub sessions : List ObserverSession
  pub events : List ObserverEvent
  pub next_session : ℕ
  pub next_event : ℕ

-- `self._last_ts_ms.get(session_id, 0)`, the assignment, and `pop`
unfoldable pub last_ts : List (ℕ × ℕ) → ℕ → ℕ
last_ts [] i = 0
last_ts ((j, t) ∷ l) i = let rest = last_ts l i in if j == i then t else rest

abbrev pub set_last_ts : List (ℕ × ℕ) → ℕ → ℕ → List (ℕ × ℕ)
set_last_ts l i t = (i, t) ∷ l

unfoldable pub pop_last_ts : List (ℕ × ℕ) → ℕ → List (ℕ × ℕ)
pop_last_ts [] i = []
pop_last_ts ((j, t) ∷ l) i = let rest = pop_last_ts l i in if j == i then rest else (j, t) ∷ rest

-- The foreign key of the `events` table.
unfoldable pub has_session : ℕ → List ObserverSession → Bool
has_session i [] = false
has_session i (s ∷ l) = s.id == i || has_session i l

-- `event.ts_ms if event.ts_ms > last else last + 1`
abbrev pub clamp : ℕ → ℕ → ℕ
clamp last ts_ms = if ltb last ts_ms then ts_ms else last + 1

-- `_do_insert_event`
unfoldable pub do_insert_event : ObserverEvent → Store → Store
unfolding last_ts has_session
do_insert_event event s =
    let ts = clamp (last_ts s.last_ts_ms event.session_id) event.ts_ms in
    let s' = record s { last_ts_ms = set_last_ts s.last_ts_ms event.session_id ts } in
    let row = record event { id = s.next_event; ts_ms = ts } in
    if has_session event.session_id s.sessions
    then record s' { events = s.events ++ row ∷ []; next_event = suc s.next_event }
    else s'

-- `UPDATE sessions SET ... WHERE id = ?`
unfoldable pub update_session :
    (ObserverSession → ObserverSession) → ℕ → List ObserverSession → List ObserverSession
update_session f i [] = []
update_session f i (s ∷ l) = (if s.id == i then f s else s) ∷ update_session f i l

-- `_do_close_session`
abbrev pub do_close_session : ℕ → ℕ → Store → Store
do_close_session i ended_at_ms s =
    let end : ObserverSession → ObserverSession =
      λ r. record r { status = closed; ended_at_ms = some ended_at_ms } in
    record s { sessions = update_session end i s.sessions }

-- `_do_mark_status`
abbrev pub do_mark_status : ℕ → SessionStatus → Store → Store
do_mark_status i status s = record s {
  sessions = update_session (λ r. record r { status = status }) i s.sessions;
}

-- `_do_set_event_text`: the text is set and the meta is merged.
unfoldable pub fill_text : ℕ → Text → Mapping → List ObserverEvent → List ObserverEvent
unfolding update
fill_text i text meta_update [] = []
fill_text i text meta_update (e ∷ l) =
    (if e.id == i then record e { text = some text; meta = update e.meta meta_update } else e)
    ∷ fill_text i text meta_update l

-- `_dispatch`
unfoldable pub dispatch : WriteJob → Store → Store
unfolding do_insert_event update_session fill_text
dispatch (append event) s = do_insert_event event s
dispatch (close i ended_at_ms) s = do_close_session i ended_at_ms s
dispatch (mark i status) s = do_mark_status i status s
dispatch (set_text i text meta_update) s = record s {
  events = fill_text i text meta_update s.events;
}
dispatch flush s = s

-- The writer's loop over the jobs that are waiting.
unfoldable pub perform : List WriteJob → Store → Store
unfolding dispatch
perform [] s = s
perform (job ∷ jobs) s = perform jobs (dispatch job s)

-- One turn of the writer.
unfoldable pub write_next : Store → Store
unfolding dispatch
write_next s = elim s.queue [ [] ↦ s | job ∷ jobs ↦ dispatch job (record s { queue = jobs }) ]

-- `flush()`, once the writer has reached its barrier
unfoldable pub drain : Store → Store
unfolding perform
drain s = perform s.queue (record s { queue = [] })

-- `self._queue.put(job)`
abbrev pub enqueue : WriteJob → Store → Store
enqueue job s = record s { queue = s.queue ++ job ∷ [] }

-- `open_session`, with the clock and the fresh uuid; `none` is the error before `start`.
unfoldable pub open_session : Text → ℕ → Text → Store → Option (ObserverSession × Store)
open_session app_version started_at_ms uuid s =
    let row : ObserverSession = record {
      id = s.next_session;
      uuid = uuid;
      started_at_ms = started_at_ms;
      ended_at_ms = none;
      status = opened;
      app_version = app_version;
      schema_version = 1;
    } in
    if s.started
    then some
        (row, record s { sessions = s.sessions ++ row ∷ []; next_session = suc s.next_session })
    else none

-- `close_session` of a store whose writer runs, which waits until its job is written and forgets the clamp;
-- without a writer the wait times out, which is left out.
unfoldable pub close_session : ℕ → ℕ → Store → Store
unfolding drain pop_last_ts
close_session i ended_at_ms s =
    let s' = drain (enqueue (close i ended_at_ms) s) in
    record s' { last_ts_ms = pop_last_ts s'.last_ts_ms i }

-- `ORDER BY ts_ms, id`
abbrev pub is_before : ObserverEvent → ObserverEvent → Bool
is_before a b = ltb a.ts_ms b.ts_ms || (a.ts_ms == b.ts_ms && ltb a.id b.id)

unfoldable pub insert_event : ObserverEvent → List ObserverEvent → List ObserverEvent
insert_event e [] = e ∷ []
insert_event e (x ∷ xs) =
    let rest = insert_event e xs in if is_before x e then x ∷ rest else e ∷ x ∷ xs

unfoldable pub sort_events : List ObserverEvent → List ObserverEvent
unfolding insert_event
sort_events [] = []
sort_events (e ∷ es) = insert_event e (sort_events es)

-- `WHERE session_id = ?`
unfoldable pub of_session : ℕ → List ObserverEvent → List ObserverEvent
of_session i [] = []
of_session i (e ∷ es) = let rest = of_session i es in if e.session_id == i then e ∷ rest else rest

-- The events of `load_bundle`.
unfoldable pub load_events : ℕ → Store → List ObserverEvent
unfolding sort_events of_session
load_events i s = sort_events (of_session i s.events)
