-- ===== src/Observer/Session/Laws.antt =====
-- Sessions, their pauses, and what is recorded.
use agent_voca.Prelude.{
  ℕ, Bool, true, false, ◌&&◌, not, Option, none, some, List, [], ◌∷◌, ◌++◌, ◌≡◌, refl, ap, sym, ◌∙◌,
  arith, append-nil, append_assoc, Bool-cases, is_some, ◌⊎◌, inl, inr, if◌then◌else◌, map,
}
use agent_voca.Text.{Text}
use agent_voca.Observer.{
  EventKind, utterance_ambient, utterance_dictated, keyframe, selection, focus_change, pause_start,
  pause_end, gap, ObserverEvent, ObserverSession,
}
use agent_voca.Observer.Store.{Store, WriteJob, append, enqueue}
use agent_voca.Observer.Session.{
  always_writes, Manager, init, open_session, close_session, pause, resume, Entry, event_of,
  record_event,
}

-- The calls of the manager; an `open` that fails leaves it as it was.
pub data Call : Type 0 where
  open_call : Text → ℕ → Text → Call
  close_call : ℕ → Call
  pause_call : Text → Call
  resume_call : Call
  record_call : Entry → Call

abbrev after_open : Option Manager → Manager → Manager
after_open none m = m
after_open (some m') m = m'

unfoldable pub perform : Call → Manager → Manager
unfolding open_session close_session pause resume record_event
perform (open_call app_version now_ms uuid) m =
    after_open (open_session app_version now_ms uuid m) m
perform (close_call ended_at_ms) m = (close_session ended_at_ms m).1
perform (pause_call reason) m = (pause reason m).1
perform resume_call m = (resume m).1
perform (record_call e) m = (record_event e m).1

unfoldable pub run : List Call → Manager → Manager
unfolding perform
run [] m = m
run (c ∷ cs) m = run cs (perform c m)

-- A manager without a session is not paused, and one that is not paused has no reason.
abbrev pub IsCoherent : Manager → Type 0
IsCoherent m =
    ((is_some m.current ≡ true) ⊎ (m.is_paused ≡ false))
    × ((m.is_paused ≡ true) ⊎ (m.pause_reason ≡ []))

perform-IsCoherent : (c : Call) (m : Manager) → IsCoherent m → IsCoherent (perform c m)
unfolding perform
perform-IsCoherent (open_call app_version now_ms uuid) m h = ground arith
perform-IsCoherent (close_call ended_at_ms) m h = ground arith
perform-IsCoherent (pause_call reason) m h = ground arith
perform-IsCoherent resume_call m h = ground arith
perform-IsCoherent (record_call e) m h = ground arith

run_keeps : (cs : List Call) (m : Manager) → IsCoherent m → IsCoherent (run cs m)
unfolding run
run_keeps [] m h = h
run_keeps (c ∷ cs) m h = run_keeps cs (perform c m) (perform-IsCoherent c m h)

-- After any calls, in any order: without an open session the manager is not paused, and when it is not
-- paused its reason for a pause is empty.
pub run-IsCoherent : (store : Store) (cs : List Call) → IsCoherent (run cs (init store))
run-IsCoherent store cs = run_keeps cs (init store) (inr refl, inr refl)

-- Gaps and the beginnings and ends of pauses.
unfoldable pub is_marker : EventKind → Bool
is_marker gap = true
is_marker pause_start = true
is_marker pause_end = true
is_marker utterance_ambient = false
is_marker utterance_dictated = false
is_marker keyframe = false
is_marker selection = false
is_marker focus_change = false

unfoldable pub markers : List Entry → List Entry
unfolding is_marker
markers [] = []
markers (e ∷ es) = if is_marker e.kind then e ∷ markers es else markers es

-- What a pause lets through.
abbrev pub let_through : Bool → List Entry → List Entry
let_through true es = markers es
let_through false es = es

always_writes_markers : (k : EventKind) → always_writes k ≡ is_marker k
unfolding always_writes is_marker
always_writes_markers gap = refl
always_writes_markers pause_start = refl
always_writes_markers pause_end = refl
always_writes_markers utterance_ambient = refl
always_writes_markers utterance_dictated = refl
always_writes_markers keyframe = refl
always_writes_markers selection = refl
always_writes_markers focus_change = refl

let_through_none : (paused : Bool) → let_through paused [] ≡ []
unfolding markers
let_through_none true = refl
let_through_none false = refl

-- The first entry is held back, or it is the first one let through.
let_through_first :
    (paused : Bool) (e : Entry) (es : List Entry)
    → let_through paused (e ∷ es) ≡ (
        if paused && not (always_writes e.kind)
        then let_through paused es
        else e ∷ let_through paused es)
unfolding markers
let_through_first true e es = rw (always_writes_markers e.kind) (go (is_marker e.kind))
  where
    go :
        (b : Bool)
        → (if b then e ∷ markers es else markers es)
          ≡ (if not b then markers es else e ∷ markers es)
    go true = refl
    go false = refl
let_through_first false e es = refl

unfoldable pub record_all : List Entry → Manager → Manager
unfolding record_event
record_all [] m = m
record_all (e ∷ es) m = record_all es (record_event e m).1

-- With an open session, recording entries puts into the store's queue, behind what is there, exactly
-- the entries that the pause lets through, in their order: all of them while the session is not paused,
-- and only gaps and the beginnings and ends of pauses while it is.
pub record_all-let_through :
    (es : List Entry) (m : Manager) (session : ObserverSession)
    → m.current ≡ some session
    → (record_all es m).store.queue
      ≡ m.store.queue ++ map (λ e. append (event_of session e)) (let_through m.is_paused es)
unfolding record_all record_event
record_all-let_through [] m session h =
    sym (append-nil m.store.queue)
    ∙ ap (λ l. m.store.queue ++ map (λ e. append (event_of session e)) l)
        (sym (let_through_none m.is_paused))
record_all-let_through (e ∷ es) m session h =
    let queued : List Entry → List WriteJob =
      λ l. m.store.queue ++ map (λ x. append (event_of session x)) l in
    let first : (b : Bool)
        → (m.is_paused && not (always_writes e.kind)) ≡ b
        → let_through m.is_paused (e ∷ es)
          ≡ (if b then let_through m.is_paused es else e ∷ let_through m.is_paused es) =
      λ b k.
        let_through_first m.is_paused e es
        ∙ ap (λ x. if x then let_through m.is_paused es else e ∷ let_through m.is_paused es) k in
    elim (Bool-cases (m.is_paused && not (always_writes e.kind))) [
      | inl k ↦
          let same : record_event e m ≡ (none, m) = ground (arith, h, k) in
          ap (λ (r : Option ObserverEvent × Manager). (record_all es r.1).store.queue) same
          ∙ record_all-let_through es m session h
          ∙ ap queued (sym (first true k))
      | inr k ↦
          let job = append (event_of session e) in
          let m' = record m { store = enqueue job m.store } in
          let written : record_event e m ≡ (some (event_of session e), m') = ground (arith, h, k) in
          ap (λ (r : Option ObserverEvent × Manager). (record_all es r.1).store.queue) written
          ∙ record_all-let_through es m' session h
          ∙ append_assoc m.store.queue (job ∷ [])
              (map (λ e. append (event_of session e)) (let_through m.is_paused es))
          ∙ ap queued (sym (first false k))
    ]
