-- ===== src/Observer/Store/Order.antt =====
-- The time stamps of a session's timeline.
use mathlib.Core.Path.{subst}
use agent_voca.Prelude.{
  ℕ, ◌≤◌, ◌<◌, false, List, [], ◌∷◌, ◌++◌, ◌≡◌, refl, ap, sym, ◌∙◌, arith, All-snoc, All,
  Bool-cases, inl, inr, ltb, ◌==◌,
}
use agent_voca.Text.{Text}
use agent_voca.Vocab.Dictionary.{Mapping}
use agent_voca.Observer.{ObserverEvent}
use agent_voca.Observer.Store.{
  Store, WriteJob, append, close, mark, set_text, flush, last_ts, has_session, clamp,
  do_insert_event, fill_text, dispatch, perform, insert_event, sort_events, of_session, load_events,
}

-- Each event is later than those before it.
abbrev pub IsAscending : List ObserverEvent → Type 0
IsAscending [] = Unit
IsAscending (e ∷ es) = All (λ x. e.ts_ms < x.ts_ms) es × IsAscending es

-- The rows of a session are in the order of time, and none is later than the clamp.
abbrev pub IsOrdered : ℕ → Store → Type 0
IsOrdered i s =
    let rows = of_session i s.events in
    All (λ e. e.ts_ms ≤ last_ts s.last_ts_ms i) rows × IsAscending rows

All-imp :
    {P Q : ObserverEvent → Type 0} (l : List ObserverEvent)
    → ((e : ObserverEvent) → P e → Q e)
    → All P l
    → All Q l
All-imp [] f a = tt
All-imp (e ∷ l) f a = (f e a.0, All-imp l f a.1)

IsAscending-snoc :
    (l : List ObserverEvent) (e : ObserverEvent)
    → IsAscending l
    → All (λ x. x.ts_ms < e.ts_ms) l
    → IsAscending (l ++ e ∷ [])
IsAscending-snoc [] e a h = (tt, tt)
IsAscending-snoc (x ∷ l) e a h =
    (All-snoc (λ y. x.ts_ms < y.ts_ms) l e a.0 h.0, IsAscending-snoc l e a.1 h.1)

of_session-snoc_same :
    (i : ℕ) (l : List ObserverEvent) (e : ObserverEvent)
    → e.session_id ≡ i
    → of_session i (l ++ e ∷ []) ≡ of_session i l ++ e ∷ []
unfolding of_session
of_session-snoc_same i [] e h = ground (arith, h)
of_session-snoc_same i (x ∷ l) e h = ground (arith, of_session-snoc_same i l e h)

of_session-snoc_other :
    (i : ℕ) (l : List ObserverEvent) (e : ObserverEvent)
    → (e.session_id == i) ≡ false
    → of_session i (l ++ e ∷ []) ≡ of_session i l
unfolding of_session
of_session-snoc_other i [] e h = ground (arith, h)
of_session-snoc_other i (x ∷ l) e h = ground (arith, of_session-snoc_other i l e h)

of_session-fill_text :
    (i n : ℕ) (text : Text) (m : Mapping) (l : List ObserverEvent)
    → of_session i (fill_text n text m l) ≡ fill_text n text m (of_session i l)
unfolding of_session fill_text
of_session-fill_text i n text m [] = refl
of_session-fill_text i n text m (x ∷ l) = ground (arith, of_session-fill_text i n text m l)

All-fill_text :
    (P : ℕ → Type 0) (n : ℕ) (text : Text) (m : Mapping) (l : List ObserverEvent)
    → All (λ e. P e.ts_ms) l
    → All (λ e. P e.ts_ms) (fill_text n text m l)
unfolding fill_text
All-fill_text P n text m [] a = tt
All-fill_text P n text m (x ∷ l) a = elim (Bool-cases (x.id == n)) [
  | inl h ↦ rw h (a.0, All-fill_text P n text m l a.1)
  | inr h ↦ rw h (a.0, All-fill_text P n text m l a.1)
]

IsAscending-fill_text :
    (n : ℕ) (text : Text) (m : Mapping) (l : List ObserverEvent)
    → IsAscending l
    → IsAscending (fill_text n text m l)
unfolding fill_text
IsAscending-fill_text n text m [] a = tt
IsAscending-fill_text n text m (x ∷ l) a = elim (Bool-cases (x.id == n)) [
  | inl h ↦
      rw h (All-fill_text (λ t. x.ts_ms < t) n text m l a.0, IsAscending-fill_text n text m l a.1)
  | inr h ↦
      rw h (All-fill_text (λ t. x.ts_ms < t) n text m l a.0, IsAscending-fill_text n text m l a.1)
]

insert_event-first :
    (e : ObserverEvent) (l : List ObserverEvent)
    → All (λ x. e.ts_ms < x.ts_ms) l
    → insert_event e l ≡ e ∷ l
unfolding insert_event
insert_event-first e [] a = refl
insert_event-first e (x ∷ l) a =
    let late : ltb x.ts_ms e.ts_ms ≡ false = ground (arith, a.0) in
    let other : (x.ts_ms == e.ts_ms) ≡ false = ground (arith, a.0) in rw (late, other) refl

sort_events-id : (l : List ObserverEvent) → IsAscending l → sort_events l ≡ l
unfolding sort_events
sort_events-id [] a = refl
sort_events-id (e ∷ l) a = ap (insert_event e) (sort_events-id l a.1) ∙ insert_event-first e l a.0

abbrev IsUpTo : ℕ → List ObserverEvent → Type 0
IsUpTo t rows = All (λ e. e.ts_ms ≤ t) rows × IsAscending rows

IsUpTo-later : (t t' : ℕ) (l : List ObserverEvent) → t ≤ t' → IsUpTo t l → IsUpTo t' l
IsUpTo-later t t' l h u = (All-imp l (λ e k. omega (arith, k, h)) u.0, u.1)

IsUpTo-snoc :
    (t : ℕ) (l : List ObserverEvent) (e : ObserverEvent)
    → t < e.ts_ms
    → IsUpTo t l
    → IsUpTo e.ts_ms (l ++ e ∷ [])
IsUpTo-snoc t l e h u = (
  All-snoc (λ x. x.ts_ms ≤ e.ts_ms) l e (IsUpTo-later t e.ts_ms l (omega arith) u).0 (omega arith),
  IsAscending-snoc l e u.1 (All-imp l (λ x k. omega (arith, k, h)) u.0),
)

clamp-later : (last ts_ms : ℕ) → last < clamp last ts_ms
clamp-later last ts_ms = ground arith

insert_same :
    (i : ℕ) (event : ObserverEvent) (s : Store) (n : ℕ)
    → event.session_id ≡ i
    → IsOrdered i s
    → let ts = clamp (last_ts s.last_ts_ms event.session_id) event.ts_ms in
      let row = record event { id = n; ts_ms = ts } in
      IsUpTo ts (of_session i (s.events ++ row ∷ [])) × IsUpTo ts (of_session i s.events)
insert_same i event s n h u =
    let ts = clamp (last_ts s.last_ts_ms event.session_id) event.ts_ms in
    let row = record event { id = n; ts_ms = ts } in
    let l = of_session i s.events in
    let later : last_ts s.last_ts_ms i < ts =
      subst (λ j. last_ts s.last_ts_ms j < ts) h
        (clamp-later (last_ts s.last_ts_ms event.session_id) event.ts_ms) in
    (
      subst (IsUpTo ts) (sym (of_session-snoc_same i s.events row h))
          (IsUpTo-snoc (last_ts s.last_ts_ms i) l row later u),
      IsUpTo-later (last_ts s.last_ts_ms i) ts l (omega (arith, later)) u,
    )

last_ts-same : (i t : ℕ) (l : List (ℕ × ℕ)) → last_ts ((i, t) ∷ l) i ≡ t
unfolding last_ts
last_ts-same i t l = ground arith

last_ts-other :
    (i j t : ℕ) (l : List (ℕ × ℕ)) → (j == i) ≡ false → last_ts ((j, t) ∷ l) i ≡ last_ts l i
unfolding last_ts
last_ts-other i j t l h = ground (arith, h)

do_insert_event-IsOrdered :
    (i : ℕ) (event : ObserverEvent) (s : Store)
    → IsOrdered i s
    → IsOrdered i (do_insert_event event s)
unfolding do_insert_event
do_insert_event-IsOrdered i event s u =
    let ts = clamp (last_ts s.last_ts_ms event.session_id) event.ts_ms in
    let row = record event { id = s.next_event; ts_ms = ts } in
    elim (Bool-cases (event.session_id == i)) [
      | inl h ↦
          let e : event.session_id ≡ i = ground (arith, h) in
          let (with_row, without) = insert_same i event s s.next_event e u in
          let t : last_ts ((event.session_id, ts) ∷ s.last_ts_ms) i ≡ ts =
            rw e (last_ts-same i _ s.last_ts_ms) in
          elim (Bool-cases (has_session event.session_id s.sessions)) [
            | inl k ↦ rw (k, t) with_row
            | inr k ↦ rw (k, t) without
          ]
      | inr h ↦
          let t = last_ts-other i event.session_id ts s.last_ts_ms h in
          elim (Bool-cases (has_session event.session_id s.sessions)) [
            | inl k ↦ rw (k, t, of_session-snoc_other i s.events row h) u
            | inr k ↦ rw (k, t) u
          ]
    ]

dispatch-IsOrdered :
    (i : ℕ) (job : WriteJob) (s : Store) → IsOrdered i s → IsOrdered i (dispatch job s)
unfolding dispatch
dispatch-IsOrdered i (append event) s u = do_insert_event-IsOrdered i event s u
dispatch-IsOrdered i (close j ended_at_ms) s u = u
dispatch-IsOrdered i (mark j status) s u = u
dispatch-IsOrdered i (set_text n text m) s u =
    subst (IsUpTo (last_ts s.last_ts_ms i)) (sym (of_session-fill_text i n text m s.events)) (
      All-fill_text (λ t. t ≤ last_ts s.last_ts_ms i) n text m (of_session i s.events) u.0,
      IsAscending-fill_text n text m (of_session i s.events) u.1,
    )
dispatch-IsOrdered i flush s u = u

perform-IsOrdered :
    (i : ℕ) (jobs : List WriteJob) (s : Store) → IsOrdered i s → IsOrdered i (perform jobs s)
unfolding perform
perform-IsOrdered i [] s u = u
perform-IsOrdered i (job ∷ jobs) s u =
    perform-IsOrdered i jobs (dispatch job s) (dispatch-IsOrdered i job s u)

-- Whatever jobs the writer performs, with whatever clock values: as long as the clamp of a session is
-- kept, its events are stored with strictly increasing time stamps, and loading them gives them in
-- the order in which they were recorded.
pub perform-in_order :
    (i : ℕ) (jobs : List WriteJob) (s : Store)
    → IsOrdered i s
    → let s' = perform jobs s in
      IsAscending (of_session i s'.events) × (load_events i s' ≡ of_session i s'.events)
unfolding load_events
perform-in_order i jobs s u =
    let (_, a) = perform-IsOrdered i jobs s u in
    (a, sort_events-id (of_session i (perform jobs s).events) a)
