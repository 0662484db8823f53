-- ===== src/Observer/Store/Integrity.antt =====
-- The foreign key of the store: every event belongs to a session, over all calls of the store.
use mathlib.Core.Path.{subst}
use agent_voca.Prelude.{
  ℕ, suc, ◌<◌, true, false, List, [], ◌∷◌, ◌++◌, ◌≡◌, refl, sym, ◌∙◌, arith, All, All-snoc,
  Bool-cases, inl, inr, ◌==◌,
}
use agent_voca.Text.{Text}
use agent_voca.Vocab.Dictionary.{Mapping}
use agent_voca.Observer.{ObserverEvent, ObserverSession}
use agent_voca.Observer.Store.{
  Store, WriteJob, append, close, mark, set_text, flush, has_session, update_session, fill_text,
  do_insert_event, dispatch, perform, drain,
}
use agent_voca.Observer.Store.Purge.{delete_session, delete_events, enqueue_purge}

-- Each row has a greater id than those before it.
abbrev pub IsKeyed : List ObserverSession → Type 0
IsKeyed [] = Unit
IsKeyed (s ∷ l) = All (λ (x : ObserverSession). s.id < x.id) l × IsKeyed l

-- The ids of the sessions are fresh keys, and every event belongs to one of them.
abbrev pub AreSound : ℕ → List ObserverSession → List ObserverEvent → Type 0
AreSound n sessions events =
    All (λ (x : ObserverSession). x.id < n) sessions
    × IsKeyed sessions
    × All (λ (e : ObserverEvent). has_session e.session_id sessions ≡ true) events

abbrev pub IsSound : Store → Type 0
IsSound s = AreSound s.next_session s.sessions s.events

pub All-imp {ℓ} :
    {A : Type ℓ} {P Q : A → Type 0} (l : List A) → ((a : A) → P a → Q a) → All P l → All Q l
All-imp [] f a = tt
All-imp (x ∷ l) f a = (f x a.0, All-imp l f a.1)

module _ (f : ObserverSession → ObserverSession)
    (same : (s : ObserverSession) → (f s).id ≡ s.id) where
  All-update_session :
      (P : ℕ → Type 0) (i : ℕ) (l : List ObserverSession)
      → All (λ (x : ObserverSession). P x.id) l
      → All (λ (x : ObserverSession). P x.id) (update_session f i l)
  unfolding update_session
  All-update_session P i [] a = tt
  All-update_session P i (s ∷ l) a = elim (Bool-cases (s.id == i)) [
    | inl h ↦ rw h (subst P (sym (same s)) a.0, All-update_session P i l a.1)
    | inr h ↦ rw h (a.0, All-update_session P i l a.1)
  ]

  IsKeyed-update_session :
      (i : ℕ) (l : List ObserverSession) → IsKeyed l → IsKeyed (update_session f i l)
  unfolding update_session
  IsKeyed-update_session i [] k = tt
  IsKeyed-update_session i (s ∷ l) k = elim (Bool-cases (s.id == i)) [
    | inl h ↦ rw h (
      subst (λ n. All (λ (x : ObserverSession). n < x.id) (update_session f i l)) (sym (same s))
          (All-update_session (λ m. s.id < m) i l k.0),
      IsKeyed-update_session i l k.1,
    )
    | inr h ↦ rw h (All-update_session (λ m. s.id < m) i l k.0, IsKeyed-update_session i l k.1)
  ]

  has_session-update_session :
      (j i : ℕ) (l : List ObserverSession) → has_session j (update_session f i l) ≡ has_session j l
  unfolding has_session update_session
  has_session-update_session j i [] = refl
  has_session-update_session j i (s ∷ l) = ground (arith, same s, has_session-update_session j i l)

  AreSound-update_session :
      (n i : ℕ) (l : List ObserverSession) (events : List ObserverEvent)
      → AreSound n l events
      → AreSound n (update_session f i l) events
  AreSound-update_session n i l events h = (
    All-update_session (λ m. m < n) i l h.0,
    IsKeyed-update_session i l h.1,
    All-imp events (λ e k. has_session-update_session e.session_id i l ∙ k) h.2,
  )

All-fill_text :
    (P : ℕ → Type 0) (n : ℕ) (text : Text) (m : Mapping) (l : List ObserverEvent)
    → All (λ (e : ObserverEvent). P e.session_id) l
    → All (λ (e : ObserverEvent). P e.session_id) (fill_text n text m l)
unfolding fill_text
All-fill_text P n text m [] a = tt
All-fill_text P n text m (x ∷ l) a = elim (Bool-cases (x.id == n)) [
  | inl h ↦ rw h (a.0, All-fill_text P n text m l a.1)
  | inr h ↦ rw h (a.0, All-fill_text P n text m l a.1)
]

do_insert_event-IsSound :
    (event : ObserverEvent) (s : Store) → IsSound s → IsSound (do_insert_event event s)
unfolding do_insert_event
do_insert_event-IsSound event s h = elim (Bool-cases (has_session event.session_id s.sessions)) [
  | inl k ↦ rw k (
    h.0,
    h.1,
    All-snoc (λ (e : ObserverEvent). has_session e.session_id s.sessions ≡ true) s.events _ h.2 k,
  )
  | inr k ↦ rw k h
]

pub dispatch-IsSound : (job : WriteJob) (s : Store) → IsSound s → IsSound (dispatch job s)
unfolding dispatch
dispatch-IsSound (append event) s h = do_insert_event-IsSound event s h
dispatch-IsSound (close i ended_at_ms) s h =
    AreSound-update_session _ (λ r. refl) s.next_session i s.sessions s.events h
dispatch-IsSound (mark i status) s h =
    AreSound-update_session _ (λ r. refl) s.next_session i s.sessions s.events h
dispatch-IsSound (set_text n text m) s h =
    (h.0, h.1, All-fill_text (λ i. has_session i s.sessions ≡ true) n text m s.events h.2)
dispatch-IsSound flush s h = h

perform-IsSound : (jobs : List WriteJob) (s : Store) → IsSound s → IsSound (perform jobs s)
unfolding perform
perform-IsSound [] s h = h
perform-IsSound (job ∷ jobs) s h = perform-IsSound jobs (dispatch job s) (dispatch-IsSound job s h)

pub drain-IsSound : (s : Store) → IsSound s → IsSound (drain s)
unfolding drain
drain-IsSound s h = perform-IsSound s.queue (record s { queue = [] }) h

has_session-snoc :
    (i : ℕ) (l : List ObserverSession) (s : ObserverSession)
    → has_session i l ≡ true
    → has_session i (l ++ s ∷ []) ≡ true
unfolding has_session
has_session-snoc i [] s h = ground (arith, h)
has_session-snoc i (x ∷ l) s h = ground (arith, h, has_session-snoc i l s)

IsKeyed-snoc :
    (l : List ObserverSession) (s : ObserverSession)
    → IsKeyed l
    → All (λ (x : ObserverSession). x.id < s.id) l
    → IsKeyed (l ++ s ∷ [])
IsKeyed-snoc [] s k a = (tt, tt)
IsKeyed-snoc (x ∷ l) s k a =
    (All-snoc (λ (y : ObserverSession). x.id < y.id) l s k.0 a.0, IsKeyed-snoc l s k.1 a.1)

pub AreSound-snoc :
    (l : List ObserverSession) (s : ObserverSession) (events : List ObserverEvent)
    → AreSound s.id l events
    → AreSound (suc s.id) (l ++ s ∷ []) events
AreSound-snoc l s events h = (
  All-snoc (λ (x : ObserverSession). x.id < suc s.id) l s (All-imp l (λ x k. omega (arith, k)) h.0)
      (omega arith),
  IsKeyed-snoc l s h.1 h.0,
  All-imp events (λ e k. has_session-snoc e.session_id l s k) h.2,
)

All-delete_session :
    (P : ObserverSession → Type 0) (i : ℕ) (l : List ObserverSession)
    → All P l
    → All P (delete_session i l)
unfolding delete_session
All-delete_session P i [] a = tt
All-delete_session P i (s ∷ l) a = elim (Bool-cases (s.id == i)) [
  | inl h ↦ rw h (All-delete_session P i l a.1)
  | inr h ↦ rw h (a.0, All-delete_session P i l a.1)
]

IsKeyed-delete_session :
    (i : ℕ) (l : List ObserverSession) → IsKeyed l → IsKeyed (delete_session i l)
unfolding delete_session
IsKeyed-delete_session i [] k = tt
IsKeyed-delete_session i (s ∷ l) k = elim (Bool-cases (s.id == i)) [
  | inl h ↦ rw h (IsKeyed-delete_session i l k.1)
  | inr h ↦ rw h (
    All-delete_session (λ (x : ObserverSession). s.id < x.id) i l k.0,
    IsKeyed-delete_session i l k.1,
  )
]

has_session-delete_session :
    (j i : ℕ) (l : List ObserverSession)
    → (j == i) ≡ false
    → has_session j (delete_session i l) ≡ has_session j l
unfolding has_session delete_session
has_session-delete_session j i [] h = refl
has_session-delete_session j i (s ∷ l) h = ground (arith, h, has_session-delete_session j i l h)

events_left :
    (i : ℕ) (sessions : List ObserverSession) (l : List ObserverEvent)
    → All (λ (e : ObserverEvent). has_session e.session_id sessions ≡ true) l
    → All
        (λ (e : ObserverEvent). has_session e.session_id (delete_session i sessions) ≡ true)
        (delete_events i l)
unfolding delete_events
events_left i sessions [] a = tt
events_left i sessions (e ∷ l) a = elim (Bool-cases (e.session_id == i)) [
  | inl h ↦ rw h (events_left i sessions l a.1)
  | inr h ↦
      rw h
        (has_session-delete_session e.session_id i sessions h ∙ a.0, events_left i sessions l a.1)
]

pub enqueue_purge-IsSound : (i : ℕ) (s : Store) → IsSound s → IsSound (enqueue_purge i s)
unfolding enqueue_purge
enqueue_purge-IsSound i s h = (
  All-delete_session (λ (x : ObserverSession). x.id < s.next_session) i s.sessions h.0,
  IsKeyed-delete_session i s.sessions h.1,
  events_left i s.sessions s.events h.2,
)
