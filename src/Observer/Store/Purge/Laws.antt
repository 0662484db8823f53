-- ===== src/Observer/Store/Purge/Laws.antt =====
-- What a purge removes and what it keeps.
use mathlib.Core.Path.{subst}
use agent_voca.Prelude.{
  not, ◌||◌, leb, ℕ, ◌<◌, Bool, true, false, Option, none, some, List, [], ◌∷◌, ◌≡◌, refl, sym, ap,
  ◌∙◌, arith, All, Bool-cases, Option-cases, inl, inr, ◌==◌, if◌then◌else◌, length,
}
use agent_voca.Text.{Text}
use agent_voca.Observer.{ObserverEvent, ObserverSession}
use agent_voca.Observer.Store.{Store, perform, drain, of_session}
use agent_voca.Observer.Store.Purge.{
  Archive, delete_session, delete_events, enqueue_purge, purge_session, purge_sessions,
  purge_expired, is_expired, expired_ids, uuid_of, is_open, cutoff_ms, remove_directories,
}
use agent_voca.Observer.Store.Integrity.{IsKeyed, All-imp}

-- The sessions that are open, have no end, or ended at or after the cutoff.
unfoldable pub is_kept : ℕ → ObserverSession → Bool
is_kept cutoff s =
    is_open s.status
    || elim s.ended_at_ms [ none ↦ true | some ended_at_ms ↦ leb cutoff ended_at_ms ]

unfoldable pub kept : ℕ → List ObserverSession → List ObserverSession
unfolding is_kept
kept cutoff [] = []
kept cutoff (s ∷ l) = let rest = kept cutoff l in if is_kept cutoff s then s ∷ rest else rest

-- The sessions that are not expired, which are the same.
unfoldable pub unexpired : ℕ → List ObserverSession → List ObserverSession
unfolding is_expired
unexpired cutoff [] = []
unexpired cutoff (s ∷ l) =
    let rest = unexpired cutoff l in if is_expired cutoff s then rest else s ∷ rest

unfoldable delete_each : List ℕ → List ObserverSession → List ObserverSession
unfolding delete_session
delete_each [] l = l
delete_each (i ∷ is) l = delete_each is (delete_session i l)

delete_session-absent :
    (i : ℕ) (l : List ObserverSession)
    → All (λ (x : ObserverSession). i < x.id) l
    → delete_session i l ≡ l
unfolding delete_session
delete_session-absent i [] a = refl
delete_session-absent i (s ∷ l) a = ground (arith, a.0, delete_session-absent i l a.1)

delete_session-unknown :
    (i : ℕ) (l : List ObserverSession) → uuid_of i l ≡ none → delete_session i l ≡ l
unfolding delete_session uuid_of
delete_session-unknown i [] h = refl
delete_session-unknown i (s ∷ l) h = ground (arith, h, delete_session-unknown i l)

delete_each-keep :
    (is : List ℕ) (s : ObserverSession) (l : List ObserverSession)
    → All (λ i. s.id < i) is
    → delete_each is (s ∷ l) ≡ s ∷ delete_each is l
unfolding delete_each
delete_each-keep [] s l a = refl
delete_each-keep (i ∷ is) s l a =
    let other : delete_session i (s ∷ l) ≡ s ∷ delete_session i l =
      ground (arith, a.0, delete_session) in
    ap (delete_each is) other ∙ delete_each-keep is s (delete_session i l) a.1

expired_ids-later :
    (n cutoff : ℕ) (l : List ObserverSession)
    → All (λ (x : ObserverSession). n < x.id) l
    → All (λ i. n < i) (expired_ids cutoff l)
unfolding expired_ids
expired_ids-later n cutoff [] a = tt
expired_ids-later n cutoff (s ∷ l) a = elim (Bool-cases (is_expired cutoff s)) [
  | inl h ↦ rw h (a.0, expired_ids-later n cutoff l a.1)
  | inr h ↦ rw h (expired_ids-later n cutoff l a.1)
]

delete_each-expired :
    (cutoff : ℕ) (l : List ObserverSession)
    → IsKeyed l
    → delete_each (expired_ids cutoff l) l ≡ unexpired cutoff l
unfolding delete_each expired_ids unexpired delete_session
delete_each-expired cutoff [] k = refl
delete_each-expired cutoff (s ∷ l) k =
    let rest = delete_each-expired cutoff l k.1 in
    elim (Bool-cases (is_expired cutoff s)) [
      | inl h ↦
          let gone : delete_session s.id (s ∷ l) ≡ l =
            ground (arith, delete_session-absent s.id l k.0) in
          rw h (ap (delete_each (expired_ids cutoff l)) gone ∙ rest)
      | inr h ↦ rw h (
          delete_each-keep (expired_ids cutoff l) s l (expired_ids-later s.id cutoff l k.0)
          ∙ ap (λ r. s ∷ r) rest)
    ]

-- None of the ids is that of the session.
abbrev AreOthers : ℕ → List ℕ → Type 0
AreOthers j is = All (λ i. (i == j) ≡ false) is

All-unexpired :
    (P : ObserverSession → Type 0) (cutoff : ℕ) (l : List ObserverSession)
    → All P l
    → All P (unexpired cutoff l)
unfolding unexpired
All-unexpired P cutoff [] a = tt
All-unexpired P cutoff (s ∷ l) a = elim (Bool-cases (is_expired cutoff s)) [
  | inl h ↦ rw h (All-unexpired P cutoff l a.1)
  | inr h ↦ rw h (a.0, All-unexpired P cutoff l a.1)
]

All-pair :
    (P Q : ObserverSession → Type 0) (l : List ObserverSession)
    → All P l
    → All Q l
    → All (λ x. P x × Q x) l
All-pair P Q [] a b = tt
All-pair P Q (x ∷ l) a b = ((a.0, b.0), All-pair P Q l a.1 b.1)

unexpired-others :
    (cutoff : ℕ) (l : List ObserverSession)
    → IsKeyed l
    → All (λ (x : ObserverSession). AreOthers x.id (expired_ids cutoff l)) (unexpired cutoff l)
unfolding unexpired expired_ids
unexpired-others cutoff [] k = tt
unexpired-others cutoff (s ∷ l) k =
    let rest = unexpired-others cutoff l k.1 in
    elim (Bool-cases (is_expired cutoff s)) [
      | inl h ↦
          let later = All-unexpired (λ (x : ObserverSession). s.id < x.id) cutoff l k.0 in
          rw h (All-pair _ _ (unexpired cutoff l) (All-imp _ (λ x d. ground arith) later) rest)
      | inr h ↦ rw h (
        All-imp (expired_ids cutoff l) (λ i d. ground arith) (expired_ids-later s.id cutoff l k.0),
        rest,
      )
    ]

of_session-delete_events :
    (i j : ℕ) (l : List ObserverEvent)
    → (i == j) ≡ false
    → of_session j (delete_events i l) ≡ of_session j l
unfolding of_session delete_events
of_session-delete_events i j [] h = refl
of_session-delete_events i j (e ∷ l) h = ground (arith, h, of_session-delete_events i j l h)

drain-idle : (s : Store) → s.queue ≡ [] → drain s ≡ s
unfolding drain perform
drain-idle s h =
    ap (λ q. perform q (record s { queue = [] })) h ∙ ap (λ q. record s { queue = q }) (sym h)

-- A store that is running and has written all its jobs.
abbrev pub IsIdle : Store → Type 0
IsIdle s = (s.started ≡ true) × (s.queue ≡ [])

-- A purge of the sessions, from one state to another.
abbrev IsPurged : List ℕ → Store → Store → Type 0
IsPurged is s s' =
    IsIdle s'
    × (s'.sessions ≡ delete_each is s.sessions)
    × ((j : ℕ) → AreOthers j is → of_session j s'.events ≡ of_session j s.events)

purge_session-IsPurged :
    (removable : Text → Bool) (i : ℕ) (a : Archive)
    → IsIdle a.store
    → (a' : Archive) × (purge_session removable i a ≡ some a') × IsPurged (i ∷ []) a.store a'.store
unfolding purge_session enqueue_purge remove_directories delete_each
purge_session-IsPurged removable i a h = elim (Option-cases (uuid_of i a.store.sessions)) [
  | inl e ↦ (
    a,
    rw (e, purge_session) refl,
    (h, sym (delete_session-unknown i a.store.sessions e), λ j o. refl),
  )
  | inr (uuid, e) ↦
      let purged : Store → Option Archive =
        λ s. some (remove_directories removable uuid (record a { store = s })) in
      let s1 = drain (enqueue_purge i a.store) in
      let run : purge_session removable i a ≡ (if a.store.started then purged s1 else none) =
        rw (e, purge_session) refl in
      (
        remove_directories removable uuid (record a { store = enqueue_purge i a.store }),
        run
            ∙ ap (λ b. if b then purged s1 else none) h.0
            ∙ ap purged (drain-idle (enqueue_purge i a.store) h.1),
        (h, refl, λ j o. of_session-delete_events i j a.store.events o.0),
      )
]

purge_sessions-IsPurged :
    (removable : Text → Bool) (is : List ℕ) (a : Archive)
    → IsIdle a.store
    → (a' : Archive) × (purge_sessions removable is a ≡ some a') × IsPurged is a.store a'.store
unfolding purge_sessions delete_each
purge_sessions-IsPurged removable [] a h = (a, refl, (h, refl, λ j o. refl))
purge_sessions-IsPurged removable (i ∷ is) a h =
    let (a1, e1, (h1, s1, o1)) = purge_session-IsPurged removable i a h in
    let (a2, e2, (h2, s2, o2)) = purge_sessions-IsPurged removable is a1 h1 in
    (
      a2,
      rw (e1, purge_sessions) e2,
      (h2, s2 ∙ ap (delete_each is) s1, λ j o. o2 j o.1 ∙ o1 j (o.0, tt)),
    )

is_kept-is_expired :
    (cutoff : ℕ) (s : ObserverSession) → is_kept cutoff s ≡ not (is_expired cutoff s)
unfolding is_kept is_expired
is_kept-is_expired cutoff s = ground arith

kept-unexpired : (cutoff : ℕ) (l : List ObserverSession) → kept cutoff l ≡ unexpired cutoff l
unfolding kept unexpired
kept-unexpired cutoff [] = refl
kept-unexpired cutoff (s ∷ l) = elim (Bool-cases (is_expired cutoff s)) [
  | inl h ↦ rw (is_kept-is_expired cutoff s, h) (kept-unexpired cutoff l)
  | inr h ↦ rw (is_kept-is_expired cutoff s, h) (ap (λ r. s ∷ r) (kept-unexpired cutoff l))
]

-- On a running store with nothing left to write, whose ids ascend, a purge with a positive retention
-- succeeds: the sessions that are left are exactly those that are open, have no end, or ended at or after
-- the cutoff, in their order, each with all its events; the count is that of the removed ones.
pub purge_expired-exact :
    (removable : Text → Bool) (now_ms retention_days : ℕ) (a : Archive)
    → IsIdle a.store
    → IsKeyed a.store.sessions
    → (retention_days == 0) ≡ false
    → let cutoff = cutoff_ms now_ms retention_days in
      let left = kept cutoff a.store.sessions in
      (a' : Archive) × (purge_expired removable now_ms retention_days a
        ≡ some (length (expired_ids cutoff a.store.sessions), a'))
      × (a'.store.sessions ≡ left)
      × All
          (λ (x : ObserverSession).
            of_session x.id a'.store.events ≡ of_session x.id a.store.events)
          left
unfolding purge_expired
purge_expired-exact removable now_ms retention_days a h k d =
    let cutoff = cutoff_ms now_ms retention_days in
    let l = a.store.sessions in
    let (a', e, (_, s, o)) = purge_sessions-IsPurged removable (expired_ids cutoff l) a h in
    (
      a',
      rw (d, e) refl,
      s ∙ delete_each-expired cutoff l k ∙ sym (kept-unexpired cutoff l),
      subst
          (λ r.
            All
              (λ (x : ObserverSession).
                of_session x.id a'.store.events ≡ of_session x.id a.store.events)
              r)
          (sym (kept-unexpired cutoff l))
          (All-imp (unexpired cutoff l) (λ x. o x.id) (unexpired-others cutoff l k)),
    )
