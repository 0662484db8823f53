-- ===== src/Observer/Store/Runs.antt =====
-- The calls of the store and the turns of its writer, in any order.
use mathlib.Core.Path.{subst}
use agent_voca.Prelude.{
  if-either, if◌then◌else◌, ℕ, Bool, Option, none, some, List, [], ◌∷◌, ◌≡◌, refl, sym,
  Option-cases, inl, inr, ◌==◌, length,
}
use agent_voca.Text.{Text}
use agent_voca.Observer.{ObserverSession}
use agent_voca.Observer.Store.{
  Store, WriteJob, drain, enqueue, open_session, close_session, close, write_next,
}
use agent_voca.Observer.Store.Purge.{
  Archive, enqueue_purge, purge_session, purge_sessions, purge_expired, purge_all, expired_ids,
  uuid_of, cutoff_ms, start, stop, remove_all, remove_directories,
}
use agent_voca.Observer.Store.Integrity.{
  IsSound, dispatch-IsSound, drain-IsSound, AreSound-snoc, enqueue_purge-IsSound,
}

pub data Call : Type 0 where
  start_call stop_call write_call : Call
  enqueue_call : WriteJob → Call
  open_call : Text → ℕ → Text → Call
  close_call : ℕ → ℕ → Call
  purge_call : ℕ → Call
  expire_call : ℕ → ℕ → Call
  purge_all_call : Call

-- A call that raises an error leaves the archive as it was.
abbrev after_purge : Option Archive → Archive → Archive
after_purge none a = a
after_purge (some a') a = a'

abbrev after_purges : Option (ℕ × Archive) → Archive → Archive
after_purges none a = a
after_purges (some r) a = r.1

abbrev after_open : Option (ObserverSession × Store) → Store → Store
after_open none s = s
after_open (some r) s = r.1

module _ (removable : Text → Bool) where
  unfoldable pub perform_call : Call → Archive → Archive
  unfolding open_session close_session purge_session purge_expired purge_all stop write_next
  perform_call start_call a = record a { store = start a.store }
  perform_call stop_call a = record a { store = stop a.store }
  perform_call write_call a = record a { store = write_next a.store }
  perform_call (enqueue_call job) a = record a { store = enqueue job a.store }
  perform_call (open_call app_version now_ms uuid) a = record a {
    store = after_open (open_session app_version now_ms uuid a.store) a.store;
  }
  perform_call (close_call i ended_at_ms) a = record a {
    store = close_session i ended_at_ms a.store;
  }
  perform_call (purge_call i) a = after_purge (purge_session removable i a) a
  perform_call (expire_call now_ms retention_days) a =
      after_purges (purge_expired removable now_ms retention_days a) a
  perform_call purge_all_call a = after_purges (purge_all removable a) a

  unfoldable pub run_calls : List Call → Archive → Archive
  unfolding perform_call
  run_calls [] a = a
  run_calls (c ∷ cs) a = run_calls cs (perform_call c a)

  write_next-IsSound : (s : Store) → IsSound s → IsSound (write_next s)
  unfolding write_next
  write_next-IsSound s h = go s.queue
    where
      go : (q : List WriteJob) → IsSound (write_next (record s { queue = q }))
      go [] = h
      go (job ∷ jobs) = dispatch-IsSound job (record s { queue = jobs }) h

  stop-IsSound : (s : Store) → IsSound s → IsSound (stop s)
  unfolding stop
  stop-IsSound s h = if-either IsSound s.started (drain-IsSound s h) h

  open_session-IsSound :
      (app_version : Text) (now_ms : ℕ) (uuid : Text) (s : Store)
      → IsSound s
      → IsSound (after_open (open_session app_version now_ms uuid s) s)
  unfolding open_session
  open_session-IsSound app_version now_ms uuid s h =
      if-either (λ o. IsSound (after_open o s)) s.started (AreSound-snoc s.sessions _ s.events h) h

  purge_session-IsSound :
      (i : ℕ) (a b : Archive)
      → IsSound a.store
      → IsSound b.store
      → IsSound (after_purge (purge_session removable i a) b).store
  unfolding purge_session remove_directories
  purge_session-IsSound i a b h k =
      let P : Option Archive → Type 0 = λ o. IsSound (after_purge o b).store in
      elim (Option-cases (uuid_of i a.store.sessions)) [
        | inl e ↦
            let same : purge_session removable i a ≡ some a = rw (e, purge_session) refl in
            subst P (sym same) h
        | inr (uuid, e) ↦
            let a' = record a { store = drain (enqueue_purge i a.store) } in
            let purged : purge_session removable i a
                ≡ (if a.store.started then some (remove_directories removable uuid a') else none) =
              rw (e, purge_session) refl in
            subst P (sym purged) (
              if-either P a.store.started
                (drain-IsSound (enqueue_purge i a.store) (enqueue_purge-IsSound i a.store h)) k)
      ]

  purge_sessions-IsSound :
      (is : List ℕ) (a b : Archive)
      → IsSound a.store
      → IsSound b.store
      → IsSound (after_purge (purge_sessions removable is a) b).store
  unfolding purge_sessions
  purge_sessions-IsSound [] a b h k = h
  purge_sessions-IsSound (i ∷ is) a b h k =
      let P : Option Archive → Type 0 = λ o. IsSound (after_purge o b).store in
      elim (Option-cases (purge_session removable i a)) [
        | inl e ↦
            let failed : purge_sessions removable (i ∷ is) a ≡ none = rw (e, purge_sessions) refl in
            subst P (sym failed) k
        | inr (a', e) ↦
            let sound = subst P e (purge_session-IsSound i a b h k) in
            let rest : purge_sessions removable (i ∷ is) a ≡ purge_sessions removable is a' =
              rw (e, purge_sessions) refl in
            subst P (sym rest) (purge_sessions-IsSound is a' b sound k)
      ]

  purge_expired-IsSound :
      (now_ms retention_days : ℕ) (a : Archive)
      → IsSound a.store
      → IsSound (after_purges (purge_expired removable now_ms retention_days a) a).store
  unfolding purge_expired
  purge_expired-IsSound now_ms retention_days a h =
      let ids = expired_ids (cutoff_ms now_ms retention_days) a.store.sessions in
      let P : Option (ℕ × Archive) → Type 0 = λ o. IsSound (after_purges o a).store in
      if-either P (retention_days == 0) h
        (go ids (purge_sessions removable ids a) (purge_sessions-IsSound ids a a h h))
    where
      go :
          (ids : List ℕ) (o : Option Archive)
          → IsSound (after_purge o a).store
          → IsSound
              (after_purges (elim o [ none ↦ none | some a' ↦ some (length ids, a') ]) a).store
      go ids none k = h
      go ids (some a') k = k

  remove_all-store :
      (l : List ObserverSession) (a : Archive) → (remove_all removable l a).store ≡ a.store
  unfolding remove_all remove_directories
  remove_all-store [] a = refl
  remove_all-store (s ∷ l) a = remove_all-store l (remove_directories removable s.uuid a)

  purge_all-IsSound :
      (a : Archive) → IsSound a.store → IsSound (after_purges (purge_all removable a) a).store
  unfolding purge_all
  purge_all-IsSound a h =
      let empty = record a { store = record a.store { sessions = []; events = [] } } in
      if-either (λ o. IsSound (after_purges o a).store) a.store.started
        (subst IsSound (sym (remove_all-store a.store.sessions empty)) (tt, tt, tt)) h

  perform_call-IsSound :
      (c : Call) (a : Archive) → IsSound a.store → IsSound (perform_call c a).store
  unfolding perform_call close_session
  perform_call-IsSound start_call a h = h
  perform_call-IsSound stop_call a h = stop-IsSound a.store h
  perform_call-IsSound write_call a h = write_next-IsSound a.store h
  perform_call-IsSound (enqueue_call job) a h = h
  perform_call-IsSound (open_call app_version now_ms uuid) a h =
      open_session-IsSound app_version now_ms uuid a.store h
  perform_call-IsSound (close_call i ended_at_ms) a h =
      drain-IsSound (enqueue (close i ended_at_ms) a.store) h
  perform_call-IsSound (purge_call i) a h = purge_session-IsSound i a a h h
  perform_call-IsSound (expire_call now_ms days) a h = purge_expired-IsSound now_ms days a h
  perform_call-IsSound purge_all_call a h = purge_all-IsSound a h

  -- Whatever is called, in whatever order and wherever the writer takes its turns: the ids of the sessions
  -- are distinct and ascend in the order of the rows, none is used that was not given out, and every stored
  -- event belongs to a stored session.
  pub run_calls-IsSound :
      (cs : List Call) (a : Archive) → IsSound a.store → IsSound (run_calls cs a).store
  unfolding run_calls
  run_calls-IsSound [] a h = h
  run_calls-IsSound (c ∷ cs) a h =
      run_calls-IsSound cs (perform_call c a) (perform_call-IsSound c a h)
