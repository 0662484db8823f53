-- ===== src/Observer/Controller/Shutdown.antt =====
-- Shutting the recorder down, once and again.
use agent_voca.Prelude.{
  ℕ, false, none, [], ◌≡◌, refl, ap, ◌∙◌, arith, Bool-cases, inl, inr, if◌then◌else◌,
}
use agent_voca.Observer.Store.{Store, drain, enqueue, flush}
use agent_voca.Observer.Store.Purge.{stop}
use agent_voca.Observer.Session
use agent_voca.Observer.Session.{Manager}
use agent_voca.Observer.Controller.{Controller, shutdown, close_at_shutdown, flush_store, is_active}

stop-started : (s : Store) → (stop s).started ≡ false
unfolding stop
stop-started s = elim (Bool-cases s.started) [
  | inl h ↦
      ap (λ b. (if b then record (drain s) { started = false; last_ts_ms = [] } else s).started) h
  | inr h ↦
      ap (λ b. (if b then record (drain s) { started = false; last_ts_ms = [] } else s).started) h
      ∙ h
]

-- Flushing and stopping a store that is stopped only leaves a barrier in its queue.
stop-flush_stopped : (s : Store) → s.started ≡ false → stop (flush_store s) ≡ enqueue flush s
unfolding stop
stop-flush_stopped s h =
    let waits : flush_store s ≡ enqueue flush s =
      ap (λ b. if b then drain s else enqueue flush s) h in
    let s' = enqueue flush s in
    ap stop waits
    ∙ ap (λ b. if b then record (drain s') { started = false; last_ts_ms = [] } else s') h

close_at_shutdown-current :
    (ended_at_ms : ℕ) (c : Controller) → (close_at_shutdown ended_at_ms c).manager.current ≡ none
unfolding close_at_shutdown Session.close_session
close_at_shutdown-current ended_at_ms c = ground arith

close_at_shutdown-idle :
    (ended_at_ms : ℕ) (c : Controller)
    → c.manager.current ≡ none
    → close_at_shutdown ended_at_ms c ≡ c
unfolding close_at_shutdown
close_at_shutdown-idle ended_at_ms c h = simp (h, close_at_shutdown)

-- Shutting down, in whatever state, leaves no session open and the store stopped; doing it again changes
-- neither a session nor an event, and leaves it so.
pub shutdown-shutdown :
    (t t' : ℕ) (c : Controller)
    → let once = shutdown t c in
      let twice = shutdown t' once in
      (is_active once ≡ false)
      × (once.manager.store.started ≡ false)
      × (is_active twice ≡ false)
      × (twice.manager.store ≡ enqueue flush once.manager.store)
unfolding shutdown
shutdown-shutdown t t' c =
    let once = shutdown t c in
    let closed = close_at_shutdown-current t c in
    let stopped = stop-started (flush_store (close_at_shutdown t c).manager.store) in
    (
      rw closed refl,
      stopped,
      rw (close_at_shutdown-current t' once) refl,
      ap (λ (x : Controller). stop (flush_store x.manager.store))
            (close_at_shutdown-idle t' once closed)
          ∙ stop-flush_stopped once.manager.store stopped,
    )
