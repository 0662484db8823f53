-- ===== src/Orchestrator/Exec.antt =====
-- Methods of the orchestrator as actions: they read and write the object, and return, raise or are
-- cancelled. What was written before an exception stays written.
use agent_voca.Prelude.{Bool, true, ◌≡◌, refl, arith, [], ◌∷◌, ◌++◌, if◌then◌else◌}
use agent_voca.Machine
use agent_voca.Machine.{State, EventType, Context, TransitionResult}
use agent_voca.Orchestrator.{
  Orch, Published, state_changed, error_published, Spawned, Stage, Answer, returned, provider_error,
  other_error, cancelled,
}

-- `raised` is any `Exception`; `stopped` is `CancelledError`, which is none.
pub data Result {ℓ} (A : Type ℓ) : Type ℓ where
  done : A → Result A
  raised stopped : Result A

abbrev pub Exec : Type 0 → Type 0
Exec A = Orch → Result A × Orch

infixl 5 ◌>>=◌ ◌>>◌
abbrev pub ◌>>=◌ : {A B : Type 0} → Exec A → (A → Exec B) → Exec B
◌>>=◌ m f o =
    let (r, o') = m o in
    elim r [ done a ↦ f a o' | raised ↦ (raised, o') | stopped ↦ (stopped, o') ]

abbrev pub ◌>>◌ : {B : Type 0} → Exec (Unit {0}) → Exec B → Exec B
m >> k = m >>= λ _. k

abbrev pub pure : {A : Type 0} → A → Exec A
pure a o = (done a, o)

abbrev pub raise : {A : Type 0} → Exec A
raise o = (raised, o)

abbrev pub gets : {A : Type 0} → (Orch → A) → Exec A
gets f o = (done (f o), o)

abbrev pub modify : (Orch → Orch) → Exec (Unit {0})
modify f o = (done tt, f o)

-- An awaited call whose provider errors are not caught on the spot.
abbrev pub await_answer : {A : Type 0} → Answer A → Exec A
await_answer (returned a) o = (done a, o)
await_answer provider_error o = (raised, o)
await_answer other_error o = (raised, o)
await_answer cancelled o = (stopped, o)

-- `self._event_bus.publish(event)`
abbrev pub publish_to : Published → Orch → Orch
publish_to event o = record o { published = o.published ++ event ∷ [] }

abbrev pub publish : Published → Exec (Unit {0})
publish event = modify (publish_to event)

-- `asyncio.create_task(...)`
abbrev pub spawn : Spawned → Exec (Unit {0})
spawn task = modify (λ o. record o { spawned = o.spawned ++ task ∷ [] })

-- `self._state_machine.transition(...)`
abbrev pub transition : EventType → Context → Exec TransitionResult
transition e ctx o =
    let (s, result) = Machine.transition o.state e ctx in (done result, record o { state = s })

-- `_emit_state_change`, where the transition was taken
abbrev pub emit_if : Bool → State → State → Exec (Unit {0})
emit_if taken previous current o =
    (done tt, if taken then publish_to (state_changed previous current) o else o)

-- `_emit_error`, with the timer that `_schedule_error_timeout` starts
abbrev pub emit_error : Stage → Bool → Exec (Unit {0})
emit_error stage recoverable o =
    let o' = publish_to (error_published stage recoverable) o in
    (done tt, if recoverable then o' else record o' { error_timer = true })

after_at :
    {A B : Type 0} (r : Result A × Orch) (f : A → Exec B) {a : A} {o₁ : Orch}
    → r ≡ (done a, o₁)
    → (elim r.0 [ done a ↦ f a r.1 | raised ↦ (raised, r.1) | stopped ↦ (stopped, r.1) ]) ≡ f a o₁
after_at (done a', o') f h = ground arith
after_at (raised, o') f h = ground arith
after_at (stopped, o') f h = ground arith

-- The first part of a block has returned.
pub after :
    {A B : Type 0} (m : Exec A) (f : A → Exec B) (o : Orch) {a : A} {o₁ : Orch}
    → m o ≡ (done a, o₁)
    → (m >>= f) o ≡ f a o₁
after m f o h = after_at (m o) f h

-- Inversion of a block that returned.
bind_done_at :
    {A B : Type 0} (r : Result A × Orch) (f : A → Exec B) (b : B) (o' : Orch)
    → (elim r.0 [ done a ↦ f a r.1 | raised ↦ (raised, r.1) | stopped ↦ (stopped, r.1) ])
      ≡ (done b, o')
    → (a : A) × (o₁ : Orch) × (r ≡ (done a, o₁)) × (f a o₁ ≡ (done b, o'))
bind_done_at (done a, o₁) f b o' h = (a, o₁, refl, h)
bind_done_at (raised, o₁) f b o' h = ground arith
bind_done_at (stopped, o₁) f b o' h = ground arith

pub bind_done :
    {A B : Type 0} (m : Exec A) (f : A → Exec B) (o : Orch) (b : B) (o' : Orch)
    → (m >>= f) o ≡ (done b, o')
    → (a : A) × (o₁ : Orch) × (m o ≡ (done a, o₁)) × (f a o₁ ≡ (done b, o'))
bind_done m f o b o' h = bind_done_at (m o) f b o' h

bind_keeps_at :
    {A B : Type 0} (P : Orch → Type 0) (r : Result A × Orch) (f : A → Exec B)
    → P r.1
    → ((a : A) (o : Orch) → P o → P (f a o).1)
    → let rest : Result B × Orch = elim r.0 [
      | done a ↦ f a r.1
      | raised ↦ (raised, r.1)
      | stopped ↦ (stopped, r.1)
    ] in
      P rest.1
bind_keeps_at P (done a, o) f h k = k a o h
bind_keeps_at P (raised, o) f h k = h
bind_keeps_at P (stopped, o) f h k = h

-- What both parts of a block keep, the block keeps, whether it returns, raises or is cancelled.
pub bind_keeps :
    {A B : Type 0} (P : Orch → Type 0) (m : Exec A) (f : A → Exec B) (o : Orch)
    → P (m o).1
    → ((a : A) (o : Orch) → P o → P (f a o).1)
    → P ((m >>= f) o).1
bind_keeps P m f o h k = bind_keeps_at P (m o) f h k
