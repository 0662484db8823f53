-- ===== src/EventBus.antt =====
-- core/event_bus.py: `EventBus`. Event types and handlers are told apart by numbers; what a handler
-- does with an event is an argument.
pub mod Delivery
use agent_voca.Prelude.{
  ℕ, Bool, true, false, ◌||◌, Option, none, some, List, [], ◌∷◌, ◌++◌, ◌==◌, if◌then◌else◌,
}

-- `self._subscribers`, and whether a persistent loop is set
pub record EventBus : Type 0 where
  pub subscribers : List (ℕ × List ℕ)
  pub has_loop : Bool

abbrev pub init : EventBus
init = record { subscribers = []; has_loop = false }

abbrev pub set_loop : Bool → EventBus → EventBus
set_loop has_loop bus = record bus { has_loop = has_loop }

-- `self._subscribers.get(event_type, [])`
unfoldable pub handlers_of : List (ℕ × List ℕ) → ℕ → List ℕ
handlers_of [] t = []
handlers_of ((t', hs) ∷ l) t = let rest = handlers_of l t in if t' == t then hs else rest

-- The list of the event type is made where it is missing, and the handler is put at its end.
unfoldable pub add_handler : ℕ → ℕ → List (ℕ × List ℕ) → List (ℕ × List ℕ)
add_handler t h [] = (t, h ∷ []) ∷ []
add_handler t h ((t', hs) ∷ l) =
    let rest = add_handler t h l in if t' == t then (t', hs ++ h ∷ []) ∷ l else (t', hs) ∷ rest

unfoldable pub subscribe : ℕ → ℕ → EventBus → EventBus
unfolding add_handler
subscribe t h bus = record bus { subscribers = add_handler t h bus.subscribers }

-- `handler in handlers`
unfoldable pub has_handler : ℕ → List ℕ → Bool
has_handler h [] = false
has_handler h (h' ∷ hs) = h' == h || has_handler h hs

-- `handlers.remove(handler)`: the first one goes.
unfoldable pub remove_handler : ℕ → List ℕ → List ℕ
remove_handler h [] = []
remove_handler h (h' ∷ hs) = let rest = remove_handler h hs in if h' == h then hs else h' ∷ rest

-- The list is replaced, or taken out of the dictionary when it is empty.
unfoldable pub set_handlers : ℕ → List ℕ → List (ℕ × List ℕ) → List (ℕ × List ℕ)
set_handlers t hs [] = []
set_handlers t hs ((t', hs') ∷ l) =
    let rest = set_handlers t hs l in
    if t' == t then elim hs [ [] ↦ l | x ∷ xs ↦ (t', x ∷ xs) ∷ l ] else (t', hs') ∷ rest

-- `unsubscribe`; `none` is the `ValueError`.
unfoldable pub unsubscribe : ℕ → ℕ → EventBus → Option EventBus
unfolding handlers_of has_handler remove_handler set_handlers
unsubscribe t h bus =
    let hs = handlers_of bus.subscribers t in
    if has_handler h hs
    then some (record bus { subscribers = set_handlers t (remove_handler h hs) bus.subscribers })
    else none

-- What a handler does with the event: it returns, returns a coroutine, or raises; `raised_unnamed` is an
-- exception of a handler without a `__name__`, whose message then raises too.
pub data Reaction : Type 0 where
  returned coroutine raised raised_unnamed : Reaction

-- What `publish` makes of it.
pub data Outcome : Type 0 where
  finished scheduled_here scheduled_on_loop run_to_completion logged escaped : Outcome

unfoldable pub outcome : Bool → Bool → Reaction → Outcome
outcome in_loop has_loop returned = finished
outcome in_loop has_loop raised = logged
outcome in_loop has_loop raised_unnamed = escaped
outcome in_loop has_loop coroutine =
    if in_loop then scheduled_here else if has_loop then scheduled_on_loop else run_to_completion

-- The loop of `publish`, which an exception that escapes ends. The handlers leave the subscriptions alone.
unfoldable pub deliver : (ℕ → Reaction) → Bool → Bool → List ℕ → List (ℕ × Outcome)
unfolding outcome
deliver react in_loop has_loop [] = []
deliver react in_loop has_loop (h ∷ hs) =
    let rest = deliver react in_loop has_loop hs in
    elim (outcome in_loop has_loop (react h)) [
      | escaped ↦ (h, escaped) ∷ []
      | finished ↦ (h, finished) ∷ rest
      | scheduled_here ↦ (h, scheduled_here) ∷ rest
      | scheduled_on_loop ↦ (h, scheduled_on_loop) ∷ rest
      | run_to_completion ↦ (h, run_to_completion) ∷ rest
      | logged ↦ (h, logged) ∷ rest
    ]

-- `publish`, from a thread with or without a running loop
unfoldable pub publish : (ℕ → Reaction) → Bool → ℕ → EventBus → List (ℕ × Outcome)
unfolding handlers_of deliver
publish react in_loop t bus = deliver react in_loop bus.has_loop (handlers_of bus.subscribers t)
