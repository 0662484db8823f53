-- ===== src/EventBus/Delivery.antt =====
-- Subscribing and taking it back.
use agent_voca.Prelude.{
  ℕ, true, false, some, List, [], ◌∷◌, ◌++◌, ◌==◌, ◌≡◌, ◌≢◌, refl, ap, ◌∙◌, arith, Bool-cases, inl,
  inr,
}
use agent_voca.EventBus.{
  EventBus, handlers_of, add_handler, subscribe, has_handler, remove_handler, set_handlers,
  unsubscribe,
}

handlers_of-add_same :
    (l : List (ℕ × List ℕ)) (t h : ℕ)
    → handlers_of (add_handler t h l) t ≡ handlers_of l t ++ h ∷ []
unfolding handlers_of add_handler
handlers_of-add_same [] t h = ground arith
handlers_of-add_same ((t', hs) ∷ l) t h = ground (arith, handlers_of-add_same l t h)

remove-append :
    (h : ℕ) (hs : List ℕ) → has_handler h hs ≡ false → remove_handler h (hs ++ h ∷ []) ≡ hs
unfolding has_handler remove_handler
remove-append h [] e = ground arith
remove-append h (x ∷ hs) e = ground (arith, e, remove-append h hs)

has-append : (h : ℕ) (hs : List ℕ) → has_handler h (hs ++ h ∷ []) ≡ true
unfolding has_handler
has-append h [] = ground arith
has-append h (x ∷ hs) = ground (arith, has-append h hs)

-- No event type is kept with an empty list of handlers.
abbrev pub IsTidy : List (ℕ × List ℕ) → Type 0
IsTidy [] = Unit
IsTidy ((t, hs) ∷ l) = (hs ≢ []) × IsTidy l

set_back_entry :
    (t h s : ℕ) (hs : List ℕ) (l : List (ℕ × List ℕ))
    → (s == t) ≡ true
    → hs ≢ []
    → set_handlers t hs ((s, hs ++ h ∷ []) ∷ l) ≡ (s, hs) ∷ l
unfolding set_handlers
set_back_entry t h s [] l e n = absurd (n refl)
set_back_entry t h s (x ∷ xs) l e n = rw (e, set_handlers) refl

first_handlers :
    (t s : ℕ) (hs : List ℕ) (l : List (ℕ × List ℕ))
    → (s == t) ≡ true
    → handlers_of ((s, hs) ∷ l) t ≡ hs
unfolding handlers_of
first_handlers t s hs l e = ground (arith, e)

first_added :
    (t h s : ℕ) (hs : List ℕ) (l : List (ℕ × List ℕ))
    → (s == t) ≡ true
    → add_handler t h ((s, hs) ∷ l) ≡ (s, hs ++ h ∷ []) ∷ l
unfolding add_handler
first_added t h s hs l e = ground (arith, e)

set_back :
    (t h : ℕ) (l : List (ℕ × List ℕ))
    → IsTidy l
    → set_handlers t (handlers_of l t) (add_handler t h l) ≡ l
unfolding set_handlers handlers_of add_handler
set_back t h [] tidy = ground arith
set_back t h ((s, hs) ∷ l) tidy = elim (Bool-cases (s == t)) [
  | inl e ↦
      ap (λ x. set_handlers t x (add_handler t h ((s, hs) ∷ l))) (first_handlers t s hs l e)
      ∙ ap (λ y. set_handlers t hs y) (first_added t h s hs l e)
      ∙ set_back_entry t h s hs l e tidy.0
  | inr e ↦ ground (arith, e, set_back t h l tidy.1)
]

-- Taking back a subscription of a handler that was not subscribed to the type before leaves the bus
-- exactly as it was, where no type is kept with an empty list.
pub unsubscribe-subscribe :
    (t h : ℕ) (bus : EventBus)
    → IsTidy bus.subscribers
    → has_handler h (handlers_of bus.subscribers t) ≡ false
    → unsubscribe t h (subscribe t h bus) ≡ some bus
unfolding unsubscribe subscribe
unsubscribe-subscribe t h bus tidy fresh =
    let hs = handlers_of bus.subscribers t in
    let found : has_handler h (handlers_of (add_handler t h bus.subscribers) t) ≡ true =
      rw (handlers_of-add_same bus.subscribers t h) (has-append h hs) in
    let removed : remove_handler h (handlers_of (add_handler t h bus.subscribers) t) ≡ hs =
      rw (handlers_of-add_same bus.subscribers t h) (remove-append h hs fresh) in
    rw (found, removed, set_back t h bus.subscribers tidy) refl
