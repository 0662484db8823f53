-- ===== src/Observer/Controller/Capture.antt =====
-- What a trace tells the capture objects.
pub mod Steady
use mathlib.Core.Path.{subst}
use agent_voca.Prelude.{
  ℕ, Bool, true, false, not, ◌&&◌, ◌||◌, Option, none, some, List, [], ◌∷◌, ◌++◌, ◌≡◌, refl, sym,
  ap, ◌∙◌, arith, Bool-cases, Option-cases, ◌⊎◌, inl, inr, is_some, if-either, if◌then◌else◌,
}
use agent_voca.Text.{Text}
use agent_voca.Observer.Store.{Store}
use agent_voca.Observer.Session
use agent_voca.Observer.Session.{Manager}
use agent_voca.Observer.{ObserverSession}
use agent_voca.Observer.Controller.Calls.{
  after_start, after_toggle, Call, start_call, toggle_call, stop_call, compile_call, shutdown_call,
  pause_call, resume_call, perform_call, run_calls,
}
use agent_voca.Observer.Controller.{
  begin_session, end_session, Controller, Label, ambient, triggers, grabber, ocr, selection, Hook,
  missing, returns, raises, CaptureObject, Method, start_method, stop_method, Action, called,
  shut_down, published, scheduled, hook_of, call_hook, call_all, capture_objects, is_active,
  start_session, stop_session, shutdown, pause, resume, toggle_session, trace_all, schedule_compile,
  session_ended, schedule_if_attached, shut_down_object, Surface, close_at_shutdown,
}

unfoldable pub same_label : Label → Label → Bool
same_label ambient ambient = true
same_label triggers triggers = true
same_label grabber grabber = true
same_label ocr ocr = true
same_label selection selection = true
same_label _ _ = false

abbrev is_start : Method → Bool
is_start start_method = true
is_start stop_method = false

-- Whether the object was last told to start, after the trace.
unfoldable pub is_told : Label → Bool → List Action → Bool
unfolding same_label
is_told l told [] = told
is_told l told (called m k ∷ rest) = is_told l (if same_label k l then is_start m else told) rest
is_told l told (shut_down s ∷ rest) = is_told l told rest
is_told l told (published e ∷ rest) = is_told l told rest
is_told l told (scheduled i ∷ rest) = is_told l told rest

abbrev is_callable : Hook → Bool
is_callable missing = false
is_callable returns = true
is_callable raises = true

abbrev has_hooks : Option CaptureObject → Bool
has_hooks none = false
has_hooks (some o) = is_callable o.start_hook && is_callable o.stop_hook

-- Whether an object of the label, with both methods, is attached.
unfoldable pub is_attached : Label → List (Label × Option CaptureObject) → Bool
unfolding same_label
is_attached l [] = false
is_attached l ((k, o) ∷ objects) = (same_label k l && has_hooks o) || is_attached l objects

pub is_told-append :
    (l : Label) (told : Bool) (xs ys : List Action)
    → is_told l told (xs ++ ys) ≡ is_told l (is_told l told xs) ys
unfolding is_told
is_told-append l told [] ys = refl
is_told-append l told (called m k ∷ xs) ys =
    is_told-append l (if same_label k l then is_start m else told) xs ys
is_told-append l told (shut_down s ∷ xs) ys = is_told-append l told xs ys
is_told-append l told (published e ∷ xs) ys = is_told-append l told xs ys
is_told-append l told (scheduled i ∷ xs) ys = is_told-append l told xs ys

call_hook-is_told :
    (l k : Label) (m : Method) (h : Hook) (told : Bool)
    → is_told l told (call_hook h (called m k))
      ≡ (if is_callable h && same_label k l then is_start m else told)
unfolding is_told call_hook
call_hook-is_told l k m missing told = refl
call_hook-is_told l k m returns told = refl
call_hook-is_told l k m raises told = refl

-- Calling the method of one more object.
call_all-cons :
    (l k : Label) (m : Method) (o : CaptureObject) (objects : List (Label × Option CaptureObject))
    (told : Bool)
    → is_told l told (call_all m ((k, some o) ∷ objects))
      ≡ is_told l
          (if is_callable (hook_of m o) && same_label k l then is_start m else told)
          (call_all m objects)
unfolding call_all
call_all-cons l k m o objects told =
    is_told-append l told (call_hook (hook_of m o) (called m k)) (call_all m objects)
    ∙ ap (λ b. is_told l b (call_all m objects)) (call_hook-is_told l k m (hook_of m o) told)

-- Calling the method of all objects never tells the opposite.
call_all-stays :
    (l : Label) (m : Method) (objects : List (Label × Option CaptureObject))
    → is_told l (is_start m) (call_all m objects) ≡ is_start m
unfolding is_told call_all
call_all-stays l m [] = refl
call_all-stays l m ((k, none) ∷ objects) = call_all-stays l m objects
call_all-stays l m ((k, some o) ∷ objects) =
    call_all-cons l k m o objects (is_start m)
    ∙ ap (λ b. is_told l b (call_all m objects))
        (if-either (λ b. b ≡ is_start m) (is_callable (hook_of m o) && same_label k l) refl refl)
    ∙ call_all-stays l m objects

hook_of-callable :
    (m : Method) (o : CaptureObject) → has_hooks (some o) ≡ true → is_callable (hook_of m o) ≡ true
hook_of-callable start_method o h = ground (arith, h)
hook_of-callable stop_method o h = ground (arith, h)

-- Calling the method of all objects tells each attached one.
pub call_all-tells :
    (l : Label) (m : Method) (objects : List (Label × Option CaptureObject)) (told : Bool)
    → is_attached l objects ≡ true
    → is_told l told (call_all m objects) ≡ is_start m
unfolding is_attached call_all
call_all-tells l m [] told h = ground (arith, h)
call_all-tells l m ((k, none) ∷ objects) told h =
    call_all-tells l m objects told (ground (arith, h))
call_all-tells l m ((k, some o) ∷ objects) told h =
    call_all-cons l k m o objects told ∙ elim (Bool-cases (same_label k l && has_hooks (some o))) [
      | inl e ↦
          let both : (is_callable (hook_of m o) && same_label k l) ≡ true =
            ground (arith, e, hook_of-callable m o) in
          rw both (call_all-stays l m objects)
      | inr e ↦ call_all-tells l m objects _ (ground (arith, h, e))
    ]
