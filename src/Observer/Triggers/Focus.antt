-- ===== src/Observer/Triggers/Focus.antt =====
-- The changes of focus that are recorded.
use agent_voca.Prelude.{
  append_assoc, ℕ, Bool, true, Option, List, [], ◌∷◌, ◌++◌, ◌≡◌, refl, ap, ◌∙◌, arith,
  if◌then◌else◌,
}
use agent_voca.Observer.Triggers.{
  Point, App, Sources, Engine, Output, recorded, requested, same, detected, Input, speech, scrolled,
  clicked, polled, handle, run, on_speech_onset, on_scroll, on_click, handle_click_release,
  poll_window, poll_scroll, poll_once,
}

-- Each application and title that differs from the one before it.
unfoldable pub changes : App → List App → List App
unfolding same
changes last [] = []
changes last (a ∷ l) =
    let unchanged = changes last l in
    let changed = changes a l in if same a last then unchanged else a ∷ changed

unfoldable pub focuses : List Output → List App
focuses [] = []
focuses (recorded app previous ∷ l) = app ∷ focuses l
focuses (requested reason ∷ l) = focuses l

focuses-append : (a b : List Output) → focuses (a ++ b) ≡ focuses a ++ focuses b
unfolding focuses
focuses-append [] b = refl
focuses-append (recorded app previous ∷ a) b = ap (λ l. app ∷ l) (focuses-append a b)
focuses-append (requested reason ∷ a) b = focuses-append a b

module _ (sources : Sources) where
  -- What the detector answers to the polls.
  unfoldable pub answers : List Input → List App
  answers [] = []
  answers (speech ∷ is) = answers is
  answers (scrolled now ∷ is) = answers is
  answers (clicked p pressed ∷ is) = answers is
  answers (polled answer now ∷ is) = detected sources answer ∷ answers is

  -- An input that shows no application.
  abbrev IsBlind : Engine → Engine × List Output → Type 0
  IsBlind e r = (r.0.last_app ≡ e.last_app) × (focuses r.1 ≡ [])

  poll_scroll-IsBlind : (now : ℕ) (e : Engine) → IsBlind e (poll_scroll sources now e)
  unfolding poll_scroll focuses
  poll_scroll-IsBlind now e = ground arith

  on_speech_onset-IsBlind : (e : Engine) → IsBlind e (on_speech_onset sources e)
  unfolding on_speech_onset focuses
  on_speech_onset-IsBlind e = ground arith

  on_scroll-IsBlind : (now : ℕ) (e : Engine) → IsBlind e (on_scroll sources now e)
  unfolding on_scroll focuses
  on_scroll-IsBlind now e = ground arith

  on_click-IsBlind : (p : Point) (b : Bool) (e : Engine) → IsBlind e (on_click sources p b e)
  unfolding on_click focuses handle_click_release
  on_click-IsBlind p b e = ground arith

  blind-step :
      (l : List App) (e : Engine) (r : Engine × List Output)
      → IsBlind e r
      → focuses r.1 ++ changes r.0.last_app l ≡ changes e.last_app l
  blind-step l e r h = ap (λ x. x ++ changes r.0.last_app l) h.1 ∙ ap (λ a. changes a l) h.0

  poll_window-changes :
      (answer : Option App) (l : List App) (e : Engine)
      → sources.on_window_change ≡ true
      → let r = poll_window sources answer e in
        focuses r.1 ++ changes r.0.last_app l ≡ changes e.last_app (detected sources answer ∷ l)
  unfolding poll_window focuses changes
  poll_window-changes answer l e h = ground (arith, h)

  poll_once-changes :
      (answer : Option App) (now : ℕ) (l : List App) (e : Engine)
      → sources.on_window_change ≡ true
      → let r = poll_once sources answer now e in
        focuses r.1 ++ changes r.0.last_app l ≡ changes e.last_app (detected sources answer ∷ l)
  unfolding poll_once
  poll_once-changes answer now l e h =
      let (e1, window) = poll_window sources answer e in
      let scroll = poll_scroll sources now e1 in
      let blind = poll_scroll-IsBlind now e1 in
      ap (λ x. x ++ changes scroll.0.last_app l) (focuses-append window scroll.1)
      ∙ append_assoc (focuses window) (focuses scroll.1) (changes scroll.0.last_app l)
      ∙ ap (λ x. focuses window ++ x) (blind-step l e1 scroll blind)
      ∙ poll_window-changes answer l e h

  handle-changes :
      (i : Input) (l : List Input) (e : Engine)
      → sources.on_window_change ≡ true
      → let r = handle sources i e in
        focuses r.1 ++ changes r.0.last_app (answers l) ≡ changes e.last_app (answers (i ∷ l))
  unfolding handle answers
  handle-changes speech l e h =
      blind-step (answers l) e (on_speech_onset sources e) (on_speech_onset-IsBlind e)
  handle-changes (scrolled now) l e h =
      blind-step (answers l) e (on_scroll sources now e) (on_scroll-IsBlind now e)
  handle-changes (clicked p pressed) l e h =
      blind-step (answers l) e (on_click sources p pressed e) (on_click-IsBlind p pressed e)
  handle-changes (polled answer now) l e h = poll_once-changes answer now (answers l) e h

  -- While the source of window changes is on, whatever the mouse, the voice and the polls do: the focus
  -- changes that are recorded are the answers of the detector, in their order, without those that repeat
  -- the answer before them; the first one is compared with the application that was known at the start.
  pub run-changes :
      (is : List Input) (e : Engine)
      → sources.on_window_change ≡ true
      → focuses (run sources is e).1 ≡ changes e.last_app (answers is)
  unfolding run answers changes focuses
  run-changes [] e h = refl
  run-changes (i ∷ is) e h =
      let (e1, out) = handle sources i e in
      focuses-append out (run sources is e1).1
      ∙ ap (λ x. focuses out ++ x) (run-changes is e1 h)
      ∙ handle-changes i is e h
