-- ===== src/Observer/Triggers/Settle.antt =====
-- How often the end of a scroll is announced.
use agent_voca.Prelude.{
  ℕ, suc, ◌+◌, ◌≤◌, Option, List, [], ◌∷◌, ◌++◌, ◌≡◌, arith, is_some, if◌then◌else◌,
}
use agent_voca.Observer.Triggers.{
  App, Sources, Engine, Output, recorded, requested, window_change, scroll_settle, click, selection,
  speech_onset, Input, speech, scrolled, clicked, polled, handle, run, on_speech_onset, on_scroll,
  on_click, handle_click_release, poll_window, poll_scroll, poll_once,
}

unfoldable pub settles : List Output → ℕ
settles [] = 0
settles (recorded app previous ∷ l) = settles l
settles (requested scroll_settle ∷ l) = suc (settles l)
settles (requested window_change ∷ l) = settles l
settles (requested click ∷ l) = settles l
settles (requested selection ∷ l) = settles l
settles (requested speech_onset ∷ l) = settles l

unfoldable pub scrolls : List Input → ℕ
scrolls [] = 0
scrolls (scrolled now ∷ is) = suc (scrolls is)
scrolls (speech ∷ is) = scrolls is
scrolls (clicked p pressed ∷ is) = scrolls is
scrolls (polled answer now ∷ is) = scrolls is

-- One for a scroll that is still to be announced.
unfoldable pub pending : Engine → ℕ
pending e = if is_some e.last_scroll then 1 else 0

settles-append : (a b : List Output) → settles (a ++ b) ≡ settles a + settles b
unfolding settles
settles-append [] b = omega arith
settles-append (recorded app previous ∷ a) b = settles-append a b
settles-append (requested scroll_settle ∷ a) b = omega (arith, settles-append a b)
settles-append (requested window_change ∷ a) b = settles-append a b
settles-append (requested click ∷ a) b = settles-append a b
settles-append (requested selection ∷ a) b = settles-append a b
settles-append (requested speech_onset ∷ a) b = settles-append a b

module _ (sources : Sources) where
  poll_window-settles :
      (answer : Option App) (e : Engine)
      → let r = poll_window sources answer e in
        (settles r.1 ≡ 0) × (r.0.last_scroll ≡ e.last_scroll)
  unfolding poll_window settles
  poll_window-settles answer e = ground arith

  poll_scroll-settles :
      (now : ℕ) (e : Engine)
      → let r = poll_scroll sources now e in settles r.1 + pending r.0 ≤ pending e
  unfolding poll_scroll settles pending
  poll_scroll-settles now e = ground arith

  handle-settles :
      (i : Input) (is : List Input) (e : Engine)
      → let r = handle sources i e in
        settles r.1 + pending r.0 + scrolls is ≤ scrolls (i ∷ is) + pending e
  unfolding handle on_speech_onset on_scroll on_click handle_click_release poll_once settles scrolls
      pending
  handle-settles speech is e = ground arith
  handle-settles (scrolled now) is e = ground arith
  handle-settles (clicked p pressed) is e = ground arith
  handle-settles (polled answer now) is e =
      let (e1, window) = poll_window sources answer e in
      let scroll = poll_scroll sources now e1 in
      ground (
        arith,
        poll_window-settles answer e,
        poll_scroll-settles now e1,
        settles-append window scroll.1,
      )

  -- Whatever happens in between, and however often the loop polls: the gate is asked for a settled scroll
  -- at most once for each scroll event, counting one that was still pending at the start.
  pub run-settles :
      (is : List Input) (e : Engine) → settles (run sources is e).1 ≤ scrolls is + pending e
  unfolding run settles scrolls
  run-settles [] e = omega arith
  run-settles (i ∷ is) e =
      let (e1, out) = handle sources i e in
      omega
        (arith, settles-append out (run sources is e1).1, run-settles is e1, handle-settles i is e)
