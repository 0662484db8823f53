-- ===== src/Observer/Triggers.antt =====
-- observer/triggers.py: `TriggerEngine`, its handlers and one turn of its poll loop. A handler
-- answers with what it records and what it asks of the gate, in order; the clock counts milliseconds.
pub mod Focus
pub mod Settle
use agent_voca.Prelude.{
  ℕ, suc, ◌+◌, ◌-◌, Bool, true, false, not, ◌&&◌, Option, none, some, List, [], ◌∷◌, ◌++◌, ltb, leb,
  max, if◌then◌else◌,
}
use agent_voca.Text.{Text, is_empty}
use agent_voca.Observer.Blocks.{same_app}

-- `TriggerReason`
pub data TriggerReason : Type 0 where
  window_change scroll_settle click selection speech_onset : TriggerReason

-- Screen coordinates, which are negative on a monitor to the left.
pub data ℤ : Type 0 where
  pos negsuc : ℕ → ℤ

-- `abs(a - b)`
unfoldable pub distance : ℤ → ℤ → ℕ
distance (pos a) (pos b) = (a - b) + (b - a)
distance (negsuc a) (negsuc b) = (a - b) + (b - a)
distance (pos a) (negsuc b) = a + suc b
distance (negsuc a) (pos b) = suc a + b

pub record Point : Type 0 where
  pub x : ℤ
  pub y : ℤ

-- The foreground application and the title of its window.
abbrev pub App : Type 0
App = Option Text × Option Text

-- The sources of `ObserverTriggersConfig`.
pub record Sources : Type 0 where
  pub on_window_change : Bool
  pub on_scroll_settle : Bool
  pub on_click_selection : Bool
  pub on_speech : Bool
  pub scroll_settle_ms : ℕ

-- `none` is `-1e18`, the time of no scroll.
pub record Engine : Type 0 where
  pub last_scroll : Option ℕ
  pub last_app : App
  pub click_down : Option Point

-- A `focus_change` event with the application, the title and the previous application, or a request.
pub data Output : Type 0 where
  recorded : App → Option Text → Output
  requested : TriggerReason → Output

-- `TriggerEngine(config, session, active_app, gate, clock)`
abbrev pub init : Engine
init = record { last_scroll = none; last_app = (none, none); click_down = none }

unfoldable pub same : App → App → Bool
unfolding same_app
same a b = same_app a.0 b.0 && same_app a.1 b.1

-- `previous_app` in the meta, when it is one
abbrev pub named : Option Text → Option Text
named none = none
named (some t) = if is_empty t then none else some t

-- What the threads call, in the order in which they get there.
pub data Input : Type 0 where
  speech : Input
  scrolled : ℕ → Input
  clicked : Point → Bool → Input
  polled : Option App → ℕ → Input

module _ (sources : Sources) where
  unfoldable pub on_speech_onset : Engine → Engine × List Output
  on_speech_onset e = (e, if sources.on_speech then requested speech_onset ∷ [] else [])

  unfoldable pub on_scroll : ℕ → Engine → Engine × List Output
  on_scroll now e =
      (if sources.on_scroll_settle then record e { last_scroll = some now } else e, [])

  -- `_handle_click_release`
  unfoldable pub handle_click_release : Point → Point → List Output
  unfolding distance
  handle_click_release down up =
      if ltb 5 (max (distance up.x down.x) (distance up.y down.y))
      then requested selection ∷ []
      else requested click ∷ []

  abbrev pub release : Option Point → Point → List Output
  release none up = []
  release (some down) up = handle_click_release down up

  unfoldable pub on_click : Point → Bool → Engine → Engine × List Output
  unfolding handle_click_release
  on_click p pressed e =
      if not sources.on_click_selection
      then (e, [])
      else if pressed
      then (record e { click_down = some p }, [])
      else (record e { click_down = none }, release e.click_down p)

  -- The detector's answer; `none` is its exception.
  abbrev pub detected : Option App → App
  detected none = (none, none)
  detected (some app) = app

  -- `_poll_once`: the change of the window
  unfoldable pub poll_window : Option App → Engine → Engine × List Output
  unfolding same
  poll_window answer e =
      let app = detected answer in
      if sources.on_window_change && not (same app e.last_app)
      then (
        record e { last_app = app },
        recorded app (named e.last_app.0) ∷ requested window_change ∷ [],
      )
      else (e, [])

  -- `_poll_once`: the end of a scroll
  unfoldable pub poll_scroll : ℕ → Engine → Engine × List Output
  poll_scroll now e =
      if sources.on_scroll_settle
      then elim e.last_scroll [
        | none ↦ (e, [])
        | some last ↦
            if leb (last + sources.scroll_settle_ms) now
            then (record e { last_scroll = none }, requested scroll_settle ∷ [])
            else (e, [])
      ]
      else (e, [])

  -- `_poll_once`
  unfoldable pub poll_once : Option App → ℕ → Engine → Engine × List Output
  unfolding poll_window poll_scroll
  poll_once answer now e =
      let (e1, window) = poll_window answer e in
      let (e2, scroll) = poll_scroll now e1 in (e2, window ++ scroll)

  unfoldable pub handle : Input → Engine → Engine × List Output
  unfolding on_speech_onset on_scroll on_click poll_once
  handle speech e = on_speech_onset e
  handle (scrolled now) e = on_scroll now e
  handle (clicked p pressed) e = on_click p pressed e
  handle (polled answer now) e = poll_once answer now e

  unfoldable pub run : List Input → Engine → Engine × List Output
  unfolding handle
  run [] e = (e, [])
  run (i ∷ is) e = let (e1, out) = handle i e in let (e2, rest) = run is e1 in (e2, out ++ rest)
