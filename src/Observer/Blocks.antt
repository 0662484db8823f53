-- ===== src/Observer/Blocks.antt =====
-- observer/compile/base.py: `split_blocks` and `block_window`.
pub mod Laws
use agent_voca.Prelude.{
  ℕ, ◌-◌, ◌+◌, Bool, true, false, ◌&&◌, ◌||◌, Option, none, some, List, [], ◌∷◌, ◌++◌, ltb,
  if◌then◌else◌,
}
use agent_voca.Text.{Text, text_eq}
use agent_voca.Observer.{ObserverEvent, is_focus_change}

-- `_BLOCK_GAP_MS`
abbrev pub block_gap_ms : ℕ
block_gap_ms = 300000

-- `event.app_name == prev.app_name`
unfoldable pub same_app : Option Text → Option Text → Bool
same_app none none = true
same_app (some a) (some b) = text_eq a b
same_app _ _ = false

-- `opened_by_focus or opened_by_gap`; the difference is compared without subtracting.
unfoldable pub opens_block : ObserverEvent → ObserverEvent → Bool
unfolding is_focus_change same_app
opens_block prev event =
    is_focus_change event.kind
    || (same_app event.app_name prev.app_name && ltb (prev.ts_ms + block_gap_ms) event.ts_ms)

-- `events[-1]`
unfoldable pub last : List ObserverEvent → Option ObserverEvent
last [] = none
last (e ∷ []) = some e
last (e ∷ e' ∷ es) = last (e' ∷ es)

-- `blocks` and `current` of the loop.
pub record Split : Type 0 where
  pub blocks : List (List ObserverEvent)
  pub current : List ObserverEvent

-- One turn of the loop.
unfoldable pub split_step : Split → ObserverEvent → Split
unfolding last opens_block
split_step s event = elim (last s.current) [
  | none ↦ record s { current = event ∷ [] }
  | some prev ↦
      if opens_block prev event
      then record { blocks = s.blocks ++ s.current ∷ []; current = event ∷ [] }
      else record s { current = s.current ++ event ∷ [] }
]

unfoldable pub split_loop : Split → List ObserverEvent → Split
unfolding split_step
split_loop s [] = s
split_loop s (event ∷ events) = split_loop (split_step s event) events

-- `if current: blocks.append(current)`
unfoldable pub finish_split : Split → List (List ObserverEvent)
finish_split s = elim s.current [ [] ↦ s.blocks | e ∷ es ↦ s.blocks ++ s.current ∷ [] ]

unfoldable pub split_blocks : List ObserverEvent → List (List ObserverEvent)
unfolding split_loop finish_split
split_blocks events = finish_split (split_loop (record { blocks = []; current = [] }) events)

unfoldable pub block_window : List ObserverEvent → ℕ × ℕ
unfolding last
block_window [] = (0, 0)
block_window (e ∷ es) = elim (last (e ∷ es)) [ none ↦ (0, 0) | some l ↦ (e.ts_ms, l.ts_ms) ]
