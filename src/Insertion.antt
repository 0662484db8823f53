-- ===== src/Insertion.antt =====
-- insertion/keyboard.py and insertion/clipboard.py: the insertion strategies, as the keys that they
-- send. Which calls of the keyboard and of the clipboard raise an exception is an argument.
pub mod Undo
use agent_voca.Prelude.{
  ℕ, ◌-◌, Bool, true, false, not, ◌&&◌, ◌||◌, Option, none, some, List, [], ◌∷◌, ◌++◌, ltb, ◌==◌,
  if◌then◌else◌, length, take,
}
use agent_voca.Text.{Text}

-- What a strategy sends to the system.
pub data Key : Type 0 where
  typed copied : Text → Key
  pasted undo_key : Key
  backspaced focused : ℕ → Key

-- Whether a method succeeded, and the keys that it sent.
pub record Sent : Type 0 where
  pub success : Bool
  pub keys : List Key

abbrev pub sent : List Key → Sent
sent keys = record { success = true; keys = keys }

abbrev pub failed : List Key → Sent
failed keys = record { success = false; keys = keys }

-- The fields of `KeyboardInsertionStrategy`.
pub record Keyboard : Type 0 where
  pub last_text : Option Text
  pub last_hwnd : ℕ

abbrev pub init : Keyboard
init = record { last_text = none; last_hwnd = 0 }

-- `text.isascii()`
unfoldable pub is_ascii : Text → Bool
is_ascii [] = true
is_ascii (c ∷ s) = ltb c 128 && is_ascii s

-- `"\n" in text`
unfoldable pub has_newline : Text → Bool
has_newline [] = false
has_newline (c ∷ s) = c == 10 || has_newline s

-- `len(self._last_text) if self._last_text else 0`
abbrev pub count : Keyboard → ℕ
count k = elim k.last_text [ none ↦ 0 | some t ↦ length t ]

abbrev pub behind_focus : ℕ → Sent → Sent
behind_focus hwnd r = record r { keys = focused hwnd ∷ r.keys }

module _ (fails : Key → Bool) where
  -- `ClipboardInsertionStrategy.insert`
  unfoldable pub clipboard_insert : Text → Sent
  clipboard_insert [] = sent []
  clipboard_insert (c ∷ s) =
      if fails (copied (c ∷ s))
      then failed []
      else if fails pasted
      then failed (copied (c ∷ s) ∷ [])
      else sent (copied (c ∷ s) ∷ pasted ∷ [])

  -- `ClipboardInsertionStrategy.undo_last`
  unfoldable pub send_undo : Sent
  send_undo = if fails undo_key then failed [] else sent (undo_key ∷ [])

  -- `pyautogui.typewrite(text)`
  unfoldable pub type_text : Text → Sent
  type_text text = if fails (typed text) then failed [] else sent (typed text ∷ [])

  -- `KeyboardInsertionStrategy.insert`, with the handle of the window in the foreground
  unfoldable pub insert : ℕ → Text → Keyboard → Keyboard × Sent
  unfolding clipboard_insert is_ascii has_newline type_text
  insert hwnd [] k = (k, sent [])
  insert hwnd (c ∷ s) k =
      let text = c ∷ s in
      let k' = record k { last_hwnd = hwnd } in
      if not (is_ascii text) || has_newline text
      then (k', clipboard_insert text)
      else (record k' { last_text = some text }, type_text text)

  -- Step 2 of `undo_last`: the text is removed, or the undo hotkey is sent.
  unfoldable pub remove_text : Keyboard → Keyboard × Sent
  unfolding send_undo
  remove_text k =
      let n = count k in
      if ltb 0 n
      then (if fails (backspaced n)
          then (k, failed [])
          else (record k { last_text = none }, sent (backspaced n ∷ [])))
      else (k, send_undo)

  -- `KeyboardInsertionStrategy.undo_last`
  unfoldable pub undo_last : Bool → Keyboard → Keyboard × Sent
  unfolding remove_text
  undo_last on_windows k =
      let (k', r) = remove_text k in
      if ltb 0 k.last_hwnd && on_windows
      then (if fails (focused k.last_hwnd)
          then (k, failed [])
          else (k', behind_focus k.last_hwnd r))
      else (k', r)
