-- ===== src/Insertion/Undo.antt =====
-- What an undo removes.
use mathlib.Core.Path.{subst}
use agent_voca.Prelude.{
  if-either, ℕ, ◌-◌, Bool, true, false, not, ◌&&◌, ◌||◌, none, some, List, [], ◌∷◌, ◌++◌, ◌≡◌, refl,
  ap, ◌∙◌, sym, arith, ltb, length, length-append, take, take-append, if◌then◌else◌,
}
use agent_voca.Text.{Text}
use agent_voca.Insertion.{
  behind_focus, Sent, sent, type_text, Key, typed, copied, pasted, undo_key, backspaced, focused,
  Keyboard, is_ascii, has_newline, clipboard_insert, insert, remove_text, undo_last,
}

-- The text in front of the cursor, and the clipboard; the undo of the application is an argument.
pub record Target : Type 0 where
  pub text : Text
  pub clipboard : Text

unfoldable pub press : (Text → Text) → Key → Target → Target
press undo (typed t) d = record d { text = d.text ++ t }
press undo (copied t) d = record d { clipboard = t }
press undo pasted d = record d { text = d.text ++ d.clipboard }
press undo undo_key d = record d { text = undo d.text }
press undo (backspaced n) d = record d { text = take (length d.text - n) d.text }
press undo (focused hwnd) d = d

unfoldable pub press_all : (Text → Text) → List Key → Target → Target
unfolding press
press_all undo [] d = d
press_all undo (k ∷ ks) d = press_all undo ks (press undo k d)

take-all : (t : Text) → take (length t) t ≡ t
take-all [] = refl
take-all (c ∷ t) = ap (λ r. c ∷ r) (take-all t)

erased : (a b : Text) → take (length (a ++ b) - length b) (a ++ b) ≡ a
erased a b =
    let rest : length (a ++ b) - length b ≡ length a = omega (arith, length-append a b) in
    ap (λ n. take n (a ++ b)) rest ∙ take-append (length a) a b (omega arith) ∙ take-all a

module _ (undo : Text → Text) (on_windows : Bool) where
  -- The keyboard behind a text that it typed.
  abbrev pub typed_last : Text → ℕ → Keyboard
  typed_last t w = record { last_text = some t; last_hwnd = w }

  -- The keys of an undo behind it.
  undo_last-keys :
      (d : Target) (c : ℕ) (s : Text) (w : ℕ)
      → (press_all undo (undo_last (λ key. false) on_windows (typed_last (c ∷ s) w)).1.keys d).text
        ≡ take (length d.text - length (c ∷ s)) d.text
  unfolding undo_last remove_text press_all press
  undo_last-keys d c s w =
      let positive : ltb 0 (length (c ∷ s)) ≡ true = ground arith in
      let removed : remove_text (λ key. false) (typed_last (c ∷ s) w)
          ≡ (record { last_text = none; last_hwnd = w }, sent (backspaced (length (c ∷ s)) ∷ [])) =
        rw positive refl in
      let P : Keyboard × Sent → Type 0 =
        λ r. (press_all undo r.1.keys d).text ≡ take (length d.text - length (c ∷ s)) d.text in
      if-either P (ltb 0 w && on_windows)
        (subst (λ x. P (x.0, behind_focus w x.1)) (sym removed) refl) (subst P (sym removed) refl)

  abbrev pub undone : Keyboard × Sent → Target → Text
  undone r d =
      (press_all undo (undo_last (λ key. false) on_windows r.0).1.keys
        (press_all undo r.1.keys d)).text

  -- Whether the keyboard types the text.
  abbrev pub is_typed : Text → Bool
  is_typed t = not (not (is_ascii t) || has_newline t)

  -- Behind a text that was typed before, when no key fails: inserting another text and undoing it takes
  -- away exactly that text when it was typed; when it was pasted, as a text of several lines is, the undo
  -- takes away as many characters as the text before it had.
  pub undo_last-insert :
      (d : Target) (hwnd w c c' : ℕ) (s s' : Text)
      → let before = c ∷ s in
        let text = c' ∷ s' in
        undone (insert (λ key. false) hwnd text (typed_last before w)) d ≡ (
          if is_typed text
          then d.text
          else take (length (d.text ++ text) - length before) (d.text ++ text))
  unfolding insert type_text clipboard_insert press_all press
  undo_last-insert d hwnd w c c' s s' = go (not (is_ascii (c' ∷ s')) || has_newline (c' ∷ s'))
    where
      go :
          (is_pasted : Bool)
          → let text = c' ∷ s' in
            let k = typed_last (c ∷ s) hwnd in
            undone
              (if is_pasted
                then (k, clipboard_insert (λ key. false) text)
                else (record k { last_text = some text }, type_text (λ key. false) text))
              d
            ≡ (if not is_pasted
                then d.text
                else take (length (d.text ++ text) - length (c ∷ s)) (d.text ++ text))
      go true = undo_last-keys (record { text = d.text ++ (c' ∷ s'); clipboard = c' ∷ s' }) c s hwnd
      go false =
          undo_last-keys (record d { text = d.text ++ (c' ∷ s') }) c' s' hwnd
          ∙ erased d.text (c' ∷ s')
