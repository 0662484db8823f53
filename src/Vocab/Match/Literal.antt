-- ===== src/Vocab/Match/Literal.antt =====
-- What it means that a literal of a pattern stands at the head of a text.
use agent_voca.Prelude.{◌≡◌, refl, ap, true, [], ◌∷◌, ◌++◌, some, arith, Bool-cases, inl, inr}
use agent_voca.Text.{Text, Unicode}
use agent_voca.Vocab.Match.{strip_literal}

-- Letter by letter the same under `re.IGNORECASE`.
unfoldable pub SameLetters : Unicode → Text → Text → Type 0
SameLetters u [] [] = Unit
SameLetters u [] (c ∷ s) = ⊥
SameLetters u (t ∷ ts) [] = ⊥
SameLetters u (t ∷ ts) (c ∷ s) = (u.same_letter t c ≡ true) × SameLetters u ts s

-- The text is the literal, in any case of its letters, and then the rest.
abbrev pub IsLiteralThen : Unicode → Text → Text → Text → Type 0
IsLiteralThen u literal text rest =
    (front : Text) × (text ≡ front ++ rest) × SameLetters u literal front

module _ (u : Unicode) where
  pub strip_literal-IsLiteralThen :
      (literal text rest : Text)
      → strip_literal u literal text ≡ some rest
      → IsLiteralThen u literal text rest
  unfolding strip_literal SameLetters
  strip_literal-IsLiteralThen [] text rest = λ h. ([], cc, tt)
  strip_literal-IsLiteralThen (t ∷ ts) [] rest = λ h. absurd (ground (arith, h))
  strip_literal-IsLiteralThen (t ∷ ts) (c ∷ s) rest = elim (Bool-cases (u.same_letter t c)) [
    | inr e ↦ rw e (λ h. absurd (ground (arith, h)))
    | inl e ↦ rw e (λ h.
        let (front, whole, same) = strip_literal-IsLiteralThen ts s rest h in
        (c ∷ front, ap (◌∷◌ c) whole, (e, same)))
  ]

  pub strip_literal-append :
      (literal front rest : Text)
      → SameLetters u literal front
      → strip_literal u literal (front ++ rest) ≡ some rest
  unfolding strip_literal SameLetters
  strip_literal-append [] [] rest h = refl
  strip_literal-append [] (c ∷ s) rest h = absurd h
  strip_literal-append (t ∷ ts) [] rest h = absurd h
  strip_literal-append (t ∷ ts) (c ∷ s) rest h = rw h.0 (strip_literal-append ts s rest h.1)
