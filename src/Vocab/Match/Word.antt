-- ===== src/Vocab/Match/Word.antt =====
-- What it means that a term is a whole word at a place of a text, and which terms the search of a pattern finds.
use agent_voca.Prelude.{
  ℕ, zero, suc, ◌≡◌, refl, ap, ◌∙◌, true, false, ◌||◌, List, [], ◌∷◌, Option, none, some, arith,
  length, drop, All, Bool-cases, Option-cases, inl, inr,
}
use agent_voca.Text.{Text, Unicode, text_eq, text_eq_refl, contains}
use agent_voca.Vocab.Match.{
  insert_longest, build_pattern, strip_literal, word_ends, ends_word, match_at, take_like,
  is_word_before,
}
use agent_voca.Vocab.Match.Literal.{SameLetters, IsLiteralThen, strip_literal-append}
use agent_voca.Vocab.Match.Laws.{matches, All-insert_longest}

-- No character of a word stands in front, and none behind.
abbrev pub OutsideWord : Unicode → Option ℕ → Type 0
OutsideWord u none = Unit
OutsideWord u (some c) = u.is_word c ≡ false

abbrev pub EndsWord : Unicode → Text → Type 0
EndsWord u [] = Unit
EndsWord u (c ∷ s) = u.is_word c ≡ false

-- The term is a whole word at the head of the text, in any case of its letters, `before` being the character
-- in front.
abbrev pub IsWord : Unicode → Option ℕ → Text → Text → Type 0
IsWord u before term text =
    OutsideWord u before × (rest : Text) × IsLiteralThen u term text rest × EndsWord u rest

-- The last character of a stretch, or what stands in front of it.
abbrev pub last_or : Option ℕ → Text → Option ℕ
last_or before [] = before
last_or before (c ∷ s) = last_or (some c) s

contains-insert_longest :
    (t x : Text) (l : List Text) → contains (insert_longest t l) x ≡ (text_eq t x || contains l x)
unfolding insert_longest contains
contains-insert_longest t x [] = refl
contains-insert_longest t x (s ∷ l) = ground (arith, contains-insert_longest t x l)

pub contains-build_pattern :
    (terms : List Text) (x : Text) → contains (build_pattern terms) x ≡ contains terms x
unfolding build_pattern contains
contains-build_pattern [] x = refl
contains-build_pattern (t ∷ l) x =
    contains-insert_longest t x (build_pattern l)
    ∙ ap (λ b. text_eq t x || b) (contains-build_pattern l x)

abbrev pub IsFilled : Text → Type 0
IsFilled [] = ⊥
IsFilled (c ∷ s) = Unit

pub build_pattern-IsFilled :
    (terms : List Text) → All IsFilled terms → All IsFilled (build_pattern terms)
unfolding build_pattern
build_pattern-IsFilled [] h = tt
build_pattern-IsFilled (t ∷ l) h =
    All-insert_longest IsFilled t (build_pattern l) h.0 (build_pattern-IsFilled l h.1)

module _ (u : Unicode) where
  -- The search of the pattern, and what it finds.
  pub match_at-contains :
      (l : List Text) (s t : Text) → match_at u l s ≡ some t → contains l t ≡ true
  unfolding match_at contains
  match_at-contains [] s t = λ h. absurd (ground (arith, h))
  match_at-contains (r ∷ l) s t = elim (Bool-cases (matches u r s)) [
    | inl e ↦ rw e (λ h. let q : r ≡ t = cc in rw (q, text_eq_refl t) refl)
    | inr e ↦ rw e (λ h. ground (arith, match_at-contains l s t h))
  ]

  pub match_at_fails :
      (l : List Text) (s : Text) → match_at u l s ≡ none → All (λ t. matches u t s ≡ false) l
  unfolding match_at
  match_at_fails [] s = λ h. tt
  match_at_fails (r ∷ l) s = elim (Bool-cases (matches u r s)) [
    | inl e ↦ rw e (λ h. absurd (ground (arith, h)))
    | inr e ↦ rw e (λ h. (refl, match_at_fails l s h))
  ]

  pub match_at_end : (l : List Text) → All IsFilled l → match_at u l [] ≡ none
  unfolding match_at strip_literal
  match_at_end [] h = refl
  match_at_end ([] ∷ l) h = absurd h.0
  match_at_end ((c ∷ t) ∷ l) h = match_at_end l h.1

  pub outside : (before : Option ℕ) → is_word_before u before ≡ false → OutsideWord u before
  outside none h = tt
  outside (some c) h = h

  pub inside : (before : Option ℕ) → is_word_before u before ≡ true → ¬ OutsideWord u before
  inside none h o = ground (arith, h)
  inside (some c) h o = ground (arith, h, o)

  pub word_matches : (before : Option ℕ) (t s : Text) → IsWord u before t s → matches u t s ≡ true
  unfolding word_ends
  word_matches before t s (o, rest, (front, whole, same), ends) =
      ap (λ x. matches u t x) whole
      ∙ ap (ends_word u) (strip_literal-append u t front rest same)
      ∙ go rest ends
    where
      go : (r : Text) → EndsWord u r → word_ends u r ≡ true
      go [] e = refl
      go (c ∷ s) e = ground (arith, e)

  -- What a term that matches covers.
  strip_literal-take_like :
      (t s rest : Text)
      → strip_literal u t s ≡ some rest
      → SameLetters u t (take_like u t s) × (rest ≡ drop (length t) s)
  unfolding strip_literal SameLetters take_like
  strip_literal-take_like [] s rest = λ h. (tt, cc)
  strip_literal-take_like (t ∷ ts) [] rest = λ h. absurd (ground (arith, h))
  strip_literal-take_like (t ∷ ts) (c ∷ s) rest = elim (Bool-cases (u.same_letter t c)) [
    | inl e ↦
        rw e (λ h. let (same, left) = strip_literal-take_like ts s rest h in ((refl, same), left))
    | inr e ↦ rw e (λ h. absurd (ground (arith, h)))
  ]

  pub covers :
      (t s : Text)
      → matches u t s ≡ true
      → SameLetters u t (take_like u t s) × EndsWord u (drop (length t) s)
  unfolding word_ends
  covers t s = elim (Option-cases (strip_literal u t s)) [
    | inl e ↦ rw e (λ h. absurd (ground (arith, h)))
    | inr (rest, e) ↦
        let (same, left) = strip_literal-take_like t s rest e in
        rw (e, ← left) (λ h. (same, ends rest h))
  ]
    where
      ends : (r : Text) → word_ends u r ≡ true → EndsWord u r
      ends [] h = tt
      ends (c ∷ r) h = ground (arith, h)

  -- The character in front of a place, from what stands in front of the text.
  unfoldable pub advance : Option ℕ → ℕ → Text → Option ℕ
  advance before zero s = before
  advance before (suc n) [] = before
  advance before (suc n) (c ∷ s) = advance (some c) n s

  pub last_or-take_like :
      (t s : Text) (before : Option ℕ)
      → last_or before (take_like u t s) ≡ advance before (length t) s
  unfolding take_like advance
  last_or-take_like [] s before = refl
  last_or-take_like (x ∷ t) [] before = refl
  last_or-take_like (x ∷ t) (c ∷ s) before = last_or-take_like t s (some c)
