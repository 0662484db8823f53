-- ===== src/Vocab/Match/Scan.antt =====
-- What the substitution of a whole-word pattern replaces, and by which of its terms.
use mathlib.Core.Path.{subst}
use agent_voca.Prelude.{
  ℕ, zero, suc, ◌≤◌, ◌≡◌, refl, sym, ◌∙◌, true, false, List, [], ◌∷◌, ◌++◌, Option, none, some,
  arith, if◌then◌else◌, length, drop, All, Bool-cases, Option-cases, inl, inr, if-either,
}
use agent_voca.Text.{Text, Unicode, text_eq, contains}
use agent_voca.Vocab.Match.{
  escaped_length, build_pattern, match_at, take_like, substitute, is_word_before,
}
use agent_voca.Vocab.Match.Literal.{SameLetters}
use agent_voca.Vocab.Match.Laws.{
  matches, All-build_pattern_inv, build_pattern-IsDescending, take_like-append-drop,
  match_at-IsLongest_of,
}
use agent_voca.Vocab.Match.Word.{
  OutsideWord, EndsWord, IsWord, last_or, IsFilled, advance, contains-build_pattern,
  build_pattern-IsFilled, match_at-contains, match_at_fails, match_at_end, outside, inside,
  word_matches, covers, last_or-take_like,
}

-- A scan of the text from left to right: at each place either no term is a whole word and one character is
-- copied, or a longest one of the terms that are (lengths as `re.escape` spells them) is replaced.
pub data Scanned (u : Unicode) (terms : List Text) (replacement : Text → Text)
    : Option ℕ → Text → Text → Type 0 where
  ended : {before : Option ℕ} → Scanned u terms replacement before [] []
  copied :
      {before : Option ℕ} {c : ℕ} {s out : Text}
      → All (λ t. ¬ IsWord u before t (c ∷ s)) terms
      → Scanned u terms replacement (some c) s out
      → Scanned u terms replacement before (c ∷ s) (c ∷ out)
  replaced :
      {before : Option ℕ} {text out : Text} (term front rest : Text)
      → text ≡ front ++ rest
      → contains terms term ≡ true
      → OutsideWord u before
      → SameLetters u term front
      → EndsWord u rest
      → All (λ t. IsWord u before t text → escaped_length t ≤ escaped_length term) terms
      → Scanned u terms replacement (last_or before front) rest out
      → Scanned u terms replacement before text (replacement front ++ out)

module _ (u : Unicode) where
  none_fits :
      (before : Option ℕ) (s : Text) (l : List Text)
      → All (λ t. matches u t s ≡ false) l
      → All (λ t. ¬ IsWord u before t s) l
  none_fits before s [] h = tt
  none_fits before s (t ∷ l) h =
      (λ w. let e = word_matches u before t s w in ground (arith, e, h.0), none_fits before s l h.1)

  never_fits :
      (before : Option ℕ) (s : Text) (l : List Text)
      → ¬ OutsideWord u before
      → All (λ t. ¬ IsWord u before t s) l
  never_fits before s [] n = tt
  never_fits before s (t ∷ l) n = (λ w. n w.0, never_fits before s l n)

  none_longer :
      (before : Option ℕ) (s t : Text) (l : List Text)
      → All (λ r. matches u r s ≡ true → escaped_length r ≤ escaped_length t) l
      → All (λ r. IsWord u before r s → escaped_length r ≤ escaped_length t) l
  none_longer before s t [] h = tt
  none_longer before s t (r ∷ l) h =
      (λ w. h.0 (word_matches u before r s w), none_longer before s t l h.1)

  module _ (terms : List Text) (replacement : Text → Text) where
    -- What the pattern finds at a place.
    abbrev found_at : Option ℕ → Text → Option Text
    found_at before s = if is_word_before u before then none else match_at u (build_pattern terms) s

    found_at_fails :
        (before : Option ℕ) (s : Text)
        → found_at before s ≡ none
        → All (λ t. ¬ IsWord u before t s) terms
    found_at_fails before s = elim (Bool-cases (is_word_before u before)) [
      | inl e ↦ λ h. never_fits before s terms (inside u before e)
      | inr e ↦ rw e (λ h. none_fits before s terms (
          All-build_pattern_inv (λ t. matches u t s ≡ false) terms
            (match_at_fails u (build_pattern terms) s h)))
    ]

    found_at-takes :
        (before : Option ℕ) (s t : Text)
        → found_at before s ≡ some t
        → OutsideWord u before × (match_at u (build_pattern terms) s ≡ some t)
    found_at-takes before s t = elim (Bool-cases (is_word_before u before)) [
      | inl e ↦ rw e (λ h. absurd (ground (arith, h)))
      | inr e ↦ rw e (λ h. (outside u before e, h))
    ]

    replaced_here :
        (before : Option ℕ) (s t out : Text)
        → found_at before s ≡ some t
        → Scanned u terms replacement (advance u before (length t) s) (drop (length t) s) out
        → Scanned u terms replacement before s (replacement (take_like u t s) ++ out)
    replaced_here before s t out h further =
        let (free, taken) = found_at-takes before s t h in
        let (stands, longest) =
          match_at-IsLongest_of u s (build_pattern terms) t (build_pattern-IsDescending terms)
            taken in
        let (same, ends) = covers u t s stands in
        replaced t (take_like u t s) (drop (length t) s) (sym (take_like-append-drop u t s))
          (sym (contains-build_pattern terms t)
            ∙ match_at-contains u (build_pattern terms) s t taken)
          free same ends
          (none_longer before s t terms (
            All-build_pattern_inv (λ r. matches u r s ≡ true → escaped_length r ≤ escaped_length t)
              terms longest))
          (subst (λ b. Scanned u terms replacement b (drop (length t) s) out)
            (sym (last_or-take_like u t s before)) further)

    nothing_at_end :
        All IsFilled terms
        → (before : Option ℕ) → substitute u (build_pattern terms) replacement before zero [] ≡ []
    unfolding substitute
    nothing_at_end filled before =
        rw (match_at_end u (build_pattern terms) (build_pattern-IsFilled terms filled))
          (if-either (λ x. x ≡ []) (is_word_before u before) refl refl)

    filled_at : (l : List Text) → All IsFilled l → contains l [] ≡ false
    unfolding contains text_eq
    filled_at [] h = refl
    filled_at ([] ∷ l) h = absurd h.0
    filled_at ((c ∷ t) ∷ l) h = filled_at l h.1

    scan_from :
        All IsFilled terms
        → (before : Option ℕ) (skip : ℕ) (s : Text)
        → Scanned u terms replacement
            (advance u before skip s)
            (drop skip s)
            (substitute u (build_pattern terms) replacement before skip s)
    unfolding substitute advance
    scan_from filled before (suc skip) [] = ended
    scan_from filled before (suc skip) (c ∷ s) = scan_from filled (some c) skip s
    scan_from filled before zero [] =
        subst (Scanned u terms replacement before []) (sym (nothing_at_end filled before)) ended
    scan_from filled before zero (c ∷ s) = elim (Option-cases (found_at before (c ∷ s))) [
      | inl e ↦
          rw (e, substitute)
            (copied (found_at_fails before (c ∷ s) e) (scan_from filled (some c) zero s))
      | inr ([], e) ↦
          let known =
            sym (contains-build_pattern terms [])
            ∙ match_at-contains u (build_pattern terms) (c ∷ s) []
                (found_at-takes before (c ∷ s) [] e).1 in
          absurd (ground (arith, known, filled_at terms filled))
      | inr (t ∷ ts, e) ↦
          rw (e, substitute)
            (replaced_here before (c ∷ s) (t ∷ ts) _ e (scan_from filled (some c) (length ts) s))
    ]

    -- With terms that are not empty, the substitution of their pattern is a scan of the text from left to
    -- right: at each place it copies a character when none of the terms is a whole word there, in any case of
    -- its letters and with no character of a word in front or behind, and otherwise replaces a longest of
    -- the terms that are (lengths as `re.escape` spells them) and goes on behind it.
    pub substitute-IsScanned :
        All IsFilled terms
        → (text : Text)
        → Scanned u terms replacement none text
            (substitute u (build_pattern terms) replacement none 0 text)
    unfolding advance
    substitute-IsScanned filled text = scan_from filled none zero text
