-- ===== src/Vocab/Match.antt =====
-- The whole-word patterns of vocab/dictionary.py and vocab/snippets.py: `_build_pattern` and the
-- substitution `pattern.sub(replacement, text)` over it. The pattern is kept as the list of its
-- literal alternatives, in the order in which the regular expression tries them.
pub mod Laws
pub mod Literal
pub mod Word
pub mod Scan
use agent_voca.Prelude.{
  ℕ, zero, suc, ◌+◌, ◌≡◌, refl, Bool, true, false, not, ◌&&◌, ◌||◌, List, [], ◌∷◌, ◌++◌, Option,
  none, some, arith, ltb, leb, ◌==◌, if◌then◌else◌, length, is_some, Bool-cases, inl, inr,
  Option-cases, ap,
}
use agent_voca.Text.{Text, Unicode}

-- The characters before which `re.escape` writes a backslash.
is_escaped : ℕ → Bool
is_escaped c =
    (leb 9 c && leb c 13)
    || c == 32
    || c == 35
    || c == 36
    || c == 38
    || (leb 40 c && leb c 43)
    || c == 45
    || c == 46
    || c == 63
    || (leb 91 c && leb c 94)
    || (leb 123 c && leb c 126)

-- `len(re.escape(term))`
unfoldable pub escaped_length : Text → ℕ
unfolding is_escaped
escaped_length [] = 0
escaped_length (c ∷ s) = (if is_escaped c then 2 else 1) + escaped_length s

-- `escaped.sort(key=len, reverse=True)`: stable, the longest first.
unfoldable pub insert_longest : Text → List Text → List Text
insert_longest t [] = t ∷ []
insert_longest t (s ∷ l) =
    if leb (escaped_length s) (escaped_length t) then t ∷ s ∷ l else s ∷ insert_longest t l

unfoldable pub build_pattern : List Text → List Text
unfolding insert_longest
build_pattern [] = []
build_pattern (t ∷ l) = insert_longest t (build_pattern l)

module _ (u : Unicode) where
  -- The rest of the text behind a literal, compared as under `re.IGNORECASE`.
  unfoldable pub strip_literal : Text → Text → Option Text
  strip_literal [] s = some s
  strip_literal (t ∷ ts) [] = none
  strip_literal (t ∷ ts) (c ∷ s) = if u.same_letter t c then strip_literal ts s else none

  -- `(?!\w)`
  unfoldable pub word_ends : Text → Bool
  word_ends [] = true
  word_ends (c ∷ s) = not (u.is_word c)

  abbrev pub ends_word : Option Text → Bool
  ends_word none = false
  ends_word (some rest) = word_ends rest

  -- The first alternative that matches at the head of the text.
  unfoldable pub match_at : List Text → Text → Option Text
  match_at [] s = none
  match_at (t ∷ ts) s = if ends_word (strip_literal t s) then some t else match_at ts s

  -- `matched = match.group(1)`: as many characters of the text as the term has.
  unfoldable pub take_like : Text → Text → Text
  take_like [] s = []
  take_like (_ ∷ ts) [] = []
  take_like (_ ∷ ts) (c ∷ s) = c ∷ take_like ts s

  abbrev pub is_word_before : Option ℕ → Bool
  is_word_before none = false
  is_word_before (some c) = u.is_word c

  -- `pattern.sub(replacement, text)`. `before` is the character in front, and `skip` the number of
  -- characters that the last match still covers.
  unfoldable pub substitute : List Text → (Text → Text) → Option ℕ → ℕ → Text → Text
  substitute pattern replacement before (suc skip) [] = []
  substitute pattern replacement before (suc skip) (c ∷ s) =
      substitute pattern replacement (some c) skip s
  substitute pattern replacement before zero [] =
      if is_word_before before
      then []
      else elim (match_at pattern []) [ none ↦ [] | some t ↦ replacement [] ]
  substitute pattern replacement before zero (c ∷ s) =
      let here : Option Text = if is_word_before before then none else match_at pattern (c ∷ s) in
      elim here [
        | none ↦ c ∷ substitute pattern replacement (some c) zero s
        | some [] ↦ replacement [] ++ (c ∷ substitute pattern replacement (some c) zero s)
        | some (t ∷ ts) ↦
            replacement (take_like (t ∷ ts) (c ∷ s))
            ++ substitute pattern replacement (some c) (length ts) s
      ]
