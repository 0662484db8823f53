-- ===== src/Text.antt =====
-- Python's `str` as a list of code points. What the Unicode tables say is a parameter.
use Prim.Native.Char.{code}
use Prim.Native.String.{String}
use agent_voca.Prelude.{
  leb, ◌-◌, ℕ, ◌+◌, ◌≡◌, refl, Bool, true, false, ◌&&◌, ◌||◌, List, [], ◌∷◌, ◌++◌, arith, ◌==◌,
  if◌then◌else◌,
}

abbrev pub Text : Type 0
Text = List ℕ

-- The character tables of Python: `str.isspace`, `\w`, `str.lower`, the title case of a first
-- letter, and the comparison of `re.IGNORECASE`.
pub record Unicode : Type 0 where
  pub is_space : ℕ → Bool
  pub is_word : ℕ → Bool
  pub lower_char : ℕ → Text
  pub title_char : ℕ → Text
  pub same_letter : ℕ → ℕ → Bool

unfoldable pub text_eq : Text → Text → Bool
text_eq [] [] = true
text_eq [] (_ ∷ _) = false
text_eq (_ ∷ _) [] = false
text_eq (a ∷ s) (b ∷ t) = a == b && text_eq s t

pub text_eq_refl : (s : Text) → text_eq s s ≡ true
unfolding text_eq
text_eq_refl [] = refl
text_eq_refl (a ∷ s) = ground (arith, text_eq_refl s)

pub text_eq_sound : (s t : Text) → text_eq s t ≡ true → s ≡ t
unfolding text_eq
text_eq_sound [] [] h = refl
text_eq_sound [] (b ∷ t) h = ground arith
text_eq_sound (a ∷ s) [] h = ground arith
text_eq_sound (a ∷ s) (b ∷ t) h = ground (arith, text_eq_sound s t)

-- `not s` of a string
abbrev pub is_empty : Text → Bool
is_empty [] = true
is_empty (_ ∷ _) = false

-- `t in xs` of a list of strings
unfoldable pub contains : List Text → Text → Bool
contains [] t = false
contains (s ∷ xs) t = text_eq s t || contains xs t

module _ (u : Unicode) where
  unfoldable pub lstrip : Text → Text
  lstrip [] = []
  lstrip (c ∷ s) = if u.is_space c then lstrip s else c ∷ s

  -- Drops the spaces at the end.
  unfoldable pub rstrip : Text → Text
  rstrip [] = []
  rstrip (c ∷ s) = elim (rstrip s) [
    | [] ↦ (if u.is_space c then [] else c ∷ [])
    | d ∷ r ↦ c ∷ d ∷ r
  ]

  unfoldable pub strip : Text → Text
  unfolding lstrip rstrip
  strip s = rstrip (lstrip s)

  unfoldable pub lower : Text → Text
  lower [] = []
  lower (c ∷ s) = u.lower_char c ++ lower s

  unfoldable pub capitalize : Text → Text
  unfolding lower
  capitalize [] = []
  capitalize (c ∷ s) = u.title_char c ++ lower s

-- ASCII letters, for examples.
ascii_lower_char : ℕ → Text
ascii_lower_char c = (if leb b'A' c && leb c b'Z' then c + 32 else c) ∷ []

ascii_title_char : ℕ → Text
ascii_title_char c = (if leb b'a' c && leb c b'z' then c - 32 else c) ∷ []

ascii_is_word : ℕ → Bool
ascii_is_word c =
    (leb b'a' c && leb c b'z')
    || (leb b'A' c && leb c b'Z')
    || (leb b'0' c && leb c b'9')
    || c == b'_'

unfoldable pub ascii : Unicode
unfolding ascii_lower_char ascii_title_char ascii_is_word text_eq
ascii = record {
  is_space = λ c. c == 32 || (leb 9 c && leb c 13);
  is_word = ascii_is_word;
  lower_char = ascii_lower_char;
  title_char = ascii_title_char;
  same_letter = λ a b. text_eq (ascii_lower_char a) (ascii_lower_char b);
}

-- The code points of a literal, for examples.
abbrev pub codes : String → Text
codes String.[] = []
codes (String.◌∷◌ c s) = code c ∷ codes s
