-- ===== src/Observer/Compile/Escape.antt =====
-- What a reader of markdown sees of a text that observer/compile/rules.py has escaped.
use agent_voca.Prelude.{
  ℕ, ◌≡◌, refl, ap, ◌||◌, Bool, true, false, Bool-cases, inl, inr, Option, none, some, [], ◌∷◌,
  ◌==◌, if◌then◌else◌, arith,
}
use agent_voca.Text.{Text}
use agent_voca.Observer.Compile.{escape_md, is_special, is_special_in, special_chars}

abbrev put_char : ℕ → Option Text → Option Text
put_char c none = none
put_char c (some t) = some (c ∷ t)

-- A text without markup, as markdown reads it: behind a backslash a character stands for itself, and a
-- special character that has none is markup, which gives `none`. The Boolean says that a backslash
-- stands in front.
unfoldable pub read_plain : Bool → Text → Option Text
read_plain escaped [] = if escaped then none else some []
read_plain true (c ∷ t) = put_char c (read_plain false t)
read_plain false (c ∷ t) =
    let behind = read_plain true t in
    let further = read_plain false t in
    if c == b'\\' then behind else if is_special c then none else put_char c further

first_differs : (s c : ℕ) (b : Bool) → (s == c || b) ≡ false → c == s ≡ false
first_differs s c b h = ground (arith, h)

special-backslash : (c : ℕ) → is_special c ≡ false → c == b'\\' ≡ false
unfolding is_special is_special_in special_chars
special-backslash c h = first_differs b'\\' c _ h

-- Every text that is escaped is read back as itself: no character of it is taken for markup (by
-- the source's own list of special characters), and nothing is added or lost.
pub read_plain-escape_md : (t : Text) → read_plain false (escape_md t) ≡ some t
unfolding read_plain escape_md
read_plain-escape_md [] = refl
read_plain-escape_md (c ∷ t) = elim (Bool-cases (is_special c)) [
  | inl e ↦ rw e (ap (put_char c) (read_plain-escape_md t))
  | inr e ↦ rw e (rw (special-backslash c e) (rw e (ap (put_char c) (read_plain-escape_md t))))
]
