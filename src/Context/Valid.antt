-- ===== src/Context/Valid.antt =====
-- Which styles a resolver gives.
use agent_voca.Prelude.{
  Bool, true, Option, none, some, List, [], ◌∷◌, ◌≡◌, refl, arith, All, All-snoc, ◌⊎◌, inl, inr,
  Bool-cases, if-either,
}
use agent_voca.Text.{Text, codes, text_eq, contains, is_empty}
use agent_voca.Vocab.Dictionary.{Mapping}
use agent_voca.Context.{
  valid_styles, ProfileResolver, add_profile, add_profiles, init, first_style, or_else, resolve,
}

abbrev IsStyle : Text → Type 0
IsStyle style = contains valid_styles style ≡ true

abbrev AreStyles : List (Text × Text) → Type 0
AreStyles l = All (λ (p : Text × Text). IsStyle p.1) l

-- The fallback, or one of the styles; the fallback is not tested.
abbrev pub IsResolved : ProfileResolver → Option Text → Type 0
IsResolved r o =
    (o ≡ r.fallback) ⊎ ((style : Text) × (o ≡ some style) × (contains valid_styles style ≡ true))

add_profile-AreStyles :
    (pattern style : Text) (r : ProfileResolver)
    → AreStyles r.patterns
    → AreStyles (add_profile pattern style r).patterns
unfolding add_profile
add_profile-AreStyles pattern style r h = elim (Bool-cases (contains valid_styles style)) [
  | inl e ↦
      if-either (λ (x : ProfileResolver). AreStyles x.patterns) (text_eq pattern (codes "*")) h
        (rw e (All-snoc (λ (p : Text × Text). IsStyle p.1) r.patterns (pattern, style) h e))
  | inr e ↦
      if-either (λ (x : ProfileResolver). AreStyles x.patterns) (text_eq pattern (codes "*")) h
        (rw e h)
]

add_profiles-AreStyles :
    (l : Mapping) (r : ProfileResolver)
    → AreStyles r.patterns
    → AreStyles (add_profiles l r).patterns
unfolding add_profiles
add_profiles-AreStyles [] r h = h
add_profiles-AreStyles ((pattern, style) ∷ l) r h =
    add_profiles-AreStyles l (add_profile pattern style r) (add_profile-AreStyles pattern style r h)

-- Nothing, or a style of the list.
abbrev IsFound : Option Text → Type 0
IsFound o = (o ≡ none) ⊎ ((style : Text) × (o ≡ some style) × IsStyle style)

first_style-IsFound :
    (test : Text → Bool) (l : List (Text × Text)) → AreStyles l → IsFound (first_style test l)
unfolding first_style
first_style-IsFound test [] h = inl refl
first_style-IsFound test ((pattern, style) ∷ l) h =
    if-either IsFound (test pattern) (inr (style, refl, h.0)) (first_style-IsFound test l h.1)

or_else-IsResolved :
    (r : ProfileResolver) (a b : Option Text)
    → IsFound a
    → IsResolved r b
    → IsResolved r (or_else a b)
or_else-IsResolved r none b h k = k
or_else-IsResolved r (some a) b (inl e) k = absurd (ground (arith, e))
or_else-IsResolved r (some a) b (inr f) k = inr f

-- Whatever the profiles and the globs are: an application gets a style that the cleanup knows, or the
-- style of the profile "*", which is taken as it is written; nothing but that without a name.
pub resolve-IsResolved :
    (fnmatch : Text → Text → Bool) (profiles : Mapping) (app_name : Option Text)
    → IsResolved (init profiles) (resolve fnmatch app_name (init profiles))
unfolding resolve
resolve-IsResolved fnmatch profiles none = inl refl
resolve-IsResolved fnmatch profiles (some name) =
    let r = init profiles in
    let styles = add_profiles-AreStyles profiles (record { fallback = none; patterns = [] }) tt in
    if-either (IsResolved r) (is_empty name) (inl refl) (
      or_else-IsResolved r (first_style (λ p. text_eq p name) r.patterns) _
        (first_style-IsFound (λ p. text_eq p name) r.patterns styles)
        (or_else-IsResolved r (first_style (λ p. fnmatch p name) r.patterns) r.fallback
          (first_style-IsFound (λ p. fnmatch p name) r.patterns styles) (inl refl)))
