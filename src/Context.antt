-- ===== src/Context.antt =====
-- context/profiles.py and observer/privacy.py: what the foreground application decides, the style of the
-- cleanup and the exclusion from the recording. `fnmatch` is an argument, from a pattern and a name.
pub mod Valid
use agent_voca.Prelude.{
  Bool, true, false, ◌&&◌, ◌||◌, not, Option, none, some, List, [], ◌∷◌, ◌++◌, if◌then◌else◌,
}
use agent_voca.Text.{Text, Unicode, codes, text_eq, contains, is_empty, strip, lower}
use agent_voca.Vocab.Dictionary.{Mapping}

-- `_VALID_STYLES`
abbrev pub valid_styles : List Text
valid_styles =
    codes "raw"
    ∷ codes "light"
    ∷ codes "standard"
    ∷ codes "technical"
    ∷ codes "professional"
    ∷ codes "custom"
    ∷ []

-- The fields of `ProfileResolver`.
pub record ProfileResolver : Type 0 where
  pub fallback : Option Text
  pub patterns : List (Text × Text)

-- One turn of the loop of `__init__`; the keys of a dictionary are distinct.
unfoldable pub add_profile : Text → Text → ProfileResolver → ProfileResolver
unfolding text_eq contains
add_profile pattern style r =
    if text_eq pattern (codes "*")
    then record r { fallback = some style }
    else if contains valid_styles style
    then record r { patterns = r.patterns ++ (pattern, style) ∷ [] }
    else r

unfoldable pub add_profiles : Mapping → ProfileResolver → ProfileResolver
unfolding add_profile
add_profiles [] r = r
add_profiles ((pattern, style) ∷ l) r = add_profiles l (add_profile pattern style r)

-- `ProfileResolver(profiles)`
abbrev pub init : Mapping → ProfileResolver
init profiles = add_profiles profiles (record { fallback = none; patterns = [] })

-- The style of the first pattern that passes a test.
unfoldable pub first_style : (Text → Bool) → List (Text × Text) → Option Text
first_style test [] = none
first_style test ((pattern, style) ∷ l) =
    let rest = first_style test l in if test pattern then some style else rest

abbrev pub or_else : Option Text → Option Text → Option Text
or_else none b = b
or_else (some a) b = some a

-- `resolve`: the name itself, then the globs in their order, then the fallback.
unfoldable pub resolve : (Text → Text → Bool) → Option Text → ProfileResolver → Option Text
unfolding first_style text_eq
resolve fnmatch none r = r.fallback
resolve fnmatch (some app_name) r =
    if is_empty app_name
    then r.fallback
    else or_else (first_style (λ p. text_eq p app_name) r.patterns)
        (or_else (first_style (λ p. fnmatch p app_name) r.patterns) r.fallback)

-- The pattern lists of `ExclusionMatcher`.
pub record ExclusionMatcher : Type 0 where
  pub app_patterns : List Text
  pub title_patterns : List Text

module _ (u : Unicode) where
  -- `_precompile`: blank patterns are left out.
  unfoldable pub precompile : List Text → List Text
  unfolding strip
  precompile [] = []
  precompile (raw ∷ l) =
      let rest = precompile l in if is_empty (strip u raw) then rest else raw ∷ rest

  abbrev pub init_matcher : List Text → List Text → ExclusionMatcher
  init_matcher exclude_apps exclude_title_patterns = record {
    app_patterns = precompile exclude_apps;
    title_patterns = precompile exclude_title_patterns;
  }

  -- The first pattern that matches the name, both lower-cased.
  unfoldable pub first_pattern : (Text → Text → Bool) → List Text → Text → Option Text
  unfolding lower
  first_pattern fnmatch [] name = none
  first_pattern fnmatch (pattern ∷ l) name =
      let rest = first_pattern fnmatch l name in
      if fnmatch (lower u pattern) (lower u name) then some pattern else rest

  abbrev pub pattern_of : (Text → Text → Bool) → List Text → Option Text → Option Text
  pattern_of fnmatch patterns none = none
  pattern_of fnmatch patterns (some []) = none
  pattern_of fnmatch patterns (some (c ∷ s)) = first_pattern fnmatch patterns (c ∷ s)

  -- `is_excluded`, with the pattern that fired
  unfoldable pub is_excluded :
      (Text → Text → Bool) → Option Text → Option Text → ExclusionMatcher → Bool × Option Text
  unfolding first_pattern
  is_excluded fnmatch app_name window_title m = elim (pattern_of fnmatch m.app_patterns app_name) [
    | some pattern ↦ (true, some pattern)
    | none ↦ elim (pattern_of fnmatch m.title_patterns window_title) [
      | some pattern ↦ (true, some pattern)
      | none ↦ (false, none)
    ]
  ]
