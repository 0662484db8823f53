-- ===== src/Vocab/Dictionary.antt =====
-- vocab/dictionary.py: `VocabularyDictionary`. Reading the file is left to the caller, which hands
-- over its lines.
pub mod Laws
pub mod Terms
use agent_voca.Prelude.{
  ℕ, Bool, true, false, not, ◌&&◌, ◌||◌, List, [], ◌∷◌, ◌++◌, Option, none, some, ◌==◌,
  if◌then◌else◌,
}
use agent_voca.Text.{Text, Unicode, text_eq, is_empty, contains, strip, lower}
use agent_voca.Vocab.Match.{build_pattern, substitute}

-- A `dict` from strings to strings, of which the program uses `get`, `setdefault` and assignment.
abbrev pub Mapping : Type 0
Mapping = List (Text × Text)

unfoldable pub get : Mapping → Text → Option Text
get [] k = none
get ((j, v) ∷ m) k = if text_eq j k then some v else get m k

unfoldable pub put : Mapping → Text → Text → Mapping
put [] k v = (k, v) ∷ []
put ((j, w) ∷ m) k v = if text_eq j k then (j, v) ∷ m else (j, w) ∷ put m k v

unfoldable pub set_default : Mapping → Text → Text → Mapping
unfolding get put
set_default m k v = elim (get m k) [ none ↦ put m k v | some _ ↦ m ]

pub record Dictionary : Type 0 where
  pub terms : List Text
  pub mappings : Mapping
  pub casing : Mapping
  pub pattern : List Text

unfoldable pub starts_with : Text → Text → Option Text
starts_with [] s = some s
starts_with (p ∷ ps) [] = none
starts_with (p ∷ ps) (c ∷ s) = if p == c then starts_with ps s else none

abbrev pub arrow : Text
arrow = 32 ∷ 45 ∷ 62 ∷ 32 ∷ []

-- `line.split(" -> ", 1)` at the first arrow; `none` where the line has none.
unfoldable pub split_arrow : Text → Option (Text × Text)
unfolding starts_with
split_arrow [] = none
split_arrow (c ∷ s) = elim (starts_with arrow (c ∷ s)) [
  | some right ↦ some ([], right)
  | none ↦ elim (split_arrow s) [ none ↦ none | some (left, right) ↦ some (c ∷ left, right) ]
]

-- `stripped.startswith("#")`
abbrev pub is_comment : Text → Bool
is_comment [] = false
is_comment (c ∷ s) = c == b'#'

module _ (u : Unicode) where
  -- The lines that `_read_vocab_file` keeps.
  unfoldable pub read_vocab_lines : List Text → List Text
  read_vocab_lines [] = []
  read_vocab_lines (line ∷ lines) =
      let stripped = strip u line in
      let rest = read_vocab_lines lines in
      if not (is_empty stripped) && not (is_comment stripped) then stripped ∷ rest else rest

  casing_of : Mapping → List Text → Mapping
  casing_of m [] = m
  casing_of m (term ∷ terms) = casing_of (set_default m (lower u term) term) terms

  -- `_rebuild`
  unfoldable pub rebuild : Dictionary → Dictionary
  unfolding casing_of
  rebuild d = record d { casing = casing_of [] d.terms; pattern = build_pattern d.terms }

  -- The loop of `add_terms`: the terms, and `changed`.
  unfoldable pub merge_terms : List Text → List Text → List Text × Bool
  merge_terms known [] = (known, false)
  merge_terms known (term ∷ terms) =
      let old = merge_terms known terms in
      let new = merge_terms (known ++ term ∷ []) terms in
      if contains known term then old else (new.0, true)

  unfoldable pub add_terms : Dictionary → List Text → Dictionary
  unfolding rebuild merge_terms
  add_terms d [] = d
  add_terms d (term ∷ terms) =
      let (merged, changed) = merge_terms d.terms (term ∷ terms) in
      let d' = record d { terms = merged } in if changed then rebuild d' else d'

  -- The loop of `add_mappings`.
  unfoldable pub merge_mappings :
      List Text → Mapping → List (Text × Text) → List Text × Mapping × Bool
  merge_mappings known m [] = (known, m, false)
  merge_mappings known m ((wrong, right) ∷ rest) =
      let m' = put m (lower u wrong) right in
      let old = merge_mappings known m' rest in
      let new = merge_mappings (known ++ wrong ∷ []) m' rest in
      if contains known wrong then old else (new.0, new.1, true)

  unfoldable pub add_mappings : Dictionary → List (Text × Text) → Dictionary
  unfolding rebuild merge_mappings
  add_mappings d [] = d
  add_mappings d (p ∷ ps) =
      let (merged, m, changed) = merge_mappings d.terms d.mappings (p ∷ ps) in
      let d' = record d { terms = merged; mappings = m } in if changed then rebuild d' else d'

  abbrev pub add_mapping : Dictionary → Text → Text → Dictionary
  add_mapping d wrong right = add_mappings d ((wrong, right) ∷ [])

  -- The body of the loop of `_load_from_file`.
  unfoldable pub load_line : Dictionary → Text → Dictionary
  load_line d line = elim (split_arrow line) [
    | some (wrong, right) ↦ add_mapping d (strip u wrong) (strip u right)
    | none ↦ add_terms d (line ∷ [])
  ]

  -- `_load_from_file`, over the lines that `read_vocab_lines` keeps.
  unfoldable pub load_lines : Dictionary → List Text → Dictionary
  unfolding load_line
  load_lines d [] = d
  load_lines d (line ∷ lines) = load_lines (load_line d line) lines

  abbrev pub empty : Dictionary
  empty = record { terms = []; mappings = []; casing = []; pattern = [] }

  -- `__init__`: the lines of the file, if a path is given, and the inline terms.
  unfoldable pub init : Option (List Text) → Option (List Text) → Dictionary
  unfolding load_lines add_terms rebuild
  init file terms =
      let d : Dictionary = elim file [
        | none ↦ empty
        | some lines ↦ load_lines empty (read_vocab_lines lines)
      ] in
      let d' : Dictionary = elim terms [ none ↦ d | some ts ↦ add_terms d ts ] in rebuild d'

  -- `_replacement`
  unfoldable pub replacement : Dictionary → Text → Text
  replacement d matched =
      let l = lower u matched in
      elim (get d.mappings l) [
        | some mapped ↦ mapped
        | none ↦ elim (get d.casing l) [ some term ↦ term | none ↦ matched ]
      ]

  unfoldable pub apply : Dictionary → Text → Text
  unfolding replacement
  apply d [] = []
  apply d (c ∷ s) = elim d.terms [
    | [] ↦ c ∷ s
    | _ ∷ _ ↦ substitute u d.pattern (replacement d) none 0 (c ∷ s)
  ]
