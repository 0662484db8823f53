-- ===== src/Vocab/Adaptive.antt =====
-- vocab/adaptive.py: `AdaptiveStore`. The file of learned terms is handed over as its lines, and a
-- save returns the lines that it writes.
pub mod Promotion
use agent_voca.Prelude.{
  ℕ, ◌+◌, Bool, true, false, not, ◌&&◌, ◌||◌, List, [], ◌∷◌, ◌++◌, Option, none, some, map, leb,
  if◌then◌else◌,
}
use agent_voca.Text.{Text, Unicode, text_eq, is_empty, strip, lower}
use agent_voca.Vocab.Dictionary.{split_arrow, is_comment, arrow}

-- (wrong.lower(), right) -> count
abbrev pub Counts : Type 0
Counts = List (Text × Text × ℕ)

pub record Store : Type 0 where
  pub promote_threshold : ℕ
  pub corrections : Counts
  pub learned_terms : List Text
  pub learned_mappings : List (Text × Text)
  pub saved : Option (List Text)

-- `self._corrections.get(key, 0)`
unfoldable pub count : Counts → Text → Text → ℕ
count [] w r = 0
count ((w', r', n) ∷ l) w r = if text_eq w' w && text_eq r' r then n else count l w r

-- `self._corrections[key] = n`
unfoldable pub set_count : Counts → Text → Text → ℕ → Counts
set_count [] w r n = (w, r, n) ∷ []
set_count ((w', r', m) ∷ l) w r n =
    if text_eq w' w && text_eq r' r then (w', r', n) ∷ l else (w', r', m) ∷ set_count l w r n

-- A line of the file for a mapping: `f"{w} -> {r}"`.
unfoldable pub mapping_line : Text × Text → Text
mapping_line (w, r) = w ++ (arrow ++ r)

-- `_save_learned_vocab`
unfoldable pub save_lines : Store → List Text
unfolding mapping_line
save_lines s = s.learned_terms ++ map mapping_line s.learned_mappings

module _ (u : Unicode) where
  -- `_load_learned_vocab`: the terms and the mappings of the file's lines.
  unfoldable pub load_lines : List Text → List Text × List (Text × Text)
  load_lines [] = ([], [])
  load_lines (line ∷ lines) =
      let stripped = strip u line in
      let (terms, mappings) = load_lines lines in
      if is_empty stripped || is_comment stripped
      then (terms, mappings)
      else elim (split_arrow stripped) [
        | some (wrong, right) ↦ (terms, (strip u wrong, strip u right) ∷ mappings)
        | none ↦ (stripped ∷ terms, mappings)
      ]

  unfoldable pub init : Option (List Text) → ℕ → Store
  init file threshold =
      let loaded : List Text × List (Text × Text) = elim file [
        | none ↦ ([], [])
        | some lines ↦ load_lines lines
      ] in
      record {
        promote_threshold = threshold;
        corrections = [];
        learned_terms = loaded.0;
        learned_mappings = loaded.1;
        saved = none;
      }

  -- `any(w.lower() == wrong.lower() and r == right for w, r in learned_mappings)`
  unfoldable pub is_learned : List (Text × Text) → Text → Text → Bool
  is_learned [] wrong right = false
  is_learned ((w, r) ∷ l) wrong right =
      (text_eq (lower u w) (lower u wrong) && text_eq r right) || is_learned l wrong right

  -- The promotion at the end of `record_correction`.
  promote : Store → Text → Text → Store
  promote s wrong right =
      let s' = record s { learned_mappings = s.learned_mappings ++ (wrong, right) ∷ [] } in
      record s' { saved = some (save_lines s') }

  -- The part of `record_correction` behind its guards.
  unfoldable pub count_correction : Store → Text → Text → Store × Bool
  unfolding promote
  count_correction s wrong right =
      let n = count s.corrections (lower u wrong) right + 1 in
      let s' = record s { corrections = set_count s.corrections (lower u wrong) right n } in
      if leb s.promote_threshold n then (promote s' wrong right, true) else (s', false)

  unfoldable pub record_correction : Store → Text → Text → Store × Bool
  unfolding count_correction
  record_correction s wrong right =
      let w = strip u wrong in
      let r = strip u right in
      if is_empty wrong || is_empty right
      then (s, false)
      else if text_eq (lower u w) (lower u r)
      then (s, false)
      else if is_learned s.learned_mappings w r
      then (s, false)
      else count_correction s w r
