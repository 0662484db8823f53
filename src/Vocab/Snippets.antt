-- ===== src/Vocab/Snippets.antt =====
-- vocab/snippets.py: `SnippetExpander`. Parsing the YAML file is left to the caller, which hands
-- over the mapping that it holds.
pub mod Case
use agent_voca.Prelude.{
  ◌≡◌, Bool, true, false, List, [], ◌∷◌, Option, none, some, map, if◌then◌else◌, ap, refl,
}
use agent_voca.Text.{Text, Unicode, lower}
use agent_voca.Vocab.Match.{build_pattern, substitute}
use agent_voca.Vocab.Dictionary.{Mapping, get, put}

pub record Expander : Type 0 where
  pub snippets : Mapping
  pub pattern : List Text

-- `dict.update`
unfoldable pub update : Mapping → Mapping → Mapping
update m [] = m
update m ((k, v) ∷ l) = update (put m k v) l

abbrev pub keys : Mapping → List Text
keys = map (λ e. e.0)

unfoldable pub init : Option Mapping → Option Mapping → Expander
unfolding update
init file inline =
    let m : Mapping = elim file [ none ↦ [] | some l ↦ update [] l ] in
    let m' : Mapping = elim inline [ none ↦ m | some l ↦ update m l ] in
    record { snippets = m'; pattern = build_pattern (keys m') }

module _ (u : Unicode) where
  -- The `_replace` of `expand`.
  unfoldable pub expansion : Expander → Text → Text
  expansion e matched = elim (get e.snippets (lower u matched)) [ some x ↦ x | none ↦ matched ]

  unfoldable pub expand : Expander → Text → Text
  unfolding expansion
  expand e [] = []
  expand e (c ∷ s) = elim e.snippets [
    | [] ↦ c ∷ s
    | _ ∷ _ ↦ substitute u e.pattern (expansion e) none 0 (c ∷ s)
  ]
