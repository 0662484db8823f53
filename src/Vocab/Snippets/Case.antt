-- ===== src/Vocab/Snippets/Case.antt =====
-- Triggers and their letter case.
use mathlib.Core.Path.{fun_ext}
use agent_voca.Prelude.{◌≡◌, refl, ap, ◌∙◌, [], ◌∷◌, none}
use agent_voca.Text.{Text, Unicode, lower}
use agent_voca.Vocab.Match.{substitute}
use agent_voca.Vocab.Match.Laws.{substitute-id}
use agent_voca.Vocab.Dictionary.{Mapping, get}
use agent_voca.Vocab.Snippets.{Expander, expansion, expand}

module _ (u : Unicode) where
  expansion-id :
      (e : Expander) → ((x : Text) → get e.snippets (lower u x) ≡ none) → expansion u e ≡ (λ x. x)
  unfolding expansion
  expansion-id e h = fun_ext (λ x. rw (h x, expansion) refl)

  expand_with :
      (e : Expander) (l : Mapping) (text : Text)
      → ((x : Text) → get e.snippets (lower u x) ≡ none)
      → (elim l [ [] ↦ text | _ ∷ _ ↦ substitute u e.pattern (expansion u e) none 0 text ]) ≡ text
  expand_with e [] text h = refl
  expand_with e (k ∷ l) text h =
      ap (λ (f : Text → Text). substitute u e.pattern f none 0 text) (expansion-id e h)
      ∙ substitute-id u e.pattern none 0 text

  -- When no trigger is in lower case, so that no lower-cased text is a key of the snippets, expanding
  -- leaves every text as it is, though the pattern matches the triggers in any case.
  pub expand-capitalized :
      (e : Expander) (text : Text)
      → ((x : Text) → get e.snippets (lower u x) ≡ none)
      → expand u e text ≡ text
  unfolding expand
  expand-capitalized e [] h = refl
  expand-capitalized e (c ∷ s) h = expand_with e e.snippets (c ∷ s) h
