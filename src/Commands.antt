-- ===== src/Commands.antt =====
-- commands/processor.py: spoken editing commands at the start of a transcript.
pub mod Laws
use Prim.Native.Nat.{ℕ}
use agent_voca.Prelude.{
  ◌≡◌, refl, Bool, true, false, List, [], ◌∷◌, Option, none, some, if◌then◌else◌, arith,
  Option-cases, inl, inr,
}
use agent_voca.Text.{Text, Unicode, text_eq, strip, codes}
use agent_voca.Vocab.Match.{strip_literal}

-- The actions of `CommandResult`; an override may name any other.
pub data CommandAction : Type 0 where
  newline paragraph delete_last undo capitalize other_action : CommandAction

pub record CommandResult : Type 0 where
  pub matched : Bool
  pub action : Option CommandAction
  pub remaining_text : Text

abbrev pub Phrases : Type 0
Phrases = List (Text × CommandAction)

abbrev pub default_phrases : Phrases
default_phrases =
    (codes "new line", newline)
    ∷ (codes "new paragraph", paragraph)
    ∷ (codes "scratch that", delete_last)
    ∷ (codes "undo that", undo)
    ∷ (codes "capitalize that", capitalize)
    ∷ []

-- `self.phrases.update(phrase_overrides)`
set_phrase : Phrases → Text → CommandAction → Phrases
set_phrase [] k a = (k, a) ∷ []
set_phrase ((j, b) ∷ l) k a = if text_eq j k then (j, a) ∷ l else (j, b) ∷ set_phrase l k a

merge_phrases : Phrases → Phrases → Phrases
merge_phrases l [] = l
merge_phrases l ((k, a) ∷ m) = merge_phrases (set_phrase l k a) m

-- `__init__`
unfoldable pub phrases : Option Phrases → Phrases
unfolding set_phrase merge_phrases
phrases none = default_phrases
phrases (some overrides) = merge_phrases default_phrases overrides

abbrev pub no_command : CommandResult
no_command = record { matched = false; action = none; remaining_text = [] }

module _ (u : Unicode) where
  -- `^phrase(?:\s+|$)`: the text behind the phrase, if it ends there or a space follows.
  unfoldable pub match_phrase : Text → Text → Option Text
  match_phrase phrase text = elim (strip_literal u phrase text) [
    | none ↦ none
    | some [] ↦ some []
    | some (c ∷ s) ↦ if u.is_space c then some (strip u (c ∷ s)) else none
  ]

  unfoldable pub first_phrase : Phrases → Text → CommandResult
  unfolding match_phrase
  first_phrase [] text = no_command
  first_phrase ((phrase, action) ∷ l) text = elim (match_phrase phrase text) [
    | some remaining ↦ record { matched = true; action = some action; remaining_text = remaining }
    | none ↦ first_phrase l text
  ]

  unfoldable pub process : Phrases → Text → CommandResult
  unfolding first_phrase
  process l [] = no_command
  process l (c ∷ s) = first_phrase l (strip u (c ∷ s))
