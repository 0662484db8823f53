-- ===== src/Commands/Laws.antt =====
-- The phrase that a transcript's command is found by.
use mathlib.Core.Path.{subst}
use agent_voca.Prelude.{
  ℕ, sym, ◌≡◌, refl, ◌∙◌, true, [], ◌∷◌, ◌++◌, none, some, ap, All, arith, Option-cases, Bool-cases,
  inl, inr, ◌⊎◌, if◌then◌else◌,
}
use agent_voca.Text.{Text, Unicode, strip}
use agent_voca.Commands.{
  CommandAction, CommandResult, Phrases, match_phrase, first_phrase, process, no_command,
}
use agent_voca.Vocab.Match.{strip_literal}
use agent_voca.Vocab.Match.Literal.{
  IsLiteralThen, strip_literal-IsLiteralThen, strip_literal-append,
}

-- The pattern of a phrase matches: the text is the phrase, in any case of its letters, and ends there or goes
-- on with a space.
abbrev pub EndsOrSpace : Unicode → Text → Type 0
EndsOrSpace u [] = Unit
EndsOrSpace u (c ∷ s) = u.is_space c ≡ true

abbrev pub BeginsWith : Unicode → Text → Text → Text → Type 0
BeginsWith u phrase text rest = IsLiteralThen u phrase text rest × EndsOrSpace u rest

abbrev pub Begins : Unicode → Text → Text → Type 0
Begins u phrase text = (rest : Text) × BeginsWith u phrase text rest

module _ (u : Unicode) where
  -- The command is the first of the phrases that the text begins with.
  abbrev pub IsFirst : Phrases → Text → CommandResult → Type 0
  IsFirst l text r =
      (before : Phrases) × (phrase : Text) × (action : CommandAction) × (after : Phrases)
      × (rest : Text) × (l ≡ before ++ (phrase, action) ∷ after)
      × All (λ e. ¬ Begins u e.0 text) before
      × BeginsWith u phrase text rest
      × (r ≡ record { matched = true; action = some action; remaining_text = strip u rest })

  match_phrase-BeginsWith :
      (phrase text remaining : Text)
      → match_phrase u phrase text ≡ some remaining
      → (rest : Text) × BeginsWith u phrase text rest × (remaining ≡ strip u rest)
  unfolding match_phrase strip
  match_phrase-BeginsWith phrase text remaining =
      elim (Option-cases (strip_literal u phrase text)) [
        | inl e ↦ rw (e, match_phrase) (λ h. absurd (ground (arith, h)))
        | inr ([], e) ↦
            rw (e, match_phrase)
              (λ h. ([], (strip_literal-IsLiteralThen u phrase text [] e, tt), cc))
        | inr (c ∷ s, e) ↦
            rw (e, match_phrase) (go c s (strip_literal-IsLiteralThen u phrase text (c ∷ s) e))
      ]
    where
      go :
          (c : ℕ) (s : Text)
          → IsLiteralThen u phrase text (c ∷ s)
          → (if u.is_space c then some (strip u (c ∷ s)) else none) ≡ some remaining
          → (rest : Text) × BeginsWith u phrase text rest × (remaining ≡ strip u rest)
      go c s stands = elim (Bool-cases (u.is_space c)) [
        | inl k ↦ rw k (λ h. (c ∷ s, (stands, k), cc))
        | inr k ↦ rw k (λ h. absurd (ground (arith, h)))
      ]

  match_phrase_fails :
      (phrase text : Text) → match_phrase u phrase text ≡ none → ¬ Begins u phrase text
  unfolding match_phrase
  match_phrase_fails phrase text h (rest, ((front, whole, same), ends)) =
      go rest ends
        (ap (strip_literal u phrase) whole ∙ strip_literal-append u phrase front rest same)
    where
      go : (r : Text) → EndsOrSpace u r → strip_literal u phrase text ≡ some r → ⊥
      go [] k e = absurd (ground (arith, h, e))
      go (c ∷ s) k e = absurd (ground (arith, h, e, k))

  found :
      (phrase : Text) (action : CommandAction) (l : Phrases) (text remaining : Text)
      → match_phrase u phrase text ≡ some remaining
      → first_phrase u ((phrase, action) ∷ l) text
        ≡ record { matched = true; action = some action; remaining_text = remaining }
  unfolding first_phrase
  found phrase action l text remaining h = rw (h, first_phrase) refl

  skipped :
      (phrase : Text) (action : CommandAction) (l : Phrases) (text : Text)
      → match_phrase u phrase text ≡ none
      → first_phrase u ((phrase, action) ∷ l) text ≡ first_phrase u l text
  unfolding first_phrase
  skipped phrase action l text h = rw (h, first_phrase) refl

  -- The outcome of the loop over the phrases.
  abbrev pub IsDecided : Phrases → Text → CommandResult → Type 0
  IsDecided l text r = IsFirst l text r ⊎ ((r ≡ no_command) × All (λ e. ¬ Begins u e.0 text) l)

  IsDecided-skip :
      (phrase : Text) (action : CommandAction) (l : Phrases) (text : Text) (r : CommandResult)
      → ¬ Begins u phrase text
      → IsDecided l text r
      → IsDecided ((phrase, action) ∷ l) text r
  IsDecided-skip phrase action l text r n (inl (before, p, a, after, rest, s, k, b, e)) =
      inl ((phrase, action) ∷ before, p, a, after, rest, ap (◌∷◌ (phrase, action)) s, (n, k), b, e)
  IsDecided-skip phrase action l text r n (inr (e, k)) = inr (e, (n, k))

  first_phrase-IsDecided : (l : Phrases) (text : Text) → IsDecided l text (first_phrase u l text)
  unfolding first_phrase
  first_phrase-IsDecided [] text = inr (refl, tt)
  first_phrase-IsDecided ((phrase, action) ∷ l) text =
      elim (Option-cases (match_phrase u phrase text)) [
        | inl h ↦
            subst (IsDecided ((phrase, action) ∷ l) text) (sym (skipped phrase action l text h)) (
              IsDecided-skip phrase action l text (first_phrase u l text)
                (match_phrase_fails phrase text h) (first_phrase-IsDecided l text))
        | inr (remaining, h) ↦
            let (rest, begins, e) = match_phrase-BeginsWith phrase text remaining h in
            inl (
              [],
              phrase,
              action,
              l,
              rest,
              refl,
              tt,
              begins,
              found phrase action l text remaining h
                  ∙ ap (λ t. record { matched = true; action = some action; remaining_text = t }) e,
            )
      ]

  -- A transcript that is not empty is taken for the command of the first phrase, in the order of the table,
  -- that the stripped transcript begins with, in any case of its letters and up to a space or the end; the
  -- text that is left is what stands behind the phrase, stripped. When it begins with no phrase, there is
  -- no command.
  pub process-IsDecided :
      (l : Phrases) (c : ℕ) (s : Text) → IsDecided l (strip u (c ∷ s)) (process u l (c ∷ s))
  unfolding process
  process-IsDecided l c s = first_phrase-IsDecided l (strip u (c ∷ s))
