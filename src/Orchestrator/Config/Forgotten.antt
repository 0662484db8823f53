-- ===== src/Orchestrator/Config/Forgotten.antt =====
-- core/orchestrator.py: the learned terms behind an update of the configuration.
use agent_voca.Prelude.{◌≡◌, refl, ◌∙◌, ap, true, ◌||◌, some}
use agent_voca.Text.{Text, Unicode, text_eq, contains, codes}
use agent_voca.Setup.RestartPolicy.{
  is_hot_field, classify, classify_prefixes, classify_field, split_dots, join_dots,
}
use agent_voca.Vocab.Dictionary
use agent_voca.Vocab.Dictionary.Terms.{wrongs, contains-add_terms, contains-add_mappings}
use agent_voca.Orchestrator.Config.Ready.{holds_if, holds_or}
use agent_voca.Orchestrator.Config.{
  Files, Settings, Loaded, Registry, is_given, is_filled, load_vocabulary, load_snippets,
  learned_store, first_vocabulary, init_vocab_snippets, reload_vocabulary, reload_snippets,
  reload_cleanup, reload_commands, reload_adaptive, reload_context, apply_config_update,
}

vocabulary_is_hot : is_hot_field (codes "vocabulary.path") ≡ true
unfolding is_hot_field classify classify_prefixes classify_field split_dots join_dots contains
    text_eq
vocabulary_is_hot = refl

module _ (u : Unicode) where
  module _ {C P : Type 0} (files : Files) (settings : Settings C) where
    -- The other parts of an update leave the vocabulary alone.
    reload_snippets_vocab : (s : Loaded P) → (reload_snippets u files settings s).vocab ≡ s.vocab
    unfolding reload_snippets
    reload_snippets_vocab s =
        let keeps : Loaded P → Type 0 = λ z. z.vocab ≡ s.vocab in
        holds_if keeps (is_hot_field (codes "snippets.path"))
          (holds_or keeps _ (load_snippets u files settings.snippets_path) (λ e. refl) refl) refl

    reload_cleanup_vocab :
        (registry : Registry C P) (s : Loaded P)
        → (reload_cleanup u files settings registry s).vocab ≡ s.vocab
    unfolding reload_cleanup
    reload_cleanup_vocab registry s =
        let keeps : Loaded P → Type 0 = λ z. z.vocab ≡ s.vocab in
        holds_if keeps _ (holds_or keeps _ (registry.get_cleanup settings.cleanup) (λ p. refl) refl)
          refl

    reload_commands_vocab : (s : Loaded P) → (reload_commands u files settings s).vocab ≡ s.vocab
    unfolding reload_commands
    reload_commands_vocab s = holds_if (λ (z : Loaded P). z.vocab ≡ s.vocab) _ refl refl

    reload_adaptive_vocab : (s : Loaded P) → (reload_adaptive u files settings s).vocab ≡ s.vocab
    unfolding reload_adaptive
    reload_adaptive_vocab s = holds_if (λ (z : Loaded P). z.vocab ≡ s.vocab) _ refl refl

    reload_context_vocab : (s : Loaded P) → (reload_context u files settings s).vocab ≡ s.vocab
    unfolding reload_context
    reload_context_vocab s = holds_if (λ (z : Loaded P). z.vocab ≡ s.vocab) _ refl refl

    apply_config_update_vocab :
        (registry : Registry C P) (s : Loaded P)
        → (apply_config_update u files settings registry s).vocab
          ≡ (reload_vocabulary u files settings s).vocab
    unfolding apply_config_update
    apply_config_update_vocab registry s =
        reload_context_vocab _
        ∙ reload_adaptive_vocab _
        ∙ reload_commands_vocab _
        ∙ reload_cleanup_vocab registry _
        ∙ reload_snippets_vocab _

    -- With the adaptive store on, and vocabulary settings from which the dictionary `d` can be loaded: after
    -- the start the vocabulary's terms are those of `d`, the learned terms, and the texts that the learned
    -- mappings replace; after an update with the same settings and files, the learned terms that are neither
    -- in `d` nor replaced by a mapping are gone.
    pub apply_config_update_forgets :
        (registry : Registry C P) (s : Loaded P) (d : Dictionary.Dictionary)
        → (is_given settings.vocabulary_path || is_filled settings.vocabulary_inline) ≡ true
        → load_vocabulary u files settings.vocabulary_path settings.vocabulary_inline ≡ some d
        → settings.adaptive_enabled ≡ true
        → let learned = learned_store u files settings in
          let s' = init_vocab_snippets u files settings s in
          (before after : Dictionary.Dictionary) × (s'.vocab ≡ some before)
          × ((apply_config_update u files settings registry s').vocab ≡ some after)
          × ((t : Text)
              → contains before.terms t ≡ (
                  (contains d.terms t || contains learned.learned_terms t)
                  || contains (wrongs learned.learned_mappings) t))
          × ((t : Text)
              → contains after.terms t
                ≡ (contains d.terms t || contains (wrongs learned.learned_mappings) t))
    unfolding init_vocab_snippets first_vocabulary reload_vocabulary
    apply_config_update_forgets registry s d given loads enabled =
        let learned = learned_store u files settings in
        let s' = init_vocab_snippets u files settings s in
        (
          Dictionary.add_mappings u (Dictionary.add_terms u d learned.learned_terms)
              learned.learned_mappings,
          Dictionary.add_mappings u d learned.learned_mappings,
          rw (enabled, given, loads) refl,
          apply_config_update_vocab registry s' ∙ rw (vocabulary_is_hot, loads, enabled) refl,
          λ t.
              contains-add_mappings u _ learned.learned_mappings t
              ∙ ap (λ b. b || contains (wrongs learned.learned_mappings) t)
                  (contains-add_terms u d learned.learned_terms t),
          λ t. contains-add_mappings u d learned.learned_mappings t,
        )
