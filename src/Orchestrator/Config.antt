-- ===== src/Orchestrator/Config.antt =====
-- core/orchestrator.py: what `start` loads from the configuration (`_init_vocab_snippets`) and what a saved
-- configuration replaces while the program runs (`apply_config_update`). What reading a file gives, the
-- registry of providers and the running loop are parameters.
pub mod Ready
pub mod Forgotten
use agent_voca.Prelude.{
  ℕ, Bool, true, false, not, ◌&&◌, ◌||◌, Option, none, some, List, [], ◌∷◌, ◌++◌, if◌then◌else◌,
}
use agent_voca.Text.{Text, Unicode, is_empty, codes}
use agent_voca.Vocab.Dictionary
use agent_voca.Vocab.Snippets
use agent_voca.Vocab.Adaptive
use agent_voca.Commands
use agent_voca.Context
use agent_voca.Setup.RestartPolicy.{is_hot_field}

-- The lines of a vocabulary file and the mapping of a snippets file (`none` is the exception of a file that
-- cannot be read), and the lines of the file of learned terms (`none` when there is none to be read).
pub record Files : Type 0 where
  pub vocab_lines : Text → Option (List Text)
  pub snippets : Text → Option Dictionary.Mapping
  pub learned_lines : Option Text → Option (List Text)

-- The sections of the configuration that the two methods read; that of the cleanup is handed on unread.
pub record Settings (C : Type 0) : Type 0 where
  pub vocabulary_path : Option Text
  pub vocabulary_inline : List Text
  pub snippets_path : Option Text
  pub commands_enabled : Bool
  pub commands_phrases : Commands.Phrases
  pub adaptive_enabled : Bool
  pub adaptive_promote_threshold : ℕ
  pub adaptive_learned_vocab_path : Option Text
  pub context_enabled : Bool
  pub context_profiles : Dictionary.Mapping
  pub cleanup : C

-- The attributes of the orchestrator that they write, and the providers that are being shut down.
pub record Loaded (P : Type 0) : Type 0 where
  pub vocab : Option Dictionary.Dictionary
  pub snippets : Option Snippets.Expander
  pub adaptive_store : Option Adaptive.Store
  pub command_processor : Option Commands.Phrases
  pub context_enabled : Bool
  pub profile_resolver : Option Context.ProfileResolver
  pub cleanup_provider : Option P
  pub closing : List P

-- `get_cleanup` (`none` is its exception), whether a provider has a method `shutdown`, and whether
-- `asyncio.get_running_loop` finds a loop.
pub record Registry (C P : Type 0) : Type 0 where
  pub get_cleanup : C → Option P
  pub has_shutdown : P → Bool
  pub loop_running : Bool

-- The truth of a path: an empty one is false.
abbrev pub is_given : Option Text → Bool
is_given none = false
is_given (some path) = not (is_empty path)

abbrev pub is_filled : List Text → Bool
is_filled [] = false
is_filled (t ∷ l) = true

module _ (u : Unicode) where
  -- `VocabularyDictionary(path=path, terms=inline)`
  unfoldable pub load_vocabulary : Files → Option Text → List Text → Option Dictionary.Dictionary
  load_vocabulary files none inline = some (Dictionary.init u none (some inline))
  load_vocabulary files (some path) inline = elim (files.vocab_lines path) [
    | none ↦ none
    | some lines ↦ some (Dictionary.init u (some lines) (some inline))
  ]

  -- `SnippetExpander(path=path)`
  unfoldable pub load_snippets : Files → Option Text → Option Snippets.Expander
  load_snippets files none = some (Snippets.init none none)
  load_snippets files (some path) = elim (files.snippets path) [
    | none ↦ none
    | some mapping ↦ some (Snippets.init (some mapping) none)
  ]

  module _ {C : Type 0} (files : Files) (settings : Settings C) where
    -- `AdaptiveStore(...)` of the settings
    abbrev pub learned_store : Adaptive.Store
    learned_store =
        Adaptive.init u (files.learned_lines settings.adaptive_learned_vocab_path)
          settings.adaptive_promote_threshold

    -- The dictionary that start begins with.
    unfoldable pub first_vocabulary : Dictionary.Dictionary
    unfolding load_vocabulary
    first_vocabulary =
        let loaded : Dictionary.Dictionary =
          elim (load_vocabulary files settings.vocabulary_path settings.vocabulary_inline) [
            | none ↦ Dictionary.init u none none
            | some d ↦ d
          ] in
        if is_given settings.vocabulary_path || is_filled settings.vocabulary_inline
        then loaded
        else Dictionary.init u none none

    -- The expander that start begins with.
    unfoldable pub first_snippets : Snippets.Expander
    unfolding load_snippets
    first_snippets =
        let loaded : Snippets.Expander = elim (load_snippets files settings.snippets_path) [
          | none ↦ Snippets.init none none
          | some e ↦ e
        ] in
        if is_given settings.snippets_path then loaded else Snippets.init none none

  module _ {C P : Type 0} (files : Files) (settings : Settings C) where
    -- `_init_vocab_snippets`
    unfoldable pub init_vocab_snippets : Loaded P → Loaded P
    unfolding first_vocabulary first_snippets
    init_vocab_snippets s =
        let learned = learned_store files settings in
        let vocab =
          if settings.adaptive_enabled
          then Dictionary.add_mappings u
              (Dictionary.add_terms u (first_vocabulary files settings) learned.learned_terms)
              learned.learned_mappings
          else first_vocabulary files settings in
        record s {
          vocab = some vocab;
          adaptive_store = if settings.adaptive_enabled then some learned else s.adaptive_store;
          snippets = some (first_snippets files settings);
          command_processor =
              if settings.commands_enabled
              then some (Commands.phrases (some settings.commands_phrases))
              else s.command_processor;
        }

    unfoldable pub reload_vocabulary : Loaded P → Loaded P
    unfolding load_vocabulary
    reload_vocabulary s =
        let merged : Dictionary.Dictionary → Dictionary.Dictionary = λ d. elim s.adaptive_store [
          | none ↦ d
          | some store ↦ Dictionary.add_mappings u d store.learned_mappings
        ] in
        let loaded : Loaded P =
          elim (load_vocabulary files settings.vocabulary_path settings.vocabulary_inline) [
            | none ↦ s
            | some d ↦ record s { vocab = some (merged d) }
          ] in
        if is_hot_field (codes "vocabulary.path") || is_hot_field (codes "vocabulary.inline")
        then loaded
        else s

    unfoldable pub reload_snippets : Loaded P → Loaded P
    unfolding load_snippets
    reload_snippets s =
        let loaded : Loaded P = elim (load_snippets files settings.snippets_path) [
          | none ↦ s
          | some e ↦ record s { snippets = some e }
        ] in
        if is_hot_field (codes "snippets.path") then loaded else s

    -- The tasks that close the old provider.
    unfoldable pub close_provider : Registry C P → Option P → List P → List P
    close_provider registry none closing = closing
    close_provider registry (some p) closing =
        if registry.has_shutdown p && registry.loop_running then closing ++ p ∷ [] else closing

    unfoldable pub reload_cleanup : Registry C P → Loaded P → Loaded P
    unfolding close_provider
    reload_cleanup registry s =
        let loaded : Loaded P = elim (registry.get_cleanup settings.cleanup) [
          | none ↦ s
          | some p ↦ record s {
            cleanup_provider = some p;
            closing = close_provider registry s.cleanup_provider s.closing;
          }
        ] in
        if is_hot_field (codes "cleanup.provider")
          || (is_hot_field (codes "cleanup.model")
              || (is_hot_field (codes "cleanup.endpoint")
                  || (is_hot_field (codes "cleanup.api_key_env")
                      || (is_hot_field (codes "cleanup.style")
                          || (is_hot_field (codes "cleanup.preserve_code")
                              || (is_hot_field (codes "cleanup.custom_prompt_path")
                                  || is_hot_field (codes "cleanup.warm_up")))))))
        then loaded
        else s

    unfoldable pub reload_commands : Loaded P → Loaded P
    reload_commands s =
        if is_hot_field (codes "commands.enabled") || is_hot_field (codes "commands.phrases")
        then record s {
          command_processor = some (Commands.phrases (some settings.commands_phrases));
        }
        else s

    unfoldable pub reload_adaptive : Loaded P → Loaded P
    reload_adaptive s =
        if is_hot_field (codes "adaptive.enabled")
          || (is_hot_field (codes "adaptive.promote_threshold")
              || is_hot_field (codes "adaptive.learned_vocab_path"))
        then record s { adaptive_store = some (learned_store files settings) }
        else s

    unfoldable pub reload_context : Loaded P → Loaded P
    reload_context s =
        let resolver : Option Context.ProfileResolver = elim s.profile_resolver [
          | none ↦ none
          | some old ↦
              if settings.context_enabled
              then some (Context.init settings.context_profiles)
              else some old
        ] in
        if is_hot_field (codes "context.enabled") || is_hot_field (codes "context.profiles")
        then record s { context_enabled = settings.context_enabled; profile_resolver = resolver }
        else s

    -- `apply_config_update`
    unfoldable pub apply_config_update : Registry C P → Loaded P → Loaded P
    unfolding reload_vocabulary reload_snippets reload_cleanup reload_commands reload_adaptive
        reload_context
    apply_config_update registry s = reload_context (
        reload_adaptive
          (reload_commands (reload_cleanup registry (reload_snippets (reload_vocabulary s)))))

  -- The updates of a session, each with the files as they are then.
  unfoldable pub updates :
      {C P : Type 0} → Registry C P → List (Files × Settings C) → Loaded P → Loaded P
  unfolding apply_config_update
  updates registry [] s = s
  updates registry ((files, settings) ∷ l) s =
      updates registry l (apply_config_update files settings registry s)
