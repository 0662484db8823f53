-- ===== src/Tests/Reconfigured.antt =====
-- The start and the updates of the configuration at concrete inputs.
use agent_voca.Prelude.{true, false, none, some, [], ◌∷◌, ◌≡◌, refl, ◌||◌}
use agent_voca.Text.{Text, ascii, codes, contains}
use agent_voca.Vocab.Dictionary
use agent_voca.Vocab.Dictionary.Terms.{wrongs}
use agent_voca.Orchestrator.Config.{
  Files, Settings, Loaded, Registry, load_vocabulary, learned_store, init_vocab_snippets,
  apply_config_update,
}
use agent_voca.Orchestrator.Config.Forgotten.{apply_config_update_forgets}

-- A term and a mapping are learned; no other file can be read.
abbrev files : Files
files = record {
  vocab_lines = λ path. none;
  snippets = λ path. none;
  learned_lines = λ path. some (codes "Kokoro" ∷ codes "vosc -> Vosk" ∷ []);
}

abbrev settings : Settings Text
settings = record {
  vocabulary_path = none;
  vocabulary_inline = codes "Qt" ∷ [];
  snippets_path = none;
  commands_enabled = false;
  commands_phrases = [];
  adaptive_enabled = true;
  adaptive_promote_threshold = 3;
  adaptive_learned_vocab_path = none;
  context_enabled = false;
  context_profiles = [];
  cleanup = codes "none";
}

abbrev registry : Registry Text Text
registry = record {
  get_cleanup = λ cleanup. some cleanup;
  has_shutdown = λ provider. true;
  loop_running = true;
}

abbrev unloaded : Loaded Text
unloaded = record {
  vocab = none;
  snippets = none;
  adaptive_store = none;
  command_processor = none;
  context_enabled = false;
  profile_resolver = none;
  cleanup_provider = some (codes "llm");
  closing = [];
}

abbrev inline : Dictionary.Dictionary
inline = Dictionary.init ascii none (some (codes "Qt" ∷ []))

inline_loads : load_vocabulary ascii files none (codes "Qt" ∷ []) ≡ some inline
unfolding load_vocabulary
inline_loads = refl

apply_config_update_forgets_example :
    let learned = learned_store ascii files settings in
    let s = init_vocab_snippets ascii files settings unloaded in
    (before after : Dictionary.Dictionary) × (s.vocab ≡ some before)
    × ((apply_config_update ascii files settings registry s).vocab ≡ some after)
    × ((t : Text)
        → contains before.terms t ≡ (
            (contains inline.terms t || contains learned.learned_terms t)
            || contains (wrongs learned.learned_mappings) t))
    × ((t : Text)
        → contains after.terms t
          ≡ (contains inline.terms t || contains (wrongs learned.learned_mappings) t))
apply_config_update_forgets_example =
    apply_config_update_forgets ascii files settings registry unloaded inline refl inline_loads refl
