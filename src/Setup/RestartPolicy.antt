-- ===== src/Setup/RestartPolicy.antt =====
-- setup/controllers/restart_policy.py: which changes of the configuration are applied live. A dotted path
-- is a text; the sets are lists.
pub mod Partition
use agent_voca.Prelude.{
  ℕ, zero, suc, Bool, true, false, Option, none, some, List, [], ◌∷◌, ◌++◌, ◌==◌, if◌then◌else◌,
  length, take,
}
use agent_voca.Text.{Text, codes, contains}

-- `_RESTART_FIELDS`
abbrev pub restart_fields : List Text
restart_fields =
    codes "asr.provider"
    ∷ codes "asr.model"
    ∷ codes "asr.endpoint"
    ∷ codes "asr.api_key_env"
    ∷ codes "asr.language_hint"
    ∷ codes "asr.extra"
    ∷ codes "asr.streaming"
    ∷ codes "asr.streaming_model"
    ∷ codes "asr.streaming_chunk_ms"
    ∷ codes "asr.streaming_window_s"
    ∷ codes "asr.warm_up"
    ∷ codes "audio.input_device"
    ∷ codes "audio.sample_rate"
    ∷ codes "audio.channels"
    ∷ codes "audio.vad_enabled"
    ∷ codes "audio.silence_timeout_ms"
    ∷ codes "audio.max_recording_duration_s"
    ∷ codes "insertion.strategy"
    ∷ codes "insertion.clipboard_fallback"
    ∷ codes "insertion.delay_between_chars_ms"
    ∷ codes "vision.enabled"
    ∷ codes "vision.provider"
    ∷ codes "vision.endpoint"
    ∷ codes "vision.api_key_env"
    ∷ codes "vision.model"
    ∷ codes "app.profile"
    ∷ codes "app.language"
    ∷ codes "app.mode"
    ∷ codes "app.debug"
    ∷ codes "observer.enabled"
    ∷ codes "observer.storage"
    ∷ codes "observer.storage.dir"
    ∷ []

-- `_HOT_FIELDS`
abbrev pub hot_fields : List Text
hot_fields =
    codes "cleanup.provider"
    ∷ codes "cleanup.model"
    ∷ codes "cleanup.endpoint"
    ∷ codes "cleanup.api_key_env"
    ∷ codes "cleanup.style"
    ∷ codes "cleanup.preserve_code"
    ∷ codes "cleanup.custom_prompt_path"
    ∷ codes "cleanup.extra"
    ∷ codes "cleanup.streaming"
    ∷ codes "cleanup.warm_up"
    ∷ codes "hotkeys.toggle_recording"
    ∷ codes "hotkeys.open_settings"
    ∷ codes "hotkeys.insert_last_transcript"
    ∷ codes "hotkeys.undo"
    ∷ codes "hotkeys.cancel"
    ∷ codes "hotkeys.capture_screenshot"
    ∷ codes "hotkeys.toggle_observer"
    ∷ codes "hotkeys.pause_observer"
    ∷ codes "vocabulary.path"
    ∷ codes "vocabulary.inline"
    ∷ codes "snippets.path"
    ∷ codes "context.enabled"
    ∷ codes "context.read_screen"
    ∷ codes "context.read_clipboard"
    ∷ codes "context.profiles"
    ∷ codes "commands.enabled"
    ∷ codes "commands.phrases"
    ∷ codes "adaptive.enabled"
    ∷ codes "adaptive.promote_threshold"
    ∷ codes "adaptive.learned_vocab_path"
    ∷ codes "vision.capture_timeout_s"
    ∷ codes "vision.anchor_phrases"
    ∷ codes "vision.output_format"
    ∷ codes "observer.triggers"
    ∷ codes "observer.triggers.window_change"
    ∷ codes "observer.triggers.scroll_settle"
    ∷ codes "observer.triggers.click_selection"
    ∷ codes "observer.triggers.speech_onset"
    ∷ codes "observer.triggers.scroll_settle_ms"
    ∷ codes "observer.triggers.min_interval_ms"
    ∷ codes "observer.triggers.max_keyframes_per_min"
    ∷ codes "observer.screen"
    ∷ codes "observer.screen.scope"
    ∷ codes "observer.screen.max_width_px"
    ∷ codes "observer.screen.jpeg_quality"
    ∷ codes "observer.screen.dedup_phash_distance"
    ∷ codes "observer.ocr"
    ∷ codes "observer.ocr.provider"
    ∷ codes "observer.ocr.endpoint"
    ∷ codes "observer.ocr.api_key_env"
    ∷ codes "observer.ocr.model"
    ∷ codes "observer.ocr.max_queue"
    ∷ codes "observer.selection"
    ∷ codes "observer.selection.enabled"
    ∷ codes "observer.selection.method"
    ∷ codes "observer.selection.max_chars"
    ∷ codes "observer.compile"
    ∷ codes "observer.compile.provider"
    ∷ codes "observer.compile.endpoint"
    ∷ codes "observer.compile.api_key_env"
    ∷ codes "observer.compile.model"
    ∷ codes "observer.compile.formats"
    ∷ codes "observer.privacy"
    ∷ codes "observer.privacy.exclude_apps"
    ∷ codes "observer.privacy.exclude_title_patterns"
    ∷ []

-- The answer of `_classify`; an unknown path has none.
pub data Classification : Type 0 where
  hot restart : Classification

-- A part of a path before the parts that are there.
abbrev pub prepend : ℕ → List Text → List Text
prepend c [] = (c ∷ []) ∷ []
prepend c (part ∷ parts) = (c ∷ part) ∷ parts

-- `path.split(".")`
unfoldable pub split_dots : Text → List Text
split_dots [] = [] ∷ []
split_dots (c ∷ s) = let rest = split_dots s in if c == 46 then [] ∷ rest else prepend c rest

-- `".".join(parts)`
unfoldable pub join_dots : List Text → Text
join_dots [] = []
join_dots (part ∷ []) = part
join_dots (part ∷ next ∷ parts) = part ++ 46 ∷ join_dots (next ∷ parts)

-- One candidate of the loop.
unfoldable pub classify_field : Text → Option Classification
unfolding contains
classify_field candidate =
    if contains hot_fields candidate
    then some hot
    else if contains restart_fields candidate
    then some restart
    else none

-- The loop of `_classify`, over the prefixes of at most so many parts, the longest first.
unfoldable pub classify_prefixes : ℕ → List Text → Option Classification
unfolding classify_field join_dots
classify_prefixes zero parts = none
classify_prefixes (suc i) parts =
    let rest = classify_prefixes i parts in
    elim (classify_field (join_dots (take (suc i) parts))) [ some c ↦ some c | none ↦ rest ]

unfoldable pub classify : Text → Option Classification
unfolding classify_prefixes split_dots
classify path = let parts = split_dots path in classify_prefixes (length parts) parts

abbrev pub is_hot : Option Classification → Bool
is_hot none = false
is_hot (some hot) = true
is_hot (some restart) = false

unfoldable pub is_hot_field : Text → Bool
unfolding classify
is_hot_field path = is_hot (classify path)

-- `partition`: the paths to apply live, and those that want a restart
unfoldable pub partition : List Text → List Text × List Text
unfolding classify
partition [] = ([], [])
partition (path ∷ paths) =
    let (live, late) = partition paths in
    if is_hot (classify path) then (path ∷ live, late) else (live, path ∷ late)
