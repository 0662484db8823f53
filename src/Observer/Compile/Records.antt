-- ===== src/Observer/Compile/Records.antt =====
-- observer/compile/rules.py: what `_render_block` collects of a block, and its record.
use agent_voca.Prelude.{
  ℕ, Bool, true, false, Option, none, some, List, [], ◌∷◌, ◌++◌, if◌then◌else◌, map,
}
use agent_voca.Text.{Text, is_empty, codes}
use agent_voca.Vocab.Dictionary.{get}
use agent_voca.Observer.{
  ObserverEvent, EventKind, utterance_ambient, utterance_dictated, keyframe, selection,
  focus_change, pause_start, pause_end, gap,
}
use agent_voca.Observer.Blocks.{block_window}
use agent_voca.Observer.Compile.{Locale, Utterance, Selection, Keyframe, Gap, BlockRecord, or_empty}

-- An entry of `pauses`; what the rendering reads of it.
pub data Pause : Type 0 where
  started : ℕ → Text → Pause
  ended : ℕ → Pause
  dropped_at : ℕ → Text → ℕ → Pause

-- The lists of `_render_block`, in the order of the events.
pub record Collected : Type 0 where
  pub utterances : List ObserverEvent
  pub selections : List ObserverEvent
  pub keyframes : List ObserverEvent
  pub pauses : List Pause

abbrev pub empty_collected : Collected
empty_collected = record { utterances = []; selections = []; keyframes = []; pauses = [] }

-- The last value that is not empty, or the one before.
unfoldable pub last_named : (ObserverEvent → Option Text) → Text → List ObserverEvent → Text
last_named f t [] = t
last_named f t (e ∷ l) = last_named f (if is_empty (or_empty (f e)) then t else or_empty (f e)) l

-- `if not name and block: name = block[0].name or ""`
unfoldable pub or_first : (ObserverEvent → Option Text) → Text → List ObserverEvent → Text
or_first f t [] = t
or_first f t (e ∷ l) = if is_empty t then or_empty (f e) else t

-- `e.kind in ("utterance_ambient", "utterance_dictated")`
unfoldable pub is_utterance : EventKind → Bool
is_utterance utterance_ambient = true
is_utterance utterance_dictated = true
is_utterance _ = false

unfoldable pub is_dictated : EventKind → Bool
is_dictated utterance_dictated = true
is_dictated _ = false

-- The names of a block.
unfoldable pub block_app : List ObserverEvent → Text
unfolding last_named or_first
block_app block =
    or_first (λ (e : ObserverEvent). e.app_name)
      (last_named (λ (e : ObserverEvent). e.app_name) [] block) block

unfoldable pub block_title : List ObserverEvent → Text
unfolding last_named or_first
block_title block =
    or_first (λ (e : ObserverEvent). e.window_title)
      (last_named (λ (e : ObserverEvent). e.window_title) [] block) block

module _ (locale : Locale) where
  -- `event.meta.get(key, default)`, as a text
  unfoldable pub meta_text : ObserverEvent → Text → Text → Text
  unfolding get
  meta_text e k default = elim (get e.meta k) [ none ↦ default | some v ↦ locale.as_text v ]

  -- `int(event.meta.get("dropped", 0))`
  unfoldable pub meta_dropped : ObserverEvent → Option ℕ
  unfolding get
  meta_dropped e = elim (get e.meta (codes "dropped")) [ none ↦ some 0 | some v ↦ locale.as_int v ]

  -- `bool(event.meta.get("truncated", False))`
  unfoldable pub meta_truncated : ObserverEvent → Bool
  unfolding get
  meta_truncated e = elim (get e.meta (codes "truncated")) [
    | none ↦ false
    | some v ↦ locale.is_truthy v
  ]

  abbrev pub reason_of : ObserverEvent → Text
  reason_of e = meta_text e (codes "reason") (codes "hotkey")

  -- A gap with the number that `int` gives.
  abbrev pub add_gap : ObserverEvent → Option ℕ → Collected → Option Collected
  add_gap e none c = none
  add_gap e (some n) c = some (record c {
    pauses =
        c.pauses
        ++ dropped_at e.ts_ms (meta_text e (codes "reason") (codes "asr_queue_full")) n ∷ [];
  })

  -- One turn of the loop over the events, by the kind; `none` is the exception of `int`.
  unfoldable pub collect_event : EventKind → ObserverEvent → Collected → Option Collected
  unfolding meta_text meta_dropped
  collect_event utterance_ambient e c = some (record c { utterances = c.utterances ++ e ∷ [] })
  collect_event utterance_dictated e c = some (record c { utterances = c.utterances ++ e ∷ [] })
  collect_event selection e c = some (record c { selections = c.selections ++ e ∷ [] })
  collect_event keyframe e c = some (record c { keyframes = c.keyframes ++ e ∷ [] })
  collect_event pause_start e c =
      some (record c { pauses = c.pauses ++ started e.ts_ms (reason_of e) ∷ [] })
  collect_event pause_end e c = some (record c { pauses = c.pauses ++ ended e.ts_ms ∷ [] })
  collect_event gap e c = add_gap e (meta_dropped e) c
  collect_event focus_change e c = some c

  unfoldable pub collect : List ObserverEvent → Collected → Option Collected
  unfolding collect_event
  collect [] c = some c
  collect (e ∷ l) c = elim (collect_event e.kind e c) [ none ↦ none | some c' ↦ collect l c' ]

  unfoldable pub utterance_record : ObserverEvent → Utterance
  unfolding is_dictated
  utterance_record e = record {
    ts_ms = e.ts_ms;
    text = or_empty e.text;
    is_dictated = is_dictated e.kind;
  }

  unfoldable pub selection_record : ObserverEvent → Selection
  unfolding meta_text meta_truncated
  selection_record e = record {
    ts_ms = e.ts_ms;
    text = or_empty e.text;
    method = meta_text e (codes "method") (codes "uia");
    truncated = meta_truncated e;
  }

  unfoldable pub keyframe_record : ObserverEvent → Keyframe
  unfolding meta_text
  keyframe_record e = record {
    ts_ms = e.ts_ms;
    blob_path = or_empty e.blob_path;
    trigger = meta_text e (codes "trigger") (codes "window_change");
    ocr_text = or_empty e.text;
  }

  -- The entries of `gaps` for a pause; a `pause_end` has none.
  unfoldable pub gap_records : List Pause → List Gap
  gap_records [] = []
  gap_records (started t reason ∷ l) =
      record { ts_ms = t; reason = codes "pause_" ++ reason; dropped = 0 } ∷ gap_records l
  gap_records (ended t ∷ l) = gap_records l
  gap_records (dropped_at t reason n ∷ l) =
      record { ts_ms = t; reason = reason; dropped = n } ∷ gap_records l

  unfoldable pub block_record : List ObserverEvent → ℕ → Collected → BlockRecord
  unfolding block_app block_title block_window utterance_record selection_record keyframe_record
      gap_records
  block_record block index c = record {
    index = index;
    started_at_ms = (block_window block).0;
    ended_at_ms = (block_window block).1;
    app_name = block_app block;
    window_title = block_title block;
    summary = [];
    utterances = map utterance_record c.utterances;
    selections = map selection_record c.selections;
    keyframes = map keyframe_record c.keyframes;
    gaps = gap_records c.pauses;
  }
