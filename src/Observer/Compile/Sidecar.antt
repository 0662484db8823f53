-- ===== src/Observer/Compile/Sidecar.antt =====
-- observer/export/json_sidecar.py: the document of the JSON file, before it is written.
pub mod Events
pub mod Agreement
use agent_voca.Prelude.{
  ℕ, suc, ◌-◌, Bool, true, false, Option, none, some, List, [], ◌∷◌, ◌++◌, ◌==◌, if◌then◌else◌, ltb,
}
use agent_voca.Text.{Text, is_empty, codes}
use agent_voca.Observer.{
  ObserverEvent, ObserverSession, EventKind, utterance_ambient, utterance_dictated, keyframe,
  selection, focus_change, pause_start, pause_end, gap,
}
use agent_voca.Observer.Blocks.{split_blocks, last}
use agent_voca.Observer.Controller.{SessionBundle}
use agent_voca.Observer.Compile.{
  Locale, Utterance, Selection, Keyframe, Gap, BlockRecord, Compiled, or_empty,
}
use agent_voca.Observer.Compile.Records.{meta_text, meta_dropped, meta_truncated}

-- The lists of `_build_blocks` for one block.
pub record Entries : Type 0 where
  pub utterances : List Utterance
  pub selections : List Selection
  pub keyframes : List Keyframe
  pub gaps : List Gap

abbrev pub no_entries : Entries
no_entries = record { utterances = []; selections = []; keyframes = []; gaps = [] }

-- `next((e.name for e in block if e.name), "")`
unfoldable pub first_named : (ObserverEvent → Option Text) → List ObserverEvent → Text
first_named f [] = []
first_named f (e ∷ l) =
    let rest = first_named f l in if is_empty (or_empty (f e)) then rest else or_empty (f e)

-- `compiled_summaries.get(index, "")`; a later record with the index takes the place of an earlier one.
unfoldable pub summary_at : ℕ → Text → List BlockRecord → Text
summary_at index found [] = found
summary_at index found (r ∷ l) =
    summary_at index
      (if is_empty r.summary then found else if r.index == index then r.summary else found) l

-- The document
pub record Document : Type 0 where
  pub uuid : Text
  pub started_at_ms : ℕ
  pub ended_at_ms : Option ℕ
  pub duration_ms : ℕ
  pub app_version : Text
  pub compiler : Text
  pub degraded : Bool
  pub summary : Text
  pub blocks : List BlockRecord

module _ (locale : Locale) where
  abbrev pub add_utterance : ObserverEvent → Bool → Entries → Entries
  add_utterance e is_dictated c = record c {
    utterances =
        c.utterances
        ++ record { ts_ms = e.ts_ms; text = or_empty e.text; is_dictated = is_dictated } ∷ [];
  }

  abbrev pub add_gap_entry : ObserverEvent → Text → ℕ → Entries → Entries
  add_gap_entry e reason n c = record c {
    gaps = c.gaps ++ record { ts_ms = e.ts_ms; reason = reason; dropped = n } ∷ [];
  }

  -- One turn of the loop over the events of a block; `none` is the exception of `int`.
  unfoldable pub add_entry : EventKind → ObserverEvent → Entries → Option Entries
  unfolding meta_text meta_dropped meta_truncated
  add_entry utterance_ambient e c = some (add_utterance e false c)
  add_entry utterance_dictated e c = some (add_utterance e true c)
  add_entry selection e c = some (record c {
    selections =
        c.selections
        ++ record {
          ts_ms = e.ts_ms;
          text = or_empty e.text;
          method = meta_text locale e (codes "method") (codes "uia");
          truncated = meta_truncated locale e;
        }
          ∷ [];
  })
  add_entry keyframe e c = some (record c {
    keyframes =
        c.keyframes
        ++ record {
          ts_ms = e.ts_ms;
          blob_path = or_empty e.blob_path;
          trigger = meta_text locale e (codes "trigger") (codes "window_change");
          ocr_text = or_empty e.text;
        }
          ∷ [];
  })
  add_entry pause_start e c =
      some (
        add_gap_entry e (codes "pause_" ++ meta_text locale e (codes "reason") (codes "hotkey")) 0
          c)
  add_entry pause_end e c = some (add_gap_entry e (codes "pause_end") 0 c)
  add_entry gap e c = elim (meta_dropped locale e) [
    | none ↦ none
    | some n ↦
        some (add_gap_entry e (meta_text locale e (codes "reason") (codes "asr_queue_full")) n c)
  ]
  add_entry focus_change e c = some c

  unfoldable pub add_entries : List ObserverEvent → Entries → Option Entries
  unfolding add_entry
  add_entries [] c = some c
  add_entries (e ∷ l) c = elim (add_entry e.kind e c) [ none ↦ none | some c' ↦ add_entries l c' ]

  -- The entry of a block that is not empty.
  unfoldable pub entry_of :
      List BlockRecord → ObserverEvent → List ObserverEvent → ℕ → Entries → BlockRecord
  unfolding first_named summary_at last
  entry_of compiled e l index c = record {
    index = index;
    started_at_ms = e.ts_ms;
    ended_at_ms = elim (last (e ∷ l)) [ none ↦ 0 | some z ↦ z.ts_ms ];
    app_name = first_named (λ (x : ObserverEvent). x.app_name) (e ∷ l);
    window_title = first_named (λ (x : ObserverEvent). x.window_title) (e ∷ l);
    summary = summary_at index [] compiled;
    utterances = c.utterances;
    selections = c.selections;
    keyframes = c.keyframes;
    gaps = c.gaps;
  }

  -- `_build_blocks`, over the blocks
  unfoldable pub build_entries :
      List BlockRecord → List (List ObserverEvent) → ℕ → Option (List BlockRecord)
  unfolding add_entries entry_of
  build_entries compiled [] index = some []
  build_entries compiled ([] ∷ bs) index = build_entries compiled bs (suc index)
  build_entries compiled ((e ∷ l) ∷ bs) index = elim (add_entries (e ∷ l) no_entries) [
    | none ↦ none
    | some c ↦ elim (build_entries compiled bs (suc index)) [
      | none ↦ none
      | some rs ↦ some (entry_of compiled e l index c ∷ rs)
    ]
  ]

  unfoldable pub build_blocks : Compiled → List ObserverEvent → Option (List BlockRecord)
  unfolding build_entries split_blocks
  build_blocks compiled events = build_entries compiled.blocks (split_blocks events) 0

  -- `last_ts or 0`
  abbrev pub last_ts : SessionBundle → Option ℕ
  last_ts bundle = elim (last bundle.events) [
    | none ↦ bundle.session.ended_at_ms
    | some e ↦ some e.ts_ms
  ]

  abbrev pub first_ts : SessionBundle → ℕ
  first_ts bundle = elim bundle.events [ [] ↦ bundle.session.started_at_ms | e ∷ l ↦ e.ts_ms ]

  -- `export`, before the file is written
  unfoldable pub export : Compiled → SessionBundle → Option Document
  unfolding build_blocks last
  export compiled bundle = elim (build_blocks compiled bundle.events) [
    | none ↦ none
    | some blocks ↦ some (record {
      uuid = bundle.session.uuid;
      started_at_ms = bundle.session.started_at_ms;
      ended_at_ms = elim bundle.session.ended_at_ms [ none ↦ last_ts bundle | some t ↦ some t ];
      duration_ms = (elim (last_ts bundle) [ none ↦ 0 | some t ↦ t ]) - first_ts bundle;
      app_version = bundle.session.app_version;
      compiler = compiled.provider;
      degraded = compiled.degraded;
      summary = compiled.summary;
      blocks = blocks;
    })
  ]
