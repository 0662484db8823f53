-- ===== src/Observer/Compile/Rules.antt =====
-- observer/compile/rules.py: the rendering of a block and of a session.
pub mod Complete
pub mod Total
pub mod Screens
use agent_voca.Prelude.{
  ℕ, suc, ◌+◌, ◌-◌, Bool, true, false, not, ◌&&◌, ◌||◌, Option, none, some, List, [], ◌∷◌, ◌++◌,
  ltb, ◌==◌, if◌then◌else◌, length, map,
}
use agent_voca.Text.{Text, Unicode, is_empty, strip, contains, codes}
use agent_voca.Vocab.Dictionary.{get, Mapping}
use agent_voca.Observer.{
  ObserverEvent, ObserverSession, EventKind, utterance_ambient, utterance_dictated, keyframe,
  selection, focus_change, pause_start, pause_end, gap,
}
use agent_voca.Observer.Blocks.{split_blocks, block_window}
use agent_voca.Observer.Controller.{SessionBundle}
use agent_voca.Observer.Compile.{
  Locale, Utterance, Selection, Keyframe, Gap, BlockRecord, Compiled, or_empty, text_or, join_by,
  decimal, escape_md, fmt_duration, pluralize, not_in, truncate, first_non_empty_lines,
}
use agent_voca.Observer.Compile.Records.{
  Pause, started, ended, dropped_at, Collected, empty_collected, collect, block_record, block_app,
  block_title, is_utterance,
}

-- `_SELECTION_MAX_CHARS`, `_OCR_MAX_CHARS` and `_OCR_LINES_PER_KEYFRAME`
abbrev pub selection_max_chars : ℕ
selection_max_chars = 500

abbrev pub ocr_max_chars : ℕ
ocr_max_chars = 200

abbrev pub ocr_lines_per_keyframe : ℕ
ocr_lines_per_keyframe = 2

-- `_PAUSE_REASON_LABEL`
unfoldable pub pause_reason_label : Mapping
pause_reason_label =
    (codes "hotkey", codes "capture paused (hotkey)")
    ∷ (codes "excluded_app", codes "capture paused (excluded app in foreground)")
    ∷ (codes "disk_cap", codes "capture paused (session disk cap reached)")
    ∷ []

-- `c for c in chunks if c`
unfoldable pub nonempty : List Text → List Text
nonempty [] = []
nonempty (t ∷ l) = let rest = nonempty l in if is_empty t then rest else t ∷ rest

-- Unique apps, in the order of their first appearance.
unfoldable pub app_names_from : List Text → List ObserverEvent → List Text
app_names_from seen [] = seen
app_names_from seen (e ∷ l) =
    let name = or_empty e.app_name in
    app_names_from (if is_empty name || contains seen name then seen else seen ++ name ∷ []) l

unfoldable pub count_spoken : List ObserverEvent → ℕ
unfolding is_utterance
count_spoken [] = 0
count_spoken (e ∷ l) = (if is_utterance e.kind then 1 else 0) + count_spoken l

module _ (u : Unicode) (locale : Locale) where
  -- "Said"
  unfoldable pub said_lines : List ObserverEvent → List Text
  unfolding escape_md strip
  said_lines [] = []
  said_lines (e ∷ l) =
      let text = escape_md (strip u (or_empty e.text)) in
      let rest = said_lines l in
      if is_empty text
      then rest
      else (codes "- " ++ (locale.hhmm e.ts_ms ++ (codes " — " ++ text))) ∷ rest

  -- "Highlighted"
  unfoldable pub highlighted_line : ObserverEvent → Text
  unfolding escape_md truncate
  highlighted_line e = codes "> " ++ escape_md (truncate u (or_empty e.text) selection_max_chars)

  -- The first lines of a keyframe that count.
  abbrev pub ocr_lines : ObserverEvent → List Text
  ocr_lines e = first_non_empty_lines u (or_empty e.text) ocr_lines_per_keyframe

  -- "On screen", with the lines that were shown; the new lines of each keyframe that has any.
  unfoldable pub fresh_lines : List Text → List ObserverEvent → List (ObserverEvent × List Text)
  unfolding not_in first_non_empty_lines
  fresh_lines shown [] = []
  fresh_lines shown (e ∷ l) =
      let new_lines = not_in shown (ocr_lines e) in
      let rest = fresh_lines (shown ++ ocr_lines e) l in
      elim new_lines [ [] ↦ rest | t ∷ ts ↦ (e, t ∷ ts) ∷ rest ]

  unfoldable pub screen_line : ObserverEvent × List Text → Text
  unfolding escape_md truncate join_by
  screen_line (e, new_lines) =
      let joined = truncate u (join_by (codes " | ") new_lines) ocr_max_chars in
      codes "- " ++ (locale.hhmm e.ts_ms ++ (codes " — " ++ escape_md joined))

  unfoldable pub pause_line : Pause → Text
  unfolding get pause_reason_label decimal
  pause_line (started t reason) =
      locale.hhmm t
      ++ (codes " — " ++ elim (get pause_reason_label reason) [ none ↦ reason | some l ↦ l ])
  pause_line (ended t) = locale.hhmm t ++ codes " — capture resumed"
  pause_line (dropped_at t reason n) =
      locale.hhmm t
      ++ (codes " — data dropped ("
          ++ (reason
              ++ (codes ", "
                  ++ (decimal n
                      ++ (codes " "
                          ++ ((if n == 1 then codes "item" else codes "items") ++ codes ")"))))))

  -- The chunks of a block behind its headers.
  unfoldable pub body_chunks : Collected → List Text
  unfolding said_lines highlighted_line fresh_lines screen_line pause_line pluralize
  body_chunks c =
      (if length c.utterances == 0 then [] else codes "**Said**" ∷ said_lines c.utterances)
      ++ ((if length c.selections == 0
            then []
            else codes "**Highlighted**" ∷ map highlighted_line c.selections)
          ++ ((if length c.keyframes == 0
                then []
                else (codes "**On screen** *("
                    ++ (pluralize (length c.keyframes) (codes "capture") (codes "captures")
                        ++ codes ")*"))
                  ∷ map screen_line (fresh_lines [] c.keyframes))
              ++ map (λ p. codes "> " ++ 9888 ∷ 65039 ∷ 32 ∷ pause_line p) c.pauses))

  unfoldable pub block_markdown : List ObserverEvent → Collected → Text
  unfolding body_chunks block_app block_title nonempty join_by
  block_markdown block c =
      let window = block_window block in
      let header =
        codes "## "
        ++ (locale.hhmm window.0
            ++ (codes " – "
                ++ (locale.hhmm window.1
                    ++ (codes " · " ++ text_or (block_app block) (codes "unknown"))))) in
      let title = block_title block in
      let sub = if is_empty title then [] else (codes "### " ++ escape_md title) ∷ [] in
      join_by (10 ∷ 10 ∷ []) (nonempty (header ∷ (sub ++ body_chunks c)))

  -- `_render_block`
  unfoldable pub render_block : List ObserverEvent → ℕ → Option (Text × BlockRecord)
  unfolding collect block_markdown block_record
  render_block block index = elim (collect locale block empty_collected) [
    | none ↦ none
    | some c ↦ some (block_markdown block c, block_record locale block index c)
  ]

  -- The loop over the blocks
  unfoldable pub render_blocks : List (List ObserverEvent) → ℕ → Option (List (Text × BlockRecord))
  unfolding render_block
  render_blocks [] index = some []
  render_blocks (b ∷ l) index = elim (render_block b index) [
    | none ↦ none
    | some r ↦ elim (render_blocks l (suc index)) [ none ↦ none | some rs ↦ some (r ∷ rs) ]
  ]

  -- `_render_header`
  unfoldable pub render_header : ℕ → List Text → ℕ → ℕ → ℕ → Text
  unfolding fmt_duration join_by decimal
  render_header total_duration_ms app_names block_count started_at ended_at =
      let end_part = if ltb 0 ended_at then locale.hhmm ended_at else codes "?" in
      let apps : Text = elim app_names [
        | [] ↦ codes "none"
        | t ∷ l ↦ join_by (codes ", ") (t ∷ l)
      ] in
      codes "# Session — "
      ++ (locale.date started_at
          ++ (codes ", "
              ++ (locale.hhmm started_at
                  ++ (codes "–"
                      ++ (end_part
                          ++ (10 ∷ 10 ∷ codes "**Duration:** "
                              ++ (fmt_duration total_duration_ms
                                  ++ (codes " · **Apps:** "
                                      ++ (apps
                                          ++ (codes " · **Captures:** "
                                              ++ (decimal block_count
                                                  ++ 10 ∷ 10 ∷ codes "---")))))))))))

  abbrev pub footer : Text
  footer =
      codes "*Compiled by AgentVoca v"
      ++ (locale.version ++ codes " · rules compiler · no LLM used*")

  -- `"\n\n---\n\n"`
  abbrev pub rule_between : Text
  rule_between = 10 ∷ 10 ∷ codes "---" ++ 10 ∷ 10 ∷ []

  -- `_render_empty_session`
  unfoldable pub render_empty_session : ObserverSession → Compiled
  render_empty_session session =
      let started_at = session.started_at_ms in
      let ended_at : ℕ = elim session.ended_at_ms [
        | none ↦ started_at
        | some t ↦ (if ltb 0 t then t else started_at)
      ] in
      let title =
        if ltb 0 started_at
        then codes "# Session — "
          ++ (locale.date started_at
              ++ (codes ", "
                  ++ (locale.hhmm started_at
                      ++ (codes "–"
                          ++ (if ltb 0 ended_at then locale.hhmm ended_at else codes "?")))))
        else codes "# Session" in
      record {
        markdown =
            title
            ++ (10 ∷ 10 ∷ codes "_No events were recorded in this session._"
                ++ (rule_between ++ footer));
        summary = codes "Empty session (0 spoken lines across 0 apps).";
        blocks = [];
        provider = codes "rules";
        degraded = false;
      }

  -- The summary of a session with events.
  unfoldable pub rules_summary : List ObserverEvent → ℕ → Text
  unfolding pluralize fmt_duration count_spoken app_names_from
  rules_summary events duration_ms =
      pluralize (count_spoken events) (codes "spoken line") (codes "spoken lines")
      ++ (codes " across "
          ++ (pluralize (length (app_names_from [] events)) (codes "app") (codes "apps")
              ++ (codes " over " ++ (fmt_duration duration_ms ++ codes "."))))

  -- The time stamps of the first and the last event.
  abbrev pub duration_of : List ObserverEvent → ℕ
  duration_of events = (block_window events).1 - (block_window events).0

  -- The document around its blocks.
  unfoldable pub document : List ObserverEvent → List (Text × BlockRecord) → Compiled
  unfolding render_header rules_summary join_by
  document events rendered =
      let window = block_window events in
      let header =
        render_header (duration_of events) (app_names_from [] events) (length rendered) window.0
          window.1 in
      let body = join_by rule_between (map (λ (r : Text × BlockRecord). r.0) rendered) in
      record {
        markdown = header ++ (10 ∷ 10 ∷ body ++ (rule_between ++ footer));
        summary = rules_summary events (duration_of events);
        blocks = map (λ (r : Text × BlockRecord). r.1) rendered;
        provider = codes "rules";
        degraded = false;
      }

  -- `RulesCompiler.compile`; `none` is the exception of a block.
  unfoldable pub compile_events : ObserverSession → List ObserverEvent → Option Compiled
  unfolding render_empty_session render_blocks document split_blocks
  compile_events session [] = some (render_empty_session session)
  compile_events session (e ∷ l) = elim (render_blocks (split_blocks (e ∷ l)) 0) [
    | none ↦ none
    | some rendered ↦ some (document (e ∷ l) rendered)
  ]

  unfoldable pub compile : SessionBundle → Option Compiled
  unfolding compile_events
  compile bundle = compile_events bundle.session bundle.events
