-- ===== src/Observer/Compile/Llm.antt =====
-- observer/compile/openai_compatible.py: the compiler that asks a language model. What the service answers
-- is a parameter.
pub mod Kept
pub mod Silent
use agent_voca.Prelude.{
  ℕ, suc, ◌+◌, Bool, true, false, not, ◌&&◌, ◌||◌, Option, none, some, List, [], ◌∷◌, ◌++◌, ◌==◌,
  if◌then◌else◌, length, take, map, ltb,
}
use agent_voca.Text.{Text, Unicode, is_empty, strip, codes}
use agent_voca.Vocab.Dictionary.{starts_with}
use agent_voca.Observer.{
  ObserverEvent, ObserverSession, EventKind, utterance_ambient, utterance_dictated, keyframe,
  selection, focus_change, pause_start, pause_end, gap,
}
use agent_voca.Observer.Blocks.{split_blocks, block_window}
use agent_voca.Observer.Compile.{
  Locale, BlockRecord, Compiled, or_empty, text_or, join_by, splitlines, decimal,
}
use agent_voca.Observer.Compile.Records.{meta_text, meta_dropped}
use agent_voca.Observer.Compile.Rules.{render_empty_session, render_blocks, document, rule_between}
use agent_voca.Observer.Compile.Sidecar.{first_named}
use agent_voca.Observer.Compile.Prompts.{has_prefix, strip_unsafe_markdown}

-- The answers of the service to the block with an index and to the summaries (`none` is an exception of the
-- call), with `json.dumps` and `str.upper`.
pub record Remote : Type 0 where
  pub chat_block : ℕ → Text → Option Text
  pub chat_session : Text → Option Text
  pub dumps : List Text → Text
  pub upper : Text → Text

-- `_BLOCK_CHAR_BUDGET`
abbrev pub block_char_budget : ℕ
block_char_budget = 8000

-- `sum(len(line) for line in lines)`
unfoldable pub char_count : List Text → ℕ
char_count [] = 0
char_count (t ∷ l) = length t + char_count l

-- `text.split(":", 1)[1]`; without a colon it raises.
unfoldable pub after_colon : Text → Option Text
after_colon [] = none
after_colon (c ∷ t) = let rest = after_colon t in if c == b':' then some t else rest

-- What stands in front of the first `needle`
unfoldable pub before_first : Text → Text → Text
unfolding starts_with
before_first needle [] = []
before_first needle (c ∷ t) = elim (starts_with needle (c ∷ t)) [
  | some _ ↦ []
  | none ↦ c ∷ before_first needle t
]

module _ (u : Unicode) (locale : Locale) where
  abbrev stamped : ObserverEvent → Text → Text
  stamped e t = codes "[" ++ (decimal e.ts_ms ++ (codes "] " ++ t))

  -- The lines that are not blank.
  unfoldable pub written_lines : List Text → List Text
  unfolding strip
  written_lines [] = []
  written_lines (t ∷ l) =
      let rest = written_lines l in if is_empty (strip u t) then rest else t ∷ rest

  -- The line of an event, by its kind; `none` is the exception of `int`.
  unfoldable pub event_line : EventKind → ObserverEvent → Option Text
  unfolding meta_text meta_dropped written_lines join_by splitlines decimal strip
  event_line utterance_ambient e = some (stamped e (codes "[said/ambient] " ++ or_empty e.text))
  event_line utterance_dictated e = some (stamped e (codes "[said/dictated] " ++ or_empty e.text))
  event_line selection e = some (stamped e (codes "[highlighted] " ++ or_empty e.text))
  event_line keyframe e =
      let lines = take 2 (written_lines (splitlines (strip u (or_empty e.text)))) in
      some (
        stamped e (
          codes "[on_screen/"
          ++ (meta_text locale e (codes "trigger") (codes "window_change")
              ++ (codes "] " ++ join_by (codes " | ") lines))))
  event_line pause_start e = some (
      stamped e
        (codes "[pause_start] reason=" ++ meta_text locale e (codes "reason") (codes "hotkey")))
  event_line pause_end e = some (stamped e (codes "[pause_end]"))
  event_line gap e = elim (meta_dropped locale e) [
    | none ↦ none
    | some n ↦ some (
        stamped e (
          codes "[gap] reason="
          ++ (meta_text locale e (codes "reason") (codes "asr_queue_full")
              ++ (codes " dropped=" ++ decimal n))))
  ]
  event_line focus_change e = some (
      stamped e (
        codes "[focus_change] app="
        ++ (elim e.app_name [ none ↦ codes "None" | some t ↦ t ]
            ++ (codes " prev=" ++ meta_text locale e (codes "previous_app") []))))

  -- The loop over the events, until the budget is used up.
  unfoldable pub serialise_events : List ObserverEvent → List Text → Option (List Text)
  unfolding event_line char_count
  serialise_events [] lines = some lines
  serialise_events (e ∷ l) lines =
      let further : Option (List Text) = elim (event_line e.kind e) [
        | none ↦ none
        | some t ↦ serialise_events l (lines ++ t ∷ [])
      ] in
      if ltb block_char_budget (char_count lines)
      then some (lines ++ codes "... (further events omitted for length)" ∷ [])
      else further

  -- `_serialise_block_for_llm`
  unfoldable pub serialise_block : List ObserverEvent → Option Text
  unfolding serialise_events first_named join_by decimal block_window
  serialise_block block =
      let window = block_window block in
      let app = text_or (first_named (λ (e : ObserverEvent). e.app_name) block) (codes "unknown") in
      let title =
        text_or (first_named (λ (e : ObserverEvent). e.window_title) block) (codes "(none)") in
      let head =
        (codes "App: " ++ app)
        ∷ (codes "Window title: " ++ title)
        ∷ (codes "Block window: "
            ++ (decimal window.0 ++ (codes " -> " ++ (decimal window.1 ++ codes " ms"))))
        ∷ []
        ∷ [] in
      elim block [
        | [] ↦ some (codes "(empty block)")
        | e ∷ l ↦ elim (serialise_events (e ∷ l) head) [
          | none ↦ none
          | some lines ↦ some (join_by (10 ∷ []) lines)
        ]
      ]

  module _ (remote : Remote) where
    -- `_parse_block_response`: the loop over the lines
    unfoldable pub parse_lines : List Text → List Text → Text → Option (List Text × Text)
    unfolding after_colon strip starts_with
    parse_lines [] body summary = some (body, summary)
    parse_lines (line ∷ l) body summary =
        let stripped = strip u line in
        let marked : Option (List Text × Text) = elim (after_colon stripped) [
          | none ↦ none
          | some t ↦ parse_lines l body (strip u t)
        ] in
        let further = parse_lines l (body ++ line ∷ []) summary in
        if has_prefix (codes "SUMMARY:") (remote.upper stripped) then marked else further

    unfoldable pub parse_block_response : Text → Option (Text × Text)
    unfolding parse_lines splitlines join_by strip
    parse_block_response [] = some ([], [])
    parse_block_response (c ∷ t) = elim (parse_lines (splitlines (c ∷ t)) [] []) [
      | none ↦ none
      | some r ↦ some (strip u (join_by (10 ∷ []) r.0), r.1)
    ]

    -- What the `try` of `_compile_one_block` gives: the body and the summary.
    unfoldable pub ask_block : List ObserverEvent → ℕ → Option (Text × Text)
    unfolding serialise_block parse_block_response strip_unsafe_markdown
    ask_block block index = elim (serialise_block block) [
      | none ↦ none
      | some input ↦ elim (remote.chat_block index input) [
        | none ↦ none
        | some raw ↦ elim (parse_block_response raw) [
          | none ↦ none
          | some r ↦ some (strip_unsafe_markdown u r.0, r.1)
        ]
      ]
    ]

    -- `_compile_one_block`, behind the rules rendering of the block
    unfoldable pub stitch : Option (Text × Text) → Text × BlockRecord → Text × Text × BlockRecord
    stitch none rendered = (rendered.0, [], rendered.1)
    stitch (some (body, summary)) rendered = (
      (if is_empty body then rendered.0 else body ++ 10 ∷ 10 ∷ rendered.0),
      summary,
      record rendered.1 { summary = summary },
    )

    -- The blocks with their renderings, gathered in their order.
    unfoldable pub compile_blocks :
        List (List ObserverEvent) → List (Text × BlockRecord) → ℕ → List (Text × Text × BlockRecord)
    unfolding ask_block stitch
    compile_blocks [] rendered index = []
    compile_blocks (b ∷ bs) [] index = []
    compile_blocks (b ∷ bs) (r ∷ rs) index =
        stitch (ask_block b index) r ∷ compile_blocks bs rs (suc index)

    abbrev pub summaries_of : List (Text × Text × BlockRecord) → List Text
    summaries_of results = map (λ (r : Text × Text × BlockRecord). r.1) results

    -- `not summary`, of some block
    unfoldable pub some_empty : List Text → Bool
    some_empty [] = false
    some_empty (t ∷ l) = is_empty t || some_empty l

    -- `any(block_summaries)`
    unfoldable pub some_given : List Text → Bool
    some_given [] = false
    some_given (t ∷ l) = not (is_empty t) || some_given l

    -- The summary of the session, and whether the call raised.
    unfoldable pub ask_session : List Text → Text × Bool
    unfolding some_given strip_unsafe_markdown strip
    ask_session summaries =
        let answer : Text × Bool = elim (remote.chat_session (remote.dumps summaries)) [
          | none ↦ ([], true)
          | some raw ↦ (strip u (strip_unsafe_markdown u raw), false)
        ] in
        if some_given summaries then answer else ([], false)

    -- The document, with the rules compiler's for its header and its summary.
    unfoldable pub assemble : List (Text × Text × BlockRecord) → Compiled → Compiled
    unfolding ask_session some_empty before_first join_by
    assemble results rules =
        let session = ask_session (summaries_of results) in
        let any_degraded = some_empty (summaries_of results) || (session.1 || is_empty session.0) in
        let header = before_first (codes "---" ++ 10 ∷ 10 ∷ []) rules.markdown in
        let body =
          join_by (rule_between u locale) (map (λ (r : Text × Text × BlockRecord). r.0) results) in
        let note =
          if any_degraded
          then codes "degraded: some blocks used rules rendering"
          else codes "LLM summarization" in
        record {
          markdown =
              header
              ++ (10 ∷ 10 ∷ body
                  ++ (rule_between u locale
                      ++ (codes "*Compiled by AgentVoca v"
                          ++ (locale.version
                              ++ (codes " · openai_compatible compiler · "
                                  ++ (note ++ codes "*"))))));
          summary = text_or session.0 rules.summary;
          blocks = map (λ (r : Text × Text × BlockRecord). r.2) results;
          provider = codes "openai_compatible";
          degraded = any_degraded;
        }

    -- `compile`; `none` is the exception of a block's rendering, which no handler of it catches.
    unfoldable pub compile_with_llm : ObserverSession → List ObserverEvent → Option Compiled
    unfolding render_empty_session render_blocks compile_blocks assemble document split_blocks
    compile_with_llm session [] = some (render_empty_session u locale session)
    compile_with_llm session (e ∷ l) =
        let blocks = split_blocks (e ∷ l) in
        elim (render_blocks u locale blocks 0) [
          | none ↦ none
          | some rendered ↦
              some
                (assemble (compile_blocks blocks rendered 0) (document u locale (e ∷ l) rendered))
        ]
