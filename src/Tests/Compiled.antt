-- ===== src/Tests/Compiled.antt =====
-- The compilers of a recorded session at concrete inputs.
use agent_voca.Prelude.{All, true, false, none, some, List, [], ◌∷◌, ◌≡◌, refl, if◌then◌else◌, ◌==◌}
use agent_voca.Text.{ascii, codes, text_eq}
use agent_voca.Vocab.Dictionary.{get}
use agent_voca.Observer.{
  ObserverEvent, ObserverSession, closed, focus_change, gap, pause_end, utterance_dictated,
}
use agent_voca.Observer.Compile.{Locale, Compiled}
use agent_voca.Observer.Compile.Records.{meta_dropped}
use agent_voca.Observer.Compile.Rules.{compile_events}
use agent_voca.Observer.Compile.Rules.Complete.{HoldsAll}
use agent_voca.Observer.Compile.Rules.Total.{CountsDropped, compile_events-IsComplete}
use agent_voca.Observer.Compile.Sidecar.{build_blocks}
use agent_voca.Observer.Compile.Sidecar.Agreement.{BothAgree, blocks_of, build_blocks-BothAgree}
use agent_voca.Observer.Compile.Llm.{Remote, compile_with_llm}
use agent_voca.Observer.Compile.Llm.Kept.{compile_with_llm-IsComplete}
use agent_voca.Observer.Compile.Llm.Silent.{compile_with_llm-silent}

-- Noon, and values of `meta` that are texts; the text 3 is the only number.
abbrev locale : Locale
locale = record {
  hhmm = λ t. codes "12:00";
  date = λ t. codes "28 Jul 2026";
  as_text = λ t. t;
  is_truthy = λ t. false;
  as_int = λ t. if text_eq t (codes "3") then some 3 else none;
  version = codes "0.4.0";
}

abbrev session : ObserverSession
session = record {
  id = 1;
  uuid = codes "u";
  started_at_ms = 100;
  ended_at_ms = some 900;
  status = closed;
  app_version = codes "0.4.0";
  schema_version = 1;
}

abbrev focus : ObserverEvent
focus = record {
  id = 0;
  session_id = 1;
  ts_ms = 100;
  kind = focus_change;
  app_name = some (codes "code.exe");
  window_title = none;
  text = none;
  blob_path = none;
  meta = [];
}

abbrev speech : ObserverEvent
speech = record focus { kind = utterance_dictated; ts_ms = 200; text = some (codes "hi") }

abbrev loss : ObserverEvent
loss = record focus { kind = gap; ts_ms = 300; meta = (codes "dropped", codes "3") ∷ [] }

abbrev resumed : ObserverEvent
resumed = record focus { kind = pause_end; ts_ms = 400 }

abbrev later : List ObserverEvent
later = speech ∷ loss ∷ resumed ∷ []

-- The one gap counts by a number.
counted : All (CountsDropped ascii locale) (focus ∷ later)
unfolding meta_dropped get text_eq
counted = ((0, refl), ((0, refl), ((3, refl), ((0, refl), tt))))

compile_events-IsComplete_example :
    (c : Compiled) × (compile_events ascii locale session (focus ∷ later) ≡ some c)
    × HoldsAll locale (focus ∷ later) c.blocks
compile_events-IsComplete_example =
    compile_events-IsComplete ascii locale session (focus ∷ later) counted

abbrev nothing_compiled : Compiled
nothing_compiled = record {
  markdown = [];
  summary = [];
  blocks = [];
  provider = codes "none";
  degraded = false;
}

build_blocks-BothAgree_example :
    BothAgree
      (blocks_of (compile_events ascii locale session (focus ∷ later)))
      (build_blocks locale nothing_compiled (focus ∷ later))
build_blocks-BothAgree_example =
    build_blocks-BothAgree ascii locale session (focus ∷ later) nothing_compiled

-- The service answers for the first block only.
abbrev remote : Remote
remote = record {
  chat_block = λ i input. if i == 0 then some (codes "SUMMARY: greets") else none;
  chat_session = λ input. none;
  dumps = λ l. [];
  upper = λ t. t;
}

compile_with_llm-IsComplete_example :
    (c : Compiled) × (compile_with_llm ascii locale remote session (focus ∷ later) ≡ some c)
    × HoldsAll locale (focus ∷ later) c.blocks
compile_with_llm-IsComplete_example =
    compile_with_llm-IsComplete ascii locale remote session (focus ∷ later) counted

abbrev silent : Remote
silent = record remote { chat_block = λ i input. none }

compile_with_llm-silent_example :
    (c r : Compiled) × (compile_with_llm ascii locale silent session (focus ∷ later) ≡ some c)
    × (compile_events ascii locale session (focus ∷ later) ≡ some r)
    × (c.blocks ≡ r.blocks)
    × (c.summary ≡ r.summary)
    × (c.degraded ≡ true)
compile_with_llm-silent_example =
    compile_with_llm-silent ascii locale silent (λ i input. refl) session focus later counted
