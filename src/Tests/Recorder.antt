-- ===== src/Tests/Recorder.antt =====
-- The recorder's parts at concrete inputs.
use agent_voca.Prelude.{
  true, false, none, some, [], ◌∷◌, ◌++◌, ◌≡◌, ◌≤◌, ◌*◌, ◌+◌, ◌-◌, refl, drop, map, arith, ℕ, List,
  All,
}
use agent_voca.Text.{codes}
use agent_voca.Observer.{
  ObserverEvent, ObserverSession, opened, keyframe, focus_change, gap, utterance_ambient,
}
use agent_voca.Observer.Blocks.{split_blocks}
use agent_voca.Observer.Blocks.Laws.{concat, IsBlock, IsSeparated, split_blocks-partition}
use agent_voca.Observer.Gate
use agent_voca.Observer.Gate.{Answers, token}
use agent_voca.Observer.Gate.Rate
use agent_voca.Observer.Gate.Rate.{IsForward, end_time, run-rate}
use agent_voca.Observer.Arbiter
use agent_voca.Observer.Arbiter.{AmbientJob}
use agent_voca.Observer.Arbiter.Queue.{submit_all, submit_all-keeps_latest}
use agent_voca.Observer.Ambient
use agent_voca.Observer.Ambient.{Settings, Listener, speaking, process_block, join}
use agent_voca.Observer.Ambient.Laws.{IsWellFormed, listen, listen-IsWellFormed}
use agent_voca.Observer.Ambient.Cap.{process_block-overlaps}
use agent_voca.Observer.Store.{Store, append, of_session, load_events, perform}
use agent_voca.Observer.Store.Order.{IsAscending, perform-in_order}
use agent_voca.Observer.Session.{Manager, Entry, event_of}
use agent_voca.Observer.Session.Laws.{let_through, record_all, record_all-let_through}
use agent_voca.Chunker
use agent_voca.Chunker.{start, stop}
use agent_voca.Chunker.Deltas.{arrives, wakes, record_audio, fed, payload, stop-deltas}

abbrev focus : ObserverEvent
focus = record {
  id = 0;
  session_id = 1;
  ts_ms = 100;
  kind = focus_change;
  app_name = some (codes "code.exe");
  window_title = none;
  text = none;
  blob_path = none;
  meta = [];
}

abbrev speech : ObserverEvent
speech = record focus { kind = utterance_ambient; ts_ms = 400500 }

split_blocks-partition_example :
    (concat (split_blocks (focus ∷ speech ∷ focus ∷ [])) ≡ focus ∷ speech ∷ focus ∷ [])
    × All IsBlock (split_blocks (focus ∷ speech ∷ focus ∷ []))
    × IsSeparated (split_blocks (focus ∷ speech ∷ focus ∷ []))
split_blocks-partition_example = split_blocks-partition (focus ∷ speech ∷ focus ∷ [])

abbrev willing : Answers
willing = record {
  is_session_active = true;
  is_paused = false;
  is_excluded = false;
  has_room = true;
}

run-rate_example :
    (Rate.run ((5000, willing) ∷ (9000, willing) ∷ []) (Gate.init 4000 4)).accepted * token
    ≤ 4 * token + 4 * (end_time 1000 ((5000, willing) ∷ (9000, willing) ∷ []) - 1000)
unfolding IsForward
run-rate_example =
    run-rate 4000 4 1000 ((5000, willing) ∷ (9000, willing) ∷ []) (omega arith, (omega arith, tt))

abbrev job_at : ℕ → AmbientJob
job_at t = record { audio = []; ts_ms = t; duration_ms = 500; sample_rate = 16000 }

submit_all-keeps_latest_example :
    ((submit_all (job_at 1 ∷ job_at 2 ∷ job_at 3 ∷ []) (Arbiter.init 2)).queue
      ≡ drop 1 (map some (job_at 1 ∷ job_at 2 ∷ job_at 3 ∷ [])))
    × ((submit_all (job_at 1 ∷ job_at 2 ∷ job_at 3 ∷ []) (Arbiter.init 2)).dropped ≡ 1)
submit_all-keeps_latest_example =
    submit_all-keeps_latest 2 (job_at 1 ∷ job_at 2 ∷ job_at 3 ∷ []) (omega arith)

abbrev settings : Settings
settings = record {
  silence_timeout_ms = 900;
  min_utterance_ms = 400;
  max_utterance_ms = 30000;
  preroll_blocks = 5;
}

listen-IsWellFormed_example :
    IsWellFormed settings
      (listen settings (some (1 ∷ [], 0, false) ∷ some (2 ∷ [], 64, true) ∷ none ∷ []) Ambient.init)
listen-IsWellFormed_example =
    listen-IsWellFormed settings (some (1 ∷ [], 0, false) ∷ some (2 ∷ [], 64, true) ∷ none ∷ [])

-- A monologue that has lasted half a minute.
abbrev monologue : Listener
monologue = record Ambient.init { state = speaking; utterance = (1 ∷ []) ∷ [] }

process_block-overlaps_example :
    ((process_block settings (2 ∷ []) 30000 true monologue).utterance ≡ (2 ∷ []) ∷ [])
    × ((process_block settings (2 ∷ []) 30000 true monologue).emitted
        ≡ record { audio = join ((1 ∷ []) ∷ []) ++ 2 ∷ []; ts_ms = 0; duration_ms = 30000 } ∷ [])
process_block-overlaps_example =
    process_block-overlaps settings (2 ∷ []) 30000 monologue refl (omega arith) (omega arith)

abbrev session : ObserverSession
session = record {
  id = 1;
  uuid = codes "u";
  started_at_ms = 50;
  ended_at_ms = none;
  status = opened;
  app_version = codes "0.4.0";
  schema_version = 1;
}

abbrev store : Store
store = record {
  started = true;
  queue = [];
  last_ts_ms = [];
  sessions = session ∷ [];
  events = [];
  next_session = 2;
  next_event = 1;
}

-- The second event has the clock of the first one.
perform-in_order_example :
    IsAscending (of_session 1 (perform (append focus ∷ append focus ∷ []) store).events)
    × (load_events 1 (perform (append focus ∷ append focus ∷ []) store)
        ≡ of_session 1 (perform (append focus ∷ append focus ∷ []) store).events)
unfolding of_session
perform-in_order_example = perform-in_order 1 (append focus ∷ append focus ∷ []) store (tt, tt)

abbrev entry : Entry
entry = record {
  kind = keyframe;
  app_name = none;
  window_title = none;
  text = none;
  blob_path = none;
  meta = [];
  ts_ms = 70;
}

abbrev paused : Manager
paused = record {
  store = store;
  current = some session;
  is_paused = true;
  pause_reason = codes "hotkey";
}

abbrev entries : List Entry
entries = entry ∷ record entry { kind = gap } ∷ []

record_all-let_through_example :
    (record_all entries paused).store.queue
    ≡ [] ++ map (λ e. append (event_of session e)) (let_through true entries)
record_all-let_through_example = record_all-let_through entries paused session refl

stop-deltas_example :
    payload
      (stop true (
        record_audio (arrives (1 ∷ []) ∷ wakes (2 ∷ []) ∷ []) (start (Chunker.init 500)))).published
    ≡ fed (arrives (1 ∷ []) ∷ wakes (2 ∷ []) ∷ [])
stop-deltas_example = stop-deltas 500 (arrives (1 ∷ []) ∷ wakes (2 ∷ []) ∷ [])
