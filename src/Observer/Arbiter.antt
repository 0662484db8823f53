-- ===== src/Observer/Arbiter.antt =====
-- observer/arbiter.py: the bounded queue of ambient jobs, the dictation's priority, and the worker.
pub mod Queue
pub mod Worker
use agent_voca.Prelude.{
  ℕ, suc, ◌+◌, Bool, true, false, ◌&&◌, Option, none, some, List, [], ◌∷◌, ◌++◌, length, ltb, leb,
  if◌then◌else◌,
}
use agent_voca.Text.{Text}
use agent_voca.Orchestrator.{Answer, returned, provider_error, other_error, cancelled}

-- `_AmbientJob`
pub record AmbientJob : Type 0 where
  pub audio : List ℕ
  pub ts_ms : ℕ
  pub duration_ms : ℕ
  pub sample_rate : ℕ

-- What `on_text` was called with.
pub record Heard : Type 0 where
  pub text : Text
  pub ts_ms : ℕ
  pub duration_ms : ℕ

-- The fields of `ASRArbiter`, and the job that its worker has taken; `none` in the queue is the sentinel
-- of `stop`.
pub record Arbiter : Type 0 where
  pub queue : List (Option AmbientJob)
  pub in_hand : Option AmbientJob
  pub maxsize : ℕ
  pub dictation_idle : Bool
  pub has_loop : Bool
  pub running : Bool
  pub dropped : ℕ
  pub heard : List Heard

-- `ASRArbiter(provider, queue_depth)`
abbrev pub init : ℕ → Arbiter
init queue_depth = record {
  queue = [];
  in_hand = none;
  maxsize = queue_depth;
  dictation_idle = true;
  has_loop = false;
  running = false;
  dropped = 0;
  heard = [];
}

-- `asyncio.Queue.full`: a queue of maximum size 0 is never full.
abbrev pub is_full : Arbiter → Bool
is_full a = ltb 0 a.maxsize && leb a.maxsize (length a.queue)

-- `put_nowait`, if the queue is not full
abbrev pub put : Option AmbientJob → Arbiter → Arbiter
put job a = record a { queue = a.queue ++ job ∷ [] }

-- `start`, called from the loop
unfoldable pub start : Arbiter → Arbiter
start a = if a.running then a else record a { has_loop = true; running = true }

-- `_enqueue_via_loop`
unfoldable pub enqueue_via_loop : AmbientJob → Arbiter → Arbiter
enqueue_via_loop job a =
    let count_drop : Arbiter → Arbiter = λ b. record b { dropped = b.dropped + 1 } in
    let put_again : Arbiter → Arbiter = λ b. if is_full b then b else put (some job) b in
    if is_full a
    then elim a.queue [
      | [] ↦ count_drop a
      | oldest ∷ rest ↦ count_drop (put_again (record a { queue = rest }))
    ]
    else put (some job) a

-- `submit_ambient`, with the callback that the loop runs
unfoldable pub submit_ambient : AmbientJob → Arbiter → Bool × Arbiter
unfolding enqueue_via_loop
submit_ambient job a = if a.has_loop then (true, enqueue_via_loop job a) else (false, a)

-- The sentinel that `stop` puts, in place of the oldest job if the queue is full.
unfoldable pub put_sentinel : Arbiter → Arbiter
put_sentinel a =
    if is_full a
    then elim a.queue [ [] ↦ a | oldest ∷ rest ↦ put none (record a { queue = rest }) ]
    else put none a

-- What the worker does with the answer for a job.
unfoldable pub deliver : AmbientJob → Answer Text → Arbiter → Arbiter
deliver job (returned text) a = record a {
  heard = a.heard ++ record { text = text; ts_ms = job.ts_ms; duration_ms = job.duration_ms } ∷ [];
}
deliver job provider_error a = a
deliver job other_error a = a
deliver job cancelled a = record a { running = false }

-- One turn of the worker: it takes a job, or ends at the sentinel; with a job in hand it waits while a
-- dictation is being transcribed.
unfoldable pub work : (AmbientJob → Answer Text) → Arbiter → Arbiter
unfolding deliver
work transcribe a = elim a.in_hand [
  | some job ↦
      if a.running && a.dictation_idle
      then deliver job (transcribe job) (record a { in_hand = none })
      else a
  | none ↦ elim a.queue [
    | [] ↦ a
    | none ∷ rest ↦ if a.running then record a { queue = rest; running = false } else a
    | some job ∷ rest ↦ if a.running then record a { queue = rest; in_hand = some job } else a
  ]
]

-- `transcribe_priority`: what the arbiter is while the provider works, and when it has answered.
abbrev pub begin_priority : Arbiter → Arbiter
begin_priority a = record a { dictation_idle = false }

abbrev pub end_priority : Arbiter → Arbiter
end_priority a = record a { dictation_idle = true }
