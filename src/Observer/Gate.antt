-- ===== src/Observer/Gate.antt =====
-- observer/triggers.py: `TriggerGate`, the rate limit of the screen captures. The clock counts
-- milliseconds; a token is 60000 units, so that the bucket refills by its capacity in units for each
-- millisecond, `max_keyframes_per_min / 60` tokens a second.
pub mod Rate
use agent_voca.Prelude.{
  ℕ, ◌+◌, ◌-◌, ◌*◌, min, Bool, true, false, ◌&&◌, ◌||◌, not, Option, none, some, ltb, if◌then◌else◌,
}

abbrev pub token : ℕ
token = 60000

-- The fields of `TriggerGate`; the times "infinitely in the past" are `none`.
pub record Gate : Type 0 where
  pub min_interval_ms : ℕ
  pub capacity : ℕ
  pub tokens : ℕ
  pub last_accepted : Option ℕ
  pub last_refill : Option ℕ
  pub accepted : ℕ
  pub dropped : ℕ
  pub gaps : ℕ

-- `TriggerGate(min_interval_ms, max_keyframes_per_min)`
abbrev pub init : ℕ → ℕ → Gate
init min_interval_ms max_keyframes_per_min = record {
  min_interval_ms = min_interval_ms;
  capacity = max_keyframes_per_min;
  tokens = max_keyframes_per_min * token;
  last_accepted = none;
  last_refill = none;
  accepted = 0;
  dropped = 0;
  gaps = 0;
}

-- What the callables of the gate answer to a request: a session is open, it is paused, the
-- foreground is excluded, and the capture queue has room.
pub record Answers : Type 0 where
  pub is_session_active : Bool
  pub is_paused : Bool
  pub is_excluded : Bool
  pub has_room : Bool

-- The tokens after the refill.
unfoldable pub refilled : Gate → ℕ → ℕ
refilled g now = elim g.last_refill [
  | none ↦ g.capacity * token
  | some t ↦ min (g.capacity * token) (g.tokens + g.capacity * (now - t))
]

-- `(now - self._last_accepted_t) * 1000.0 < self._min_interval_ms`
unfoldable pub is_too_soon : Gate → ℕ → Bool
is_too_soon g now = elim g.last_accepted [ none ↦ false | some t ↦ ltb (now - t) g.min_interval_ms ]

-- The part of `request` under the lock.
unfoldable pub take_token : Gate → ℕ → Bool × Gate
unfolding refilled is_too_soon
take_token g now =
    let tokens = refilled g now in
    let g' = record g { tokens = tokens; last_refill = some now } in
    if is_too_soon g now || ltb tokens token then (false, g') else (
      true,
      record g' { tokens = tokens - token; last_accepted = some now; accepted = g.accepted + 1 },
    )

-- The enqueueing behind the lock: a full queue counts as a drop, with a gap.
unfoldable pub enqueue : Answers → Bool × Gate → Bool × Gate
enqueue w (false, g) = (false, g)
enqueue w (true, g) =
    if w.has_room
    then (true, g)
    else (false, record g { dropped = g.dropped + 1; gaps = g.gaps + 1 })

-- `request`
unfoldable pub request : Answers → ℕ → Gate → Bool × Gate
unfolding take_token enqueue
request w now g =
    if not w.is_session_active || w.is_paused || w.is_excluded
    then (false, g)
    else enqueue w (take_token g now)
