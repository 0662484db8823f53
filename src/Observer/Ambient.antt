-- ===== src/Observer/Ambient.antt =====
-- observer/audio.py: `AmbientListener`, which cuts the ambient microphone into utterances. The voice
-- detector's answer for a block is an argument; the queue between the threads is the order of the
-- blocks.
pub mod Laws
pub mod Cap
use agent_voca.Prelude.{
  ℕ, suc, ◌+◌, ◌-◌, max, Bool, true, false, Option, none, some, List, [], ◌∷◌, ◌++◌, map, length,
  ltb, leb, if◌then◌else◌, drop, is_some,
}

abbrev pub Audio : Type 0
Audio = List ℕ

pub data ListenerState : Type 0 where
  idle speaking : ListenerState

pub record Utterance : Type 0 where
  pub audio : Audio
  pub ts_ms : ℕ
  pub duration_ms : ℕ

-- The settings of the listener; `preroll_blocks` is computed from `preroll_ms`.
pub record Settings : Type 0 where
  pub silence_timeout_ms : ℕ
  pub min_utterance_ms : ℕ
  pub max_utterance_ms : ℕ
  pub preroll_blocks : ℕ

-- The fields that the worker reads and writes, the utterances that it has emitted, and the calls of
-- `on_speech_onset`.
pub record Listener : Type 0 where
  pub state : ListenerState
  pub preroll : List (Audio × ℕ)
  pub utterance : List Audio
  pub utterance_start_ts_ms : ℕ
  pub silence_start_ts_ms : Option ℕ
  pub last_ts_ms : ℕ
  pub utterance_count : ℕ
  pub emitted : List Utterance
  pub onsets : ℕ

abbrev pub init : Listener
init = record {
  state = idle;
  preroll = [];
  utterance = [];
  utterance_start_ts_ms = 0;
  silence_start_ts_ms = none;
  last_ts_ms = 0;
  utterance_count = 0;
  emitted = [];
  onsets = 0;
}

-- `b"".join(blocks)`
unfoldable pub join : List Audio → Audio
join [] = []
join (b ∷ bs) = b ++ join bs

-- `deque(maxlen=...)`: appending to a full one drops its oldest item.
unfoldable pub push_preroll : ℕ → List (Audio × ℕ) → Audio × ℕ → List (Audio × ℕ)
push_preroll maxlen l b = drop (suc (length l) - maxlen) (l ++ b ∷ [])

-- `self._preroll[0][1]`, or the time of the block
unfoldable pub start_ts : List (Audio × ℕ) → ℕ → ℕ
start_ts [] ts_ms = ts_ms
start_ts ((_, t) ∷ _) ts_ms = t

-- `_reset_to_idle`
abbrev pub reset_to_idle : Listener → Listener
reset_to_idle s = record s {
  state = idle;
  utterance = [];
  silence_start_ts_ms = none;
  preroll = [];
}

module _ (cfg : Settings) where
  -- `_emit_utterance`
  unfoldable pub emit_utterance : Listener → Listener
  unfolding join
  emit_utterance s =
      let duration_ms = s.last_ts_ms - s.utterance_start_ts_ms in
      let u : Utterance = record {
        audio = join s.utterance;
        ts_ms = s.utterance_start_ts_ms;
        duration_ms = duration_ms;
      } in
      elim s.utterance [
        | [] ↦ s
        | _ ∷ _ ↦
            if ltb duration_ms cfg.min_utterance_ms then record s { utterance = [] } else record s {
              utterance = [];
              utterance_count = s.utterance_count + 1;
              emitted = s.emitted ++ u ∷ [];
            }
      ]

  -- A block while idle.
  unfoldable pub process_idle : Audio → ℕ → Bool → Listener → Listener
  unfolding push_preroll start_ts
  process_idle audio_bytes ts_ms is_speech s =
      if is_speech
      then record s {
        state = speaking;
        utterance = map (λ b. b.0) s.preroll ++ audio_bytes ∷ [];
        utterance_start_ts_ms = start_ts s.preroll ts_ms;
        preroll = [];
        silence_start_ts_ms = none;
        onsets = s.onsets + 1;
      }
      else record s { preroll = push_preroll cfg.preroll_blocks s.preroll (audio_bytes, ts_ms) }

  -- The start of the silence that the block is in.
  unfoldable pub silence_from : Option ℕ → ℕ → Bool → Option ℕ
  silence_from _ ts_ms true = none
  silence_from none ts_ms false = some ts_ms
  silence_from (some t) ts_ms false = some t

  -- `(ts_ms - self._silence_start_ts_ms) >= self._silence_timeout_ms`
  unfoldable pub is_silent_long : Option ℕ → ℕ → Bool
  is_silent_long none ts_ms = false
  is_silent_long (some t) ts_ms = leb (t + cfg.silence_timeout_ms) ts_ms

  -- The cap: the utterance is emitted, and a new one begins with the same block.
  unfoldable pub split_utterance : Audio → ℕ → Listener → Listener
  unfolding emit_utterance
  split_utterance audio_bytes ts_ms s = record (emit_utterance s) {
    utterance = audio_bytes ∷ [];
    utterance_start_ts_ms = ts_ms;
    silence_start_ts_ms = none;
  }

  -- A block while speaking.
  unfoldable pub process_speaking : Audio → ℕ → Bool → Listener → Listener
  unfolding silence_from is_silent_long split_utterance emit_utterance
  process_speaking audio_bytes ts_ms is_speech s =
      let s' = record s {
        utterance = s.utterance ++ audio_bytes ∷ [];
        silence_start_ts_ms = silence_from s.silence_start_ts_ms ts_ms is_speech;
      } in
      if is_silent_long s'.silence_start_ts_ms ts_ms
      then reset_to_idle (emit_utterance s')
      else if leb (s'.utterance_start_ts_ms + cfg.max_utterance_ms) ts_ms
      then split_utterance audio_bytes ts_ms s'
      else s'

  -- `_process_block`
  unfoldable pub process_block : Audio → ℕ → Bool → Listener → Listener
  unfolding process_idle process_speaking
  process_block audio_bytes ts_ms is_speech s =
      let s' = record s { last_ts_ms = ts_ms } in
      elim s.state [
        | idle ↦ process_idle audio_bytes ts_ms is_speech s'
        | speaking ↦ process_speaking audio_bytes ts_ms is_speech s'
      ]

  -- The sentinels of `flush` and `stop` in the worker's loop.
  unfoldable pub on_flush : Listener → Listener
  unfolding emit_utterance
  on_flush s = elim s.state [ idle ↦ reset_to_idle s | speaking ↦ reset_to_idle (emit_utterance s) ]

  unfoldable pub on_stop : Listener → Listener
  unfolding emit_utterance
  on_stop s = elim s.state [ idle ↦ s | speaking ↦ emit_utterance s ]
