-- ===== src/Whisper/Dictated.antt =====
-- From the microphone to the final segment: the chunker, the queue of the orchestrator and
-- asr/faster_whisper.py together.
use agent_voca.Prelude.{ℕ, Bool, false, Option, List, [], ◌∷◌}
use agent_voca.Text.{Text, Unicode}
use agent_voca.Orchestrator.{Env}
use agent_voca.Whisper.{Library, Settings, Provider}
use agent_voca.Whisper.Streaming.{Arrival, Streamed, stream_transcribe}

-- The chunks, with what the environment says of the partial transcription when each one comes.
unfoldable pub arrive : List Bool → List (List ℕ) → List Arrival
arrive schedule [] = []
arrive [] (c ∷ l) = record { chunk = c; is_done = false } ∷ arrive [] l
arrive (b ∷ schedule) (c ∷ l) = record { chunk = c; is_done = b } ∷ arrive schedule l

module _ (u : Unicode) (lib : Library) (settings : Settings) where
  module _ (env : Env) (schedule : List Bool) (in_time : Bool) (context : Option (Option Text))
      (p : Provider) where
    -- The provider on the chunks of a queue.
    abbrev pub streamed : List (List ℕ) → ℕ → Streamed
    streamed chunks rate =
        stream_transcribe u lib settings (arrive schedule chunks) in_time rate context p
