-- ===== src/Chunker.antt =====
-- audio/chunker.py: `AudioChunker`, which hands the recorded audio to the streaming transcription in deltas.
-- The clock's values are left out of the published chunks.
pub mod Deltas
use agent_voca.Prelude.{
  ℕ, max, min, Bool, true, false, List, [], ◌∷◌, ◌++◌, ◌≡◌, refl, ap, sym, ◌∙◌, append_assoc,
  append-nil, length, drop, if◌then◌else◌, arith, Bool-cases, inl, inr, All,
}

abbrev pub Bytes : Type 0
Bytes = List ℕ

-- `AudioChunkEvent`
pub record AudioChunk : Type 0 where
  pub data_bytes : Bytes
  pub is_flush : Bool

pub record AudioChunker : Type 0 where
  pub chunk_ms : ℕ
  pub buffer : Bytes
  pub last_emit_pos : ℕ
  pub running : Bool
  pub published : List AudioChunk

-- `AudioChunker(event_bus, chunk_ms)`
abbrev pub init : ℕ → AudioChunker
init chunk_ms = record {
  chunk_ms = max 100 (min 2000 chunk_ms);
  buffer = [];
  last_emit_pos = 0;
  running = false;
  published = [];
}

abbrev pub start : AudioChunker → AudioChunker
start c = record c { buffer = []; last_emit_pos = 0; running = true }

unfoldable pub add_audio : Bytes → AudioChunker → AudioChunker
add_audio bytes c = if c.running then record c { buffer = c.buffer ++ bytes } else c

abbrev pub reset : AudioChunker → AudioChunker
reset c = record c { buffer = []; last_emit_pos = 0 }

-- `_get_delta`, where the audio thread appends the late bytes between the read and the deletion.
unfoldable pub get_delta : Bytes → AudioChunker → Bytes × AudioChunker
unfolding add_audio
get_delta late c =
    let end = length c.buffer in
    let delta = drop c.last_emit_pos c.buffer in
    let c' = add_audio late c in
    (delta, record c' { buffer = drop end c'.buffer; last_emit_pos = 0 })

abbrev pub publish : Bytes → Bool → AudioChunker → AudioChunker
publish bytes is_flush c = record c {
  published = c.published ++ record { data_bytes = bytes; is_flush = is_flush } ∷ [];
}

-- One turn of `_chunk_loop`, when its sleep is over.
unfoldable pub tick : Bytes → AudioChunker → AudioChunker
unfolding get_delta
tick late c =
    let (delta, c') = get_delta late c in
    if c.running then elim delta [ [] ↦ c' | d ∷ ds ↦ publish (d ∷ ds) false c' ] else c

-- `stop`
unfoldable pub stop : Bool → AudioChunker → AudioChunker
unfolding get_delta
stop flush c =
    let c₀ = record c { running = false } in
    let (delta, c') = get_delta [] c₀ in if flush then publish delta true c' else c₀
