-- ===== src/Orchestrator/Streaming/Fed.antt =====
-- From the microphone to the streaming provider.
use mathlib.Core.Path.{subst}
use agent_voca.Prelude.{
  drop, ℕ, Bool, true, false, Option, none, some, List, [], ◌∷◌, ◌++◌, ◌≡◌, refl, sym, ap, ◌∙◌,
  arith, append_assoc, append-nil, All, All-snoc, if◌then◌else◌, if-either, not, ◌||◌,
}
use agent_voca.Chunker.{
  Bytes, AudioChunk, AudioChunker, init, start, add_audio, get_delta, publish, tick, stop,
}
use agent_voca.Chunker.Deltas.{Happening, arrives, wakes, record_audio, fed, payload, stop-deltas}
use agent_voca.Orchestrator.Streaming.{Stream, put_data, on_audio_chunk, audio_chunk_iter}

-- The chunk events, in the order in which the bus delivers them.
unfoldable pub on_chunks : ℕ → List AudioChunk → Stream → Stream
unfolding on_audio_chunk
on_chunks sample_rate [] s = s
on_chunks sample_rate (c ∷ l) s = on_chunks sample_rate l (on_audio_chunk true sample_rate c s)

-- Some chunk is not a flush.
unfoldable pub is_begun : List AudioChunk → Bool
is_begun [] = false
is_begun (c ∷ l) = not c.is_flush || is_begun l

on_audio_chunk-active :
    (sample_rate : ℕ) (c : AudioChunk) (s : Stream)
    → (on_audio_chunk true sample_rate c s).orch.stream_active
      ≡ (s.orch.stream_active || not c.is_flush)
unfolding on_audio_chunk put_data
on_audio_chunk-active sample_rate c s = ground arith

-- The task of the stream is there as soon as a chunk that is not a flush has come.
pub on_chunks-active :
    (sample_rate : ℕ) (l : List AudioChunk) (s : Stream)
    → (on_chunks sample_rate l s).orch.stream_active ≡ (s.orch.stream_active || is_begun l)
unfolding on_chunks is_begun
on_chunks-active sample_rate [] s = ground arith
on_chunks-active sample_rate (c ∷ l) s = ground (
  arith,
  on_audio_chunk-active sample_rate c s,
  on_chunks-active sample_rate l (on_audio_chunk true sample_rate c s),
)

unfoldable pub concat : List Bytes → Bytes
concat [] = []
concat (b ∷ l) = b ++ concat l

-- No chunk before the last one is a flush.
abbrev AreDeltas : List AudioChunk → Type 0
AreDeltas l = All (λ (c : AudioChunk). c.is_flush ≡ false) l

get_delta-published :
    (late : Bytes) (c : AudioChunker) → (get_delta late c).1.published ≡ c.published
unfolding get_delta add_audio
get_delta-published late c = ground arith

tick-AreDeltas :
    (late : Bytes) (c : AudioChunker) → AreDeltas c.published → AreDeltas (tick late c).published
unfolding tick
tick-AreDeltas late c h =
    let c' = (get_delta late c).1 in
    let kept : AreDeltas c'.published = subst AreDeltas (sym (get_delta-published late c)) h in
    let P : AudioChunker → Type 0 = λ x. AreDeltas x.published in
    let taken =
      elim (get_delta late c).0
        as (λ delta. P (elim delta [ [] ↦ c' | d ∷ ds ↦ publish (d ∷ ds) false c' ])) [
          | [] ↦ kept
          | d ∷ ds ↦
              All-snoc (λ (x : AudioChunk). x.is_flush ≡ false) c'.published
                (record { data_bytes = d ∷ ds; is_flush = false }) kept refl
        ] in
    if-either P c.running taken h

add_audio-published :
    (bytes : Bytes) (c : AudioChunker) → (add_audio bytes c).published ≡ c.published
unfolding add_audio
add_audio-published bytes c = ground arith

record_audio-AreDeltas :
    (l : List Happening) (c : AudioChunker)
    → AreDeltas c.published
    → AreDeltas (record_audio l c).published
unfolding record_audio
record_audio-AreDeltas [] c h = h
record_audio-AreDeltas (arrives bytes ∷ l) c h =
    record_audio-AreDeltas l (add_audio bytes c)
      (subst AreDeltas (sym (add_audio-published bytes c)) h)
record_audio-AreDeltas (wakes late ∷ l) c h =
    record_audio-AreDeltas l (tick late c) (tick-AreDeltas late c h)

-- What a chunk puts into the queue.
unfoldable ended : Bytes → List (Option Bytes)
ended [] = none ∷ []
ended (b ∷ bs) = some (b ∷ bs) ∷ none ∷ []

unfoldable items : List AudioChunk → List (Option Bytes)
unfolding ended
items [] = []
items (c ∷ l) = (if c.is_flush then ended c.data_bytes else some c.data_bytes ∷ []) ++ items l

on_audio_chunk-queue :
    (sample_rate : ℕ) (c : AudioChunk) (s : Stream)
    → (on_audio_chunk true sample_rate c s).queue
      ≡ s.queue ++ (if c.is_flush then ended c.data_bytes else some c.data_bytes ∷ [])
unfolding on_audio_chunk put_data ended
on_audio_chunk-queue sample_rate c s = go c.is_flush c.data_bytes
  where
    go :
        (is_flush : Bool) (bytes : Bytes)
        → (on_audio_chunk true sample_rate
            (record { data_bytes = bytes; is_flush = is_flush })
            s).queue
          ≡ s.queue ++ (if is_flush then ended bytes else some bytes ∷ [])
    go true [] = refl
    go true (b ∷ bs) = append_assoc s.queue (some (b ∷ bs) ∷ []) (none ∷ [])
    go false bytes =
        if-either (λ (x : Stream). x.queue ++ some bytes ∷ [] ≡ s.queue ++ some bytes ∷ [])
          s.orch.stream_active refl refl

on_chunks-queue :
    (sample_rate : ℕ) (l : List AudioChunk) (s : Stream)
    → (on_chunks sample_rate l s).queue ≡ s.queue ++ items l
unfolding on_chunks items
on_chunks-queue sample_rate [] s = sym (append-nil s.queue)
on_chunks-queue sample_rate (c ∷ l) s =
    let item : List (Option Bytes) =
      if c.is_flush then ended c.data_bytes else some c.data_bytes ∷ [] in
    on_chunks-queue sample_rate l (on_audio_chunk true sample_rate c s)
    ∙ ap (λ q. q ++ items l) (on_audio_chunk-queue sample_rate c s)
    ∙ append_assoc s.queue item (items l)

-- Reading chunks that end with one flush.
audio_chunk_iter-flush :
    (bytes : Bytes)
    → let (chunks, rest) = audio_chunk_iter (ended bytes ++ []) in
      (concat chunks ≡ bytes ++ []) × (rest ≡ [])
unfolding audio_chunk_iter concat ended
audio_chunk_iter-flush [] = (refl, refl)
audio_chunk_iter-flush (b ∷ bs) = (refl, refl)

audio_chunk_iter-items :
    (l : List AudioChunk) (bytes : Bytes)
    → AreDeltas l
    → let all = l ++ record { data_bytes = bytes; is_flush = true } ∷ [] in
      let (chunks, rest) = audio_chunk_iter (items all) in
      (concat chunks ≡ payload all) × (rest ≡ [])
unfolding items payload audio_chunk_iter concat
audio_chunk_iter-items [] bytes h = audio_chunk_iter-flush bytes
audio_chunk_iter-items (c ∷ l) bytes h =
    let all = l ++ record { data_bytes = bytes; is_flush = true } ∷ [] in
    let (read, rest) = audio_chunk_iter-items l bytes h.1 in
    let first : items (c ∷ all) ≡ some c.data_bytes ∷ items all =
      ap (λ b. (if b then ended c.data_bytes else some c.data_bytes ∷ []) ++ items all) h.0 in
    subst
      (λ (q : List (Option Bytes)).
        (concat (audio_chunk_iter q).0 ≡ payload (c ∷ all)) × ((audio_chunk_iter q).1 ≡ []))
      (sym first) (ap (λ x. c.data_bytes ++ x) read, rest)

-- Whatever the order in which audio arrives and the chunker wakes: when the recording is stopped with a
-- flush, the chunks that the streaming provider reads from the queue hold, one after the other, exactly
-- the audio that was fed; the end of the stream stands behind them, and nothing is left in the queue.
pub streamed-fed :
    (chunk_ms sample_rate : ℕ) (l : List Happening) (s : Stream)
    → s.queue ≡ []
    → let chunks = (stop true (record_audio l (start (init chunk_ms)))).published in
      let (read, rest) = audio_chunk_iter (on_chunks sample_rate chunks s).queue in
      (concat read ≡ fed l) × (rest ≡ [])
unfolding stop get_delta add_audio
streamed-fed chunk_ms sample_rate l s h =
    let c = record_audio l (start (init chunk_ms)) in
    let bytes = drop c.last_emit_pos c.buffer in
    let chunks = c.published ++ record { data_bytes = bytes; is_flush = true } ∷ [] in
    let queued : (on_chunks sample_rate chunks s).queue ≡ items chunks =
      on_chunks-queue sample_rate chunks s ∙ ap (λ q. q ++ items chunks) h in
    let (read, rest) =
      audio_chunk_iter-items c.published bytes
        (record_audio-AreDeltas l (start (init chunk_ms)) tt) in
    (
      ap (λ (q : List (Option Bytes)). concat (audio_chunk_iter q).0) queued
          ∙ read
          ∙ stop-deltas chunk_ms l,
      ap (λ (q : List (Option Bytes)). (audio_chunk_iter q).1) queued ∙ rest,
    )
