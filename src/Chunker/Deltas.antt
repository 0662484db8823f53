-- ===== src/Chunker/Deltas.antt =====
-- The deltas of the chunker make up the recording.
use mathlib.Core.Path.{subst}
use agent_voca.Prelude.{
  ℕ, true, false, List, [], ◌∷◌, ◌++◌, ◌≡◌, refl, ap, sym, ◌∙◌, append_assoc, append-nil, length,
  drop, arith,
}
use agent_voca.Chunker.{
  Bytes, AudioChunk, AudioChunker, init, start, add_audio, get_delta, publish, tick, stop,
}

-- What happens to a chunker that records: audio arrives, or the loop's sleep is over while late bytes
-- arrive.
pub data Happening : Type 0 where
  arrives : Bytes → Happening
  wakes : Bytes → Happening

unfoldable pub record_audio : List Happening → AudioChunker → AudioChunker
unfolding add_audio tick
record_audio [] c = c
record_audio (arrives bytes ∷ l) c = record_audio l (add_audio bytes c)
record_audio (wakes late ∷ l) c = record_audio l (tick late c)

-- The audio that was fed.
unfoldable pub fed : List Happening → Bytes
fed [] = []
fed (arrives bytes ∷ l) = bytes ++ fed l
fed (wakes late ∷ l) = late ++ fed l

-- The audio of the published chunks.
unfoldable pub payload : List AudioChunk → Bytes
payload [] = []
payload (c ∷ l) = c.data_bytes ++ payload l

payload-append :
    (l : List AudioChunk) (c : AudioChunk) → payload (l ++ c ∷ []) ≡ payload l ++ c.data_bytes
unfolding payload
payload-append [] c = append-nil c.data_bytes
payload-append (x ∷ l) c =
    ap (◌++◌ x.data_bytes) (payload-append l c)
    ∙ sym (append_assoc x.data_bytes (payload l) c.data_bytes)

drop-length : (xs ys : Bytes) → drop (length xs) (xs ++ ys) ≡ ys
drop-length [] ys = refl
drop-length (x ∷ xs) ys = drop-length xs ys

-- What was published and what waits make up what was fed.
abbrev IsWhole : Bytes → AudioChunker → Type 0
IsWhole heard c =
    (c.running ≡ true) × (c.last_emit_pos ≡ 0) × (payload c.published ++ c.buffer ≡ heard)

add_audio-IsWhole :
    (heard bytes : Bytes) (c : AudioChunker)
    → IsWhole heard c
    → IsWhole (heard ++ bytes) (add_audio bytes c)
unfolding add_audio
add_audio-IsWhole heard bytes c (r, p, w) =
    let e : add_audio bytes c ≡ record c { buffer = c.buffer ++ bytes } = ground (arith, r) in
    subst (IsWhole (heard ++ bytes)) (sym e)
      (r, p, sym (append_assoc (payload c.published) c.buffer bytes) ∙ ap (λ a. a ++ bytes) w)

tick_empty :
    (late : Bytes) (c : AudioChunker)
    → c.running ≡ true
    → c.last_emit_pos ≡ 0
    → c.buffer ≡ []
    → tick late c ≡ record c { buffer = late; last_emit_pos = 0 }
unfolding tick get_delta add_audio
tick_empty late c r p e = ground (arith, r, p, e)

tick_some :
    (late : Bytes) (c : AudioChunker) (b : ℕ) (bs : Bytes)
    → c.running ≡ true
    → c.last_emit_pos ≡ 0
    → c.buffer ≡ b ∷ bs
    → tick late c ≡ publish c.buffer false (record c { buffer = late; last_emit_pos = 0 })
unfolding tick get_delta add_audio
tick_some late c b bs r p e = ground (arith, r, p, e, drop-length bs late)

tick-IsWhole_of :
    (heard late buffer : Bytes) (c : AudioChunker)
    → c.buffer ≡ buffer
    → IsWhole heard c
    → IsWhole (heard ++ late) (tick late c)
tick-IsWhole_of heard late [] c e (r, p, w) =
    let kept : payload c.published ≡ heard =
      sym (append-nil (payload c.published)) ∙ ap (λ b. payload c.published ++ b) (sym e) ∙ w in
    subst (IsWhole (heard ++ late)) (sym (tick_empty late c r p e))
      (r, refl, ap (λ a. a ++ late) kept)
tick-IsWhole_of heard late (b ∷ bs) c e (r, p, w) =
    subst (IsWhole (heard ++ late)) (sym (tick_some late c b bs r p e))
      (r, refl, ap (λ a. a ++ late) (payload-append c.published _ ∙ w))

record_audio-IsWhole :
    (heard : Bytes) (l : List Happening) (c : AudioChunker)
    → IsWhole heard c
    → IsWhole (heard ++ fed l) (record_audio l c)
unfolding record_audio fed
record_audio-IsWhole heard [] c w = subst (λ h. IsWhole h c) (sym (append-nil heard)) w
record_audio-IsWhole heard (arrives bytes ∷ l) c w =
    subst (λ h. IsWhole h (record_audio l (add_audio bytes c))) (append_assoc heard bytes (fed l))
      (record_audio-IsWhole (heard ++ bytes) l (add_audio bytes c)
        (add_audio-IsWhole heard bytes c w))
record_audio-IsWhole heard (wakes late ∷ l) c w =
    subst (λ h. IsWhole h (record_audio l (tick late c))) (append_assoc heard late (fed l))
      (record_audio-IsWhole (heard ++ late) l (tick late c)
        (tick-IsWhole_of heard late c.buffer c refl w))

stop-payload :
    (heard : Bytes) (c : AudioChunker) → IsWhole heard c → payload (stop true c).published ≡ heard
unfolding stop get_delta add_audio
stop-payload heard c (r, p, w) =
    payload-append c.published _ ∙ ap (λ n. payload c.published ++ drop n c.buffer) p ∙ w

-- Whatever the order in which audio arrives and the loop wakes, also when audio arrives while a delta
-- is being taken: the chunks that a recording publishes until it is stopped with a flush hold, one
-- after the other, exactly the audio that was fed.
pub stop-deltas :
    (chunk_ms : ℕ) (l : List Happening)
    → payload (stop true (record_audio l (start (init chunk_ms)))).published ≡ fed l
unfolding payload
stop-deltas chunk_ms l =
    stop-payload (fed l) (record_audio l (start (init chunk_ms)))
      (record_audio-IsWhole [] l (start (init chunk_ms)) (refl, refl, refl))
