-- ===== src/Vad/Flips.antt =====
-- The speech events that audio/vad.py publishes alternate.
use mathlib.Core.Path.{subst, ap}
use agent_voca.Prelude.{
  ℕ, ◌≡◌, refl, sym, ◌∙◌, Bool, true, false, Bool-cases, inl, inr, Option, none, some, List, [],
  ◌∷◌, ◌++◌, append-nil, append_assoc, arith,
}
use agent_voca.Vad.{
  VadSpeechEvent, Silero, Vad, emit_transition, process_chunk, process_chunks, is_speech, flips,
}

-- Every event reports another state than the one before it, the first one than the last state known.
abbrev pub IsAlternating : Option Bool → List VadSpeechEvent → Type 0
IsAlternating last [] = Unit
IsAlternating last (e ∷ l) = (flips last e.is_speech ≡ true) × IsAlternating (some e.is_speech) l

-- The state that is known after the events.
abbrev pub last_state : Option Bool → List VadSpeechEvent → Option Bool
last_state last [] = last
last_state last (e ∷ l) = last_state (some e.is_speech) l

-- What is new on the bus: the events alternate, and the last one is the known state.
abbrev pub HasNew : Vad → Vad → List VadSpeechEvent → Type 0
HasNew v w l =
    (w.published ≡ v.published ++ l)
    × IsAlternating v.last_speech_state l
    × (w.last_speech_state ≡ last_state v.last_speech_state l)

IsAlternating-append :
    (last : Option Bool) (l m : List VadSpeechEvent)
    → IsAlternating last l
    → IsAlternating (last_state last l) m
    → IsAlternating last (l ++ m)
IsAlternating-append last [] m a b = b
IsAlternating-append last (e ∷ l) m a b = (a.0, IsAlternating-append (some e.is_speech) l m a.1 b)

last_state-append :
    (last : Option Bool) (l m : List VadSpeechEvent)
    → last_state last (l ++ m) ≡ last_state (last_state last l) m
last_state-append last [] m = refl
last_state-append last (e ∷ l) m = last_state-append (some e.is_speech) l m

HasNew-trans :
    (u v w : Vad) (l m : List VadSpeechEvent) → HasNew u v l → HasNew v w m → HasNew u w (l ++ m)
HasNew-trans u v w l m a b = (
  b.0 ∙ ap (λ p. p ++ m) a.0 ∙ append_assoc u.published l m,
  IsAlternating-append u.last_speech_state l m a.1 (subst (λ s. IsAlternating s m) a.2 b.1),
  b.2 ∙ ap (λ s. last_state s m) a.2 ∙ sym (last_state-append u.last_speech_state l m),
)

HasNew-refl : (v : Vad) → HasNew v v []
HasNew-refl v = (sym (append-nil v.published), tt, refl)

emit_transition-HasNew :
    (speech : Bool) (timestamp_ms : ℕ) (v : Vad)
    → (l : List VadSpeechEvent) × HasNew v (emit_transition speech timestamp_ms v) l
unfolding emit_transition
emit_transition-HasNew speech timestamp_ms v = elim (Bool-cases v.has_event_bus) [
  | inl b ↦ elim (Bool-cases (flips v.last_speech_state speech)) [
    | inl f ↦ rw b (
        rw f
          (record { is_speech = speech; timestamp_ms = timestamp_ms } ∷ [], (refl, (f, tt), refl)))
    | inr f ↦ rw b (rw f ([], HasNew-refl v))
  ]
  | inr b ↦ rw b ([], HasNew-refl v)
]

-- Whatever the model says of the chunks: what they add to the bus is a list of events that alternate
-- between speech and silence, the first one unlike the state known before, and the state known
-- afterwards is that of the last event.
pub process_chunks-HasNew :
    (silero : Silero) (l : List (List ℕ × ℕ)) (v : Vad)
    → (new : List VadSpeechEvent) × HasNew v (process_chunks silero l v).1 new
unfolding process_chunks process_chunk
process_chunks-HasNew silero [] v = ([], HasNew-refl v)
process_chunks-HasNew silero (c ∷ l) v =
    let w = (process_chunk silero c.0 c.1 v).1 in
    let first = emit_transition-HasNew (is_speech silero v c.0) c.1 v in
    let rest = process_chunks-HasNew silero l w in
    (
      first.0 ++ rest.0,
      HasNew-trans v w (process_chunks silero l w).1 first.0 rest.0 first.1 rest.1,
    )

known-state : (b : Bool) (last : Option Bool) → flips last b ≡ false → last ≡ some b
known-state b none e = absurd (ground (arith, e))
known-state true (some true) e = refl
known-state false (some true) e = absurd (ground (arith, e))
known-state true (some false) e = absurd (ground (arith, e))
known-state false (some false) e = refl

-- With an event bus, the state known after a chunk is what the call returns for it.
pub process_chunk-known :
    (silero : Silero) (audio_chunk : List ℕ) (timestamp_ms : ℕ) (v : Vad)
    → v.has_event_bus ≡ true
    → (process_chunk silero audio_chunk timestamp_ms v).1.last_speech_state
      ≡ some (process_chunk silero audio_chunk timestamp_ms v).0
unfolding process_chunk emit_transition
process_chunk-known silero audio_chunk timestamp_ms v b =
    let speech = is_speech silero v audio_chunk in
    elim (Bool-cases (flips v.last_speech_state speech)) [
      | inl f ↦ rw b (rw f refl)
      | inr f ↦ rw b (rw f (known-state speech v.last_speech_state f))
    ]
