-- ===== src/Whisper/Streaming/Read.antt =====
-- What the loop over the chunks has read and yielded.
use mathlib.Core.Path.{subst}
use agent_voca.Prelude.{
  if-either, Option-cases, ℕ, ◌≡◌, refl, sym, ap, ◌∙◌, Bool, true, false, Bool-cases, inl, inr,
  Option, none, some, List, [], ◌∷◌, ◌++◌, append-nil, append_assoc, All, All-append, ltb, length,
}
use agent_voca.Text.{Text, Unicode, is_empty, strip}
use agent_voca.Orchestrator.Streaming.{Segment}
use agent_voca.Whisper.{
  Call, ◌>>=◌, Library, Settings, Provider, Model, Inference, heard, inference_error, timed_out,
  Result, done, failed, Failure,
}
use agent_voca.Whisper.Transcribe.{frombuffer, join_texts}
use agent_voca.Whisper.Streaming.{
  Arrival, Listening, join_chunks, partial_segments, collect, launch, window_snapshot,
  start_partial, on_arrival, stream_loop, min_partial_bytes,
}

-- A bind either raises or goes on with what its first call returned.
>>=-either :
    {A B : Type 0} (Q : Result B → Type 0) (m : Call A) (f : A → Call B) (p : Provider)
    → ((e : Failure) → Q (failed e))
    → ((a : A) (q : Provider) → Q (f a q).0)
    → Q ((m >>= f) p).0
>>=-either {A} {B} Q m f p k h = go (m p)
  where
    go :
        (r : Result A × Provider)
        → Q
            (elim r.0 as (λ x. Result B × Provider) [
              | done a ↦ f a r.1
              | failed e ↦ (failed e, r.1)
            ]).0
    go (done a, q) = h a q
    go (failed e, q) = k e

-- A preview: not final, and not empty.
abbrev pub IsPartial : Segment → Type 0
IsPartial segment = (segment.is_final ≡ false) × (is_empty segment.text ≡ false)

-- The loop has read the audio, and yielded only previews.
abbrev pub HasRead : List ℕ → Listening → Type 0
HasRead audio s = (s.buffer ≡ audio) × All IsPartial s.yields

abbrev pub HasReadUnless : List ℕ → Option Failure × Listening → Type 0
HasReadUnless audio r = All IsPartial r.1.yields × (r.0 ≡ none → r.1.buffer ≡ audio)

module _ (u : Unicode) (lib : Library) (settings : Settings) where
  pub partial_segments-All :
      (o : Option Inference) → All IsPartial (partial_segments u lib settings o)
  unfolding partial_segments
  partial_segments-All none = tt
  partial_segments-All (some (inference_error t)) = tt
  partial_segments-All (some timed_out) = tt
  partial_segments-All (some (heard texts language)) =
      elim (Bool-cases (is_empty (strip u (join_texts texts)))) [
        | inl e ↦ rw e tt
        | inr e ↦ rw e ((refl, e), tt)
      ]

  collect-All :
      (is_done : Bool) (s : Listening)
      → All IsPartial s.yields
      → All IsPartial (collect u lib settings is_done s).yields
  unfolding collect
  collect-All true s a =
      All-append IsPartial s.yields (partial_segments u lib settings s.pending) a
        (partial_segments-All s.pending)
  collect-All false s a = a

  collect-buffer :
      (is_done : Bool) (s : Listening) → (collect u lib settings is_done s).buffer ≡ s.buffer
  unfolding collect
  collect-buffer true s = refl
  collect-buffer false s = refl

  module _ (rate : ℕ) (language : Option Text) (model : Model) where
    launch-HasReadUnless :
        (audio : List ℕ) (s : Listening)
        → HasRead audio s
        → HasReadUnless audio (launch u lib settings rate language model s)
    unfolding launch
    launch-HasReadUnless audio s h =
        elim (Option-cases
          (frombuffer (window_snapshot s.buffer settings.streaming_window_s rate))) [
            | inl e ↦ rw (e, launch) (h.1, λ k. cc)
            | inr (bytes, e) ↦ rw (e, launch) (h.1, λ k. h.0)
          ]

    start_partial-HasReadUnless :
        (audio : List ℕ) (s : Listening)
        → HasRead audio s
        → HasReadUnless audio (start_partial u lib settings rate language model s)
    unfolding start_partial
    start_partial-HasReadUnless audio s h = elim (Option-cases s.pending) [
      | inl e ↦ rw (e, start_partial) (launch-HasReadUnless audio s h)
      | inr (inference, e) ↦ rw (e, start_partial) (h.1, λ k. h.0)
    ]

    on_arrival-HasReadUnless :
        (audio : List ℕ) (a : Arrival) (s : Listening)
        → HasRead audio s
        → HasReadUnless (audio ++ a.chunk) (on_arrival u lib settings rate language model a s)
    unfolding on_arrival
    on_arrival-HasReadUnless audio a s h =
        let s' : Listening = record s { buffer = s.buffer ++ a.chunk } in
        let b : s'.buffer ≡ audio ++ a.chunk = ap (λ (x : List ℕ). x ++ a.chunk) h.0 in
        if-either (HasReadUnless (audio ++ a.chunk))
          (ltb (length s'.buffer) (min_partial_bytes rate)) (h.1, λ k. b)
          (start_partial-HasReadUnless (audio ++ a.chunk) (collect u lib settings a.is_done s')
            (collect-buffer a.is_done s' ∙ b, collect-All a.is_done s' h.1))

    pub stream_loop-HasReadUnless :
        (audio : List ℕ) (l : List Arrival) (s : Listening)
        → HasRead audio s
        → HasReadUnless
            (audio ++ join_chunks l)
            (stream_loop u lib settings rate language model l s)
    unfolding stream_loop join_chunks
    stream_loop-HasReadUnless audio [] s h = (h.1, λ k. h.0 ∙ sym (append-nil audio))
    stream_loop-HasReadUnless audio (a ∷ l) s h =
        go (on_arrival u lib settings rate language model a s)
          (on_arrival-HasReadUnless audio a s h) (stream_loop-HasReadUnless (audio ++ a.chunk) l)
      where
        go :
            (r : Option Failure × Listening)
            → HasReadUnless (audio ++ a.chunk) r
            → ((t : Listening)
                → HasRead (audio ++ a.chunk) t
                → HasReadUnless
                    ((audio ++ a.chunk) ++ join_chunks l)
                    (stream_loop u lib settings rate language model l t))
            → HasReadUnless
                (audio ++ (a.chunk ++ join_chunks l))
                (elim r.0 as (λ x. Option Failure × Listening) [
                  | some e ↦ (some e, r.1)
                  | none ↦ stream_loop u lib settings rate language model l r.1
                ])
        go (none, t) k ih =
            subst (λ x. HasReadUnless x (stream_loop u lib settings rate language model l t))
              (append_assoc audio a.chunk (join_chunks l)) (ih t (k.1 refl, k.0))
        go (some e, t) k ih = (k.0, λ x. cc)
