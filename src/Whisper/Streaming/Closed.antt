-- ===== src/Whisper/Streaming/Closed.antt =====
-- What a streamed transcription yields: partial segments, and behind them one final segment of all the
-- audio.
use mathlib.Core.Path.{subst}
use agent_voca.Prelude.{
  if-either, Option-cases, ◌⊎◌, ℕ, ◌≡◌, refl, ap, Bool, true, false, inl, inr, Option, none, some,
  List, [], ◌∷◌, ◌++◌, All, All-append, ◌==◌, ◌&&◌, if◌then◌else◌, arith,
}
use agent_voca.Text.{Text, Unicode}
use agent_voca.Orchestrator.Streaming.{Segment}
use agent_voca.Whisper.{
  Call, count_call, other_error, timeout_error, ◌>>=◌, pure, Library, Settings, Provider, Model,
  Inference, heard, inference_error, timed_out, Result, done, failed, Failure, get_model,
  get_streaming_model,
}
use agent_voca.Whisper.Transcribe.{use_cpu, frombuffer, language_of, final_segment, run_inference}
use agent_voca.Whisper.Streaming.Read.{
  IsPartial, HasReadUnless, partial_segments-All, stream_loop-HasReadUnless,
}
use agent_voca.Whisper.Streaming.{
  final_error, Arrival, Listening, join_chunks, partial_segments, stream_loop, attempt_final,
  is_retried, final_attempts, final_pass, finish_with, end_stream, stream_with, stream_transcribe,
}

-- A bind either raises or goes on with what its first call returned.
>>=-either :
    {A B : Type 0} (Q : Result B → Type 0) (m : Call A) (f : A → Call B) (p : Provider)
    → ((e : Failure) → Q (failed e))
    → ((a : A) (q : Provider) → Q (f a q).0)
    → Q ((m >>= f) p).0
>>=-either {A} {B} Q m f p k h = go (m p)
  where
    go :
        (r : Result A × Provider)
        → Q
            (elim r.0 as (λ x. Result B × Provider) [
              | done a ↦ f a r.1
              | failed e ↦ (failed e, r.1)
            ]).0
    go (done a, q) = h a q
    go (failed e, q) = k e

-- The samples are the bytes.
frombuffer-eq : (l bytes : List ℕ) → frombuffer l ≡ some bytes → bytes ≡ l
unfolding frombuffer
frombuffer-eq l bytes e = ground (arith, e)

module _ (u : Unicode) (lib : Library) (settings : Settings) where
  -- What the accurate pass heard in the audio: an answer of the library to all of it.
  abbrev pub IsHeard : List ℕ → Option Text → Segment → Type 0
  IsHeard audio language segment =
      (call : ℕ) × (model : Model) × (texts : List Text) × (detected : Text) × (lib.infer call false
          model audio language
        ≡ heard texts detected)
      × (segment ≡ final_segment u lib settings texts detected)

  abbrev pub IsFinalOf : List ℕ → Option Text → Segment → Type 0
  IsFinalOf [] language segment =
      segment ≡ record { text = []; is_final = true; language_detected = none }
  IsFinalOf (b ∷ bs) language segment = IsHeard (b ∷ bs) language segment

  -- The segments of a stream, by the exception that ends it.
  abbrev pub IsClosed : List ℕ → Option Text → Option Failure → List Segment → Type 0
  IsClosed audio language none l =
      (partials : List Segment) × (last : Segment) × (l ≡ partials ++ last ∷ [])
      × All IsPartial partials
      × IsFinalOf audio language last
  IsClosed audio language (some e) l = All IsPartial l

  -- What an attempt or the whole pass returns, unless it raises.
  abbrev HasHeard : List ℕ → Option Text → Result Segment → Type 0
  HasHeard audio language (done segment) = IsHeard audio language segment
  HasHeard audio language (failed e) = Unit

  abbrev IsPass : List ℕ → Option Text → Result (List Segment) → Type 0
  IsPass audio language (done l) =
      (last : Segment) × (l ≡ last ∷ []) × IsFinalOf audio language last
  IsPass audio language (failed e) = Unit

  module _ (language : Option Text) (audio : List ℕ) where
    attempt_with-HasHeard :
        (model : Model) (p : Provider)
        → HasHeard audio language
            ((run_inference u lib settings false model audio language >>= λ result.
                pure (final_segment u lib settings result.0 result.1))
              p).0
    unfolding run_inference
    attempt_with-HasHeard model p = go (lib.infer p.calls false model audio language) refl
      where
        go :
            (i : Inference)
            → lib.infer p.calls false model audio language ≡ i
            → HasHeard audio language
                (((λ (q : Provider). (elim i as (λ x. Result (List Text × Text) × Provider) [
                  | heard texts detected ↦ (done (texts, detected), count_call q)
                  | inference_error t ↦ (failed (other_error t), count_call q)
                  | timed_out ↦ (failed timeout_error, count_call q)
                ]))
                    >>= λ (result : List Text × Text).
                        pure (final_segment u lib settings result.0 result.1))
                  p).0
        go (heard texts detected) e = (p.calls, model, texts, detected, e, refl)
        go (inference_error t) e = tt
        go timed_out e = tt

    attempt_final-HasHeard :
        (rate : ℕ) (p : Provider)
        → HasHeard audio language (attempt_final u lib settings rate language audio p).0
    unfolding attempt_final
    attempt_final-HasHeard rate p =
        >>=-either (HasHeard audio language) (get_model u lib settings)
          (λ model. run_inference u lib settings false model audio language >>= λ result.
            pure (final_segment u lib settings result.0 result.1))
          p (λ e. tt) attempt_with-HasHeard

  module _ (rate : ℕ) (language : Option Text) (b : ℕ) (bs : List ℕ) where
    abbrev Passes : Result (List Segment) × Provider → Type 0
    Passes r = IsPass (b ∷ bs) language r.0

    -- One attempt, with what follows when it is repeated.
    after_attempt :
        (attempt : ℕ) (r : Result Segment × Provider) (again : Result (List Segment) × Provider)
        → HasHeard (b ∷ bs) language r.0
        → Passes again ⊎ (attempt == 0 ≡ false)
        → Passes (elim r.0 as (λ x. Result (List Segment) × Provider) [
          | done segment ↦ (done (segment ∷ []), r.1)
          | failed e ↦
              if is_retried u lib settings rate language e && attempt == 0
              then again
              else (failed (final_error u lib settings rate language e), r.1)
        ])
    after_attempt attempt (done segment, p) again h k = (segment, refl, h)
    after_attempt attempt (failed e, p) again h (inl k) =
        if-either Passes (is_retried u lib settings rate language e && attempt == 0) k tt
    after_attempt attempt (failed e, p) again h (inr k) =
        let never : (is_retried u lib settings rate language e && attempt == 0) ≡ false =
          ground (arith, k) in
        rw never tt

    last_attempt :
        (p : Provider) → Passes (final_attempts u lib settings rate language 1 1 (b ∷ bs) p)
    unfolding final_attempts
    last_attempt p =
        after_attempt 1 (attempt_final u lib settings rate language (b ∷ bs) p) _
          (attempt_final-HasHeard language (b ∷ bs) rate p) (inr refl)

    two_attempts :
        (p : Provider) → Passes (final_attempts u lib settings rate language 2 0 (b ∷ bs) p)
    unfolding final_attempts
    two_attempts p =
        let r = attempt_final u lib settings rate language (b ∷ bs) p in
        after_attempt 0 r _ (attempt_final-HasHeard language (b ∷ bs) rate p)
          (inl (last_attempt (use_cpu r.1)))

  final_pass-IsPass :
      (rate : ℕ) (language : Option Text) (audio : List ℕ) (p : Provider)
      → IsPass audio language (final_pass u lib settings rate language audio p).0
  unfolding final_pass
  final_pass-IsPass rate language [] p =
      (record { text = []; is_final = true; language_detected = none }, refl, refl)
  final_pass-IsPass rate language (b ∷ bs) p = elim (Option-cases (frombuffer (b ∷ bs))) [
    | inl e ↦ rw (e, final_pass) tt
    | inr (bytes, e) ↦
        let same : bytes ≡ b ∷ bs = frombuffer-eq (b ∷ bs) bytes e in
        rw (e, final_pass) (rw same (two_attempts rate language b bs p))
  ]

  finish_with-IsClosed :
      (audio : List ℕ) (language : Option Text) (yields : List Segment)
      (r : Result (List Segment) × Provider)
      → All IsPartial yields
      → IsPass audio language r.0
      → IsClosed audio language
          (finish_with u lib settings yields r).failure
          (finish_with u lib settings yields r).yields
  finish_with-IsClosed audio language yields (done l, p) a k =
      (yields, k.0, ap (λ m. yields ++ m) k.1, a, k.2)
  finish_with-IsClosed audio language yields (failed e, p) a k = a

  end_stream-IsClosed :
      (rate : ℕ) (language : Option Text) (in_time : Bool) (audio : List ℕ)
      (r : Option Failure × Listening)
      → HasReadUnless audio r
      → IsClosed audio language
          (end_stream u lib settings rate language in_time r).failure
          (end_stream u lib settings rate language in_time r).yields
  unfolding end_stream
  end_stream-IsClosed rate language in_time audio (some e, s) h = h.0
  end_stream-IsClosed rate language in_time audio (none, s) h =
      let tail = if in_time then partial_segments u lib settings s.pending else [] in
      finish_with-IsClosed audio language (s.yields ++ tail)
        (final_pass u lib settings rate language s.buffer s.provider)
        (All-append IsPartial s.yields tail h.0
          (if-either (All IsPartial) in_time (partial_segments-All u lib settings s.pending) tt))
        (subst
          (λ x. IsPass x language (final_pass u lib settings rate language s.buffer s.provider).0)
          (h.1 refl) (final_pass-IsPass rate language s.buffer s.provider))

  stream_with-IsClosed :
      (l : List Arrival) (in_time : Bool) (rate : ℕ) (language : Option Text)
      (r : Result {0} Model × Provider)
      → IsClosed
          (join_chunks l)
          language
          (stream_with u lib settings l in_time rate language r).failure
          (stream_with u lib settings l in_time rate language r).yields
  unfolding stream_with
  stream_with-IsClosed l in_time rate language (failed e, p) = tt
  stream_with-IsClosed l in_time rate language (done model, p) =
      let s : Listening = record { buffer = []; pending = none; yields = []; provider = p } in
      end_stream-IsClosed rate language in_time (join_chunks l)
        (stream_loop u lib settings rate language model l s)
        (stream_loop-HasReadUnless u lib settings rate language model [] l s (refl, tt))

  -- With streaming, however the chunks arrive, whichever partial transcriptions are over when they do, and
  -- whatever the libraries answer: a stream that ends without an exception has yielded previews that are not
  -- empty, and behind them exactly one final segment. That one is empty when there was no audio; otherwise
  -- its text is what the library heard in all the audio of the chunks, in one accurate pass. A stream
  -- that ends with an exception has yielded previews only.
  pub stream_transcribe-IsClosed :
      (l : List Arrival) (in_time : Bool) (rate : ℕ) (context : Option (Option Text)) (p : Provider)
      → settings.streaming ≡ true
      → IsClosed
          (join_chunks l)
          (language_of settings context)
          (stream_transcribe u lib settings l in_time rate context p).failure
          (stream_transcribe u lib settings l in_time rate context p).yields
  unfolding stream_transcribe
  stream_transcribe-IsClosed l in_time rate context p on =
      rw (on, stream_transcribe)
        (stream_with-IsClosed l in_time rate (language_of settings context)
          (get_streaming_model u lib settings p))
