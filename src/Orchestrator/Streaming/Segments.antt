-- ===== src/Orchestrator/Streaming/Segments.antt =====
-- What is kept of the segments that the streaming provider yields.
use mathlib.Core.Path.{subst}
use agent_voca.Prelude.{
  ℕ, suc, Bool, true, false, not, ◌&&◌, Option, none, some, List, [], ◌∷◌, ◌++◌, ◌≡◌, refl, sym, ap,
  ◌∙◌, arith, append_assoc, append-nil, if◌then◌else◌, if-either,
}
use agent_voca.Text.{Text, Unicode, strip, is_empty}
use agent_voca.Orchestrator.{Env, Orch}
use agent_voca.Orchestrator.Streaming.{
  Segment, Stream, partial, finalized, update_language, on_segment_finalized, finalize_segment,
  run_segments, run_streaming_asr, audio_chunk_iter,
}

-- The text of the last final segment, or what was there before.
unfoldable pub last_final : List Segment → Option Text → Option Text
last_final [] before = before
last_final (x ∷ l) before = last_final l (if x.is_final then some x.text else before)

abbrev pub unless_blank : Unicode → Text → List Text
unless_blank u text = if not (is_empty (strip u text)) then text ∷ [] else []

-- The texts of the final segments that are not blank.
unfoldable pub spoken : Unicode → List Segment → List Text
spoken u [] = []
spoken u (x ∷ l) = (if x.is_final then unless_blank u x.text else []) ++ spoken u l

-- The texts whose cleanups are started, with and without the pipelined cleanup.
abbrev pub to_clean : Unicode → Bool → List Segment → List Text
to_clean u enabled l = if enabled then spoken u l else []

unfoldable pub texts : List (Text × ℕ) → List Text
texts [] = []
texts ((t, i) ∷ l) = t ∷ texts l

texts-append : (a b : List (Text × ℕ)) → texts (a ++ b) ≡ texts a ++ texts b
unfolding texts
texts-append [] b = refl
texts-append ((t, i) ∷ a) b = ap (λ l. t ∷ l) (texts-append a b)

module _ (u : Unicode) (env : Env) where
  -- A stream behind the segments, for the final segment and the cleanups that were started.
  abbrev pub IsHeard : List Text → Option Text → Stream → Stream → Type 0
  IsHeard said final s s' =
      (s'.orch ≡ record s.orch { stream_final_segment = final })
      × (texts s'.cleanup_tasks ≡ texts s.cleanup_tasks ++ said)

  -- The cleanups that a final segment starts.
  abbrev pub started : Text → List Text
  started text = if env.pipelined_cleanup_enabled then unless_blank u text else []

  update_language-keeps :
      (language : Option Text) (s : Stream)
      → let s' = update_language env language s in
        (s'.orch ≡ s.orch) × (s'.cleanup_tasks ≡ s.cleanup_tasks)
  unfolding update_language
  update_language-keeps language s = ground arith

  finalize_segment-IsHeard :
      (text : Text) (index : ℕ) (s : Stream)
      → IsHeard (started text) (some text) s (finalize_segment u env text index s)
  unfolding finalize_segment on_segment_finalized texts
  finalize_segment-IsHeard text index s =
      go env.pipelined_cleanup_enabled (not (is_empty (strip u text)))
    where
      go :
          (enabled said : Bool)
          → let s' = record s {
            orch = record s.orch { stream_final_segment = some text };
            events = s.events ++ finalized text index ∷ [];
          } in
            IsHeard (if enabled then (if said then text ∷ [] else []) else []) (some text) s (
              if enabled && said
              then record s' { cleanup_tasks = s'.cleanup_tasks ++ (text, index) ∷ [] }
              else s')
      go true true = (refl, texts-append s.cleanup_tasks ((text, index) ∷ []))
      go true false = (refl, sym (append-nil (texts s.cleanup_tasks)))
      go false said = (refl, sym (append-nil (texts s.cleanup_tasks)))

  abbrev with_final : Option Text → Orch → Orch
  with_final final o = record o { stream_final_segment = final }

  IsHeard-trans :
      (a b : List Text) (x y : Option Text) (s s1 s2 : Stream)
      → IsHeard a x s s1
      → IsHeard b y s1 s2
      → IsHeard (a ++ b) y s s2
  IsHeard-trans a b x y s s1 s2 h k = (
    k.0 ∙ ap (λ (o : Orch). with_final y o) h.0,
    k.1 ∙ ap (λ l. l ++ b) h.1 ∙ append_assoc (texts s.cleanup_tasks) a b,
  )

  either-IsHeard :
      (b : Bool) (a : List Text) (text : Text) (before : Option Text) (l : List Segment)
      (rest : List Text) (s s2 s3 : Stream)
      → IsHeard (a ++ rest) (last_final l (some text)) s s2
      → IsHeard rest (last_final l before) s s3
      → IsHeard
          ((if b then a else []) ++ rest)
          (last_final l (if b then some text else before))
          s
          (if b then s2 else s3)
  either-IsHeard true a text before l rest s s2 s3 h k = h
  either-IsHeard false a text before l rest s s2 s3 h k = k

  to_clean-first :
      (x : Segment) (l : List Segment) (enabled : Bool)
      → (if x.is_final then (if enabled then unless_blank u x.text else []) else [])
          ++ to_clean u enabled l
        ≡ to_clean u enabled (x ∷ l)
  unfolding spoken
  to_clean-first x l true = refl
  to_clean-first x l false = nothing x.is_final
    where
      nothing : (b : Bool) → ◌≡◌ {A = List Text} ((if b then [] else []) ++ []) []
      nothing true = refl
      nothing false = refl

  run_segments-IsHeard :
      (segments : List Segment) (index : ℕ) (s : Stream)
      → IsHeard
          (to_clean u env.pipelined_cleanup_enabled segments)
          (last_final segments s.orch.stream_final_segment)
          s
          (run_segments u env segments index s)
  unfolding run_segments last_final spoken
  run_segments-IsHeard [] index s = (
    refl,
    if-either (λ l. texts s.cleanup_tasks ≡ texts s.cleanup_tasks ++ l)
        env.pipelined_cleanup_enabled (sym (append-nil (texts s.cleanup_tasks)))
        (sym (append-nil (texts s.cleanup_tasks))),
  )
  run_segments-IsHeard (x ∷ l) index s =
      let rest = to_clean u env.pipelined_cleanup_enabled l in
      let s1 = update_language env x.language_detected s in
      let kept = update_language-keeps x.language_detected s in
      let s2 = finalize_segment u env x.text index s1 in
      let s3 = record s1 { events = s1.events ++ partial x.text ∷ [] } in
      let before : Option Text = s.orch.stream_final_segment in
      let same : IsHeard [] before s s1 =
        (kept.0, ap texts kept.1 ∙ sym (append-nil (texts s.cleanup_tasks))) in
      let said = finalize_segment-IsHeard x.text index s1 in
      let ends2 =
        subst (λ o. IsHeard rest (last_final l o) s2 (run_segments u env l index s2))
          (ap (λ (o : Orch). o.stream_final_segment) said.0) (run_segments-IsHeard l index s2) in
      let ends3 =
        subst (λ o. IsHeard rest (last_final l o) s3 (run_segments u env l (suc index) s3))
          (ap (λ (o : Orch). o.stream_final_segment) kept.0)
          (run_segments-IsHeard l (suc index) s3) in
      subst
        (λ y.
          IsHeard y (last_final l (if x.is_final then some x.text else before)) s
            (run_segments u env (x ∷ l) index s))
        (to_clean-first x l env.pipelined_cleanup_enabled)
        (either-IsHeard x.is_final (started x.text) x.text before l rest s
          (run_segments u env l index s2) (run_segments u env l (suc index) s3)
          (IsHeard-trans (started x.text) rest (some x.text) (last_final l (some x.text)) s s2
            (run_segments u env l index s2)
            (IsHeard-trans [] (started x.text) before (some x.text) s s1 s2 same said) ends2)
          (IsHeard-trans [] rest before (last_final l before) s s3
            (run_segments u env l (suc index) s3) same ends3))

  -- The stream writes the final segment, and nothing else of what the pipeline reads.
  pub run_streaming_asr-keeps :
      (provider : List (List ℕ) → ℕ → List Segment) (s : Stream)
      → let segments = provider (audio_chunk_iter s.queue).0 s.orch.current_sample_rate in
        IsHeard
          (to_clean u env.pipelined_cleanup_enabled segments)
          (last_final segments none)
          s
          (run_streaming_asr u env provider s)
  unfolding run_streaming_asr
  run_streaming_asr-keeps provider s = run_segments-IsHeard _ 0 _

  -- Whatever the provider yields for the chunks in the queue: behind the streamed transcription the final
  -- segment is the last final one, and none if there was none; with the pipelined cleanup a cleanup was
  -- started for every final segment that is not blank, the last one too, in their order, and without it
  -- for none.
  pub run_streaming_asr-IsHeard :
      (provider : List (List ℕ) → ℕ → List Segment) (s : Stream)
      → let segments = provider (audio_chunk_iter s.queue).0 s.orch.current_sample_rate in
        let s' = run_streaming_asr u env provider s in
        (s'.orch.stream_final_segment ≡ last_final segments none)
        × (texts s'.cleanup_tasks
            ≡ texts s.cleanup_tasks
              ++ (if env.pipelined_cleanup_enabled then spoken u segments else []))
  run_streaming_asr-IsHeard provider s =
      let heard = run_streaming_asr-keeps provider s in
      (ap (λ (o : Orch). o.stream_final_segment) heard.0, heard.1)
