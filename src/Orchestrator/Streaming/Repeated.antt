-- ===== src/Orchestrator/Streaming/Repeated.antt =====
-- The text of a streamed dictation whose segments are cleaned while the user speaks.
use agent_voca.Prelude.{
  append-nil, append_assoc, ℕ, true, Option, none, some, List, [], ◌∷◌, ◌++◌, map, ◌≡◌, refl, sym,
  ap, ◌∙◌, zero, suc, take, drop, arith, if◌then◌else◌,
}
use agent_voca.Text.{Text, Unicode}
use agent_voca.Orchestrator.{Answer, Env, Orch, CleanupContext, returned, InsertionResult}
use agent_voca.Orchestrator.Pipeline.{has_segments, correct, join_spaced, run_pipeline}
use agent_voca.Orchestrator.Streaming.{
  Segment, Stream, audio_chunk_iter, run_streaming_asr, run_stream_task, settle_cleanups,
  finish_cleanups, clean_segment, segment_context,
}
use agent_voca.Orchestrator.Streaming.Segments.{
  texts, spoken, to_clean, last_final, run_streaming_asr-keeps,
}
use agent_voca.Orchestrator.Streaming.Fast.{run_pipeline-joins}

module _ (u : Unicode) (env : Env) where
  finish_cleanups-map :
      (f : Text → Text) (tasks : List (Text × ℕ)) (o : Orch)
      → ((t : Text) (context : CleanupContext) → env.rewrite 0 t context ≡ returned (f t))
      → finish_cleanups u env tasks o
        ≡ record o { cleaned_segments = o.cleaned_segments ++ map f (texts tasks) }
  unfolding finish_cleanups clean_segment texts
  finish_cleanups-map f [] o h =
      ap (λ l. record o { cleaned_segments = l }) (sym (append-nil o.cleaned_segments))
  finish_cleanups-map f ((t, i) ∷ tasks) o h =
      let o1 = record o { cleaned_segments = o.cleaned_segments ++ f t ∷ [] } in
      ap (λ (a : Answer Text). finish_cleanups u env tasks (clean_segment u env t a o))
        (h t (segment_context u env))
      ∙ finish_cleanups-map f tasks o1 h
      ∙ ap (λ l. record o { cleaned_segments = l })
          (append_assoc o.cleaned_segments (f t ∷ []) (map f (texts tasks)))

  map-snoc :
      (f : Text → Text) (l : List Text) (t : Text) → map f (l ++ t ∷ []) ≡ map f l ++ f t ∷ []
  map-snoc f [] t = refl
  map-snoc f (x ∷ l) t = ap (λ r. f x ∷ r) (map-snoc f l t)

  -- The tasks that are over and those that are not, together.
  map-texts-split :
      (f : Text → Text) (n : ℕ) (l : List (Text × ℕ))
      → map f (texts (take n l)) ++ map f (texts (drop n l)) ≡ map f (texts l)
  unfolding texts
  map-texts-split f zero l = refl
  map-texts-split f (suc n) [] = refl
  map-texts-split f (suc n) ((t, i) ∷ l) = ap (λ r. f t ∷ r) (map-texts-split f n l)

  has_segments-some :
      (f : Text → Text) (n : ℕ) (l : List (Text × ℕ)) (earlier : List Text) (text : Text)
      → texts l ≡ earlier ++ text ∷ []
      → has_segments (map f (texts (take (suc n) l))) ≡ true
  unfolding texts
  has_segments-some f n [] [] text h = absurd (ground (arith, h))
  has_segments-some f n [] (x ∷ earlier) text h = absurd (ground (arith, h))
  has_segments-some f n ((t, i) ∷ l) earlier text h = refl

  -- The orchestrator when the pipeline goes on behind the stream, as the cleanups stand then.
  abbrev pub settled : ℕ → Stream → Orch
  settled n s =
      settle_cleanups u env (take (suc n) s.cleanup_tasks) (drop (suc n) s.cleanup_tasks) s.orch

  settled_fields :
      (f : Text → Text) (n : ℕ) (s : Stream)
      → s.orch.cleaned_segments ≡ []
      → ((t : Text) (context : CleanupContext) → env.rewrite 0 t context ≡ returned (f t))
      → settled n s ≡ record s.orch {
        cleaned_segments = map f (texts (take (suc n) s.cleanup_tasks));
        in_flight = map f (texts (drop (suc n) s.cleanup_tasks));
      }
  unfolding settle_cleanups
  settled_fields f n s fresh rewrite =
      let over = take (suc n) s.cleanup_tasks in
      let running = drop (suc n) s.cleanup_tasks in
      let build : List Text → List Text → Orch =
        λ a b. record s.orch { cleaned_segments = a; in_flight = b } in
      let pending = finish_cleanups u env running (record s.orch { cleaned_segments = [] }) in
      ap (λ (o : Orch). record o { in_flight = pending.cleaned_segments })
        (finish_cleanups-map f over s.orch rewrite)
      ∙ ap (λ (o : Orch). build (s.orch.cleaned_segments ++ map f (texts over)) o.cleaned_segments)
          (finish_cleanups-map f running (record s.orch { cleaned_segments = [] }) rewrite)
      ∙ ap (λ l. build (l ++ map f (texts over)) (map f (texts running))) fresh

  -- With the pipelined cleanup, when the last final segment is not blank, the cleanups all succeed and end
  -- in the order of the segments, at least one of them before the pipeline goes on behind the stream, and
  -- there are no commands, no screenshots and no store of corrections: what is inserted holds the cleaned
  -- text of every segment, and behind them that of the last one again.
  pub run_pipeline-repeats :
      (provider : List (List ℕ) → ℕ → List Segment) (f : Text → Text) (s : Stream) (n : ℕ)
      (earlier : List Text) (text : Text) (result : InsertionResult)
      → env.streaming_enabled ≡ true
      → env.pipelined_cleanup_enabled ≡ true
      → s.orch.stream_active ≡ true
      → s.cleanup_tasks ≡ []
      → s.orch.cleaned_segments ≡ []
      → let segments = provider (audio_chunk_iter s.queue).0 s.orch.current_sample_rate in
        spoken u segments ≡ earlier ++ text ∷ []
        → last_final segments none ≡ some text
        → env.commands ≡ none
        → env.vision ≡ none
        → s.orch.adaptive_store ≡ none
        → env.cleanup_available ≡ true
        → ((t : Text) (context : CleanupContext) → env.rewrite 0 t context ≡ returned (f t))
        → let joined =
            correct u s.orch (join_spaced ((map f earlier ++ f text ∷ []) ++ f text ∷ [])) in
          env.insert joined ≡ returned result
          → result.success ≡ true
          → (run_pipeline u env (settled n (run_stream_task u env provider s))).1.last_transcript
            ≡ some joined
  unfolding correct run_stream_task texts
  run_pipeline-repeats provider f s n earlier text result streaming on active idle fresh said final
        commands vision store available rewrite insert success =
      let s1 = run_streaming_asr u env provider s in
      let heard = run_streaming_asr-keeps u env provider s in
      let segments = provider (audio_chunk_iter s.queue).0 s.orch.current_sample_rate in
      let over = map f (texts (take (suc n) s1.cleanup_tasks)) in
      let running = map f (texts (drop (suc n) s1.cleanup_tasks)) in
      let build : Option Text → Orch = λ t. record s.orch {
        stream_final_segment = t;
        cleaned_segments = over;
        in_flight = running;
      } in
      let tasks : texts s1.cleanup_tasks ≡ earlier ++ text ∷ [] =
        heard.1
        ∙ ap (λ (l : List (Text × ℕ)). texts l ++ to_clean u env.pipelined_cleanup_enabled segments)
            idle
        ∙ ap (λ b. to_clean u b segments) on
        ∙ said in
      let is_on : run_stream_task u env provider s ≡ s1 = ap (λ b. if b then s1 else s) active in
      let fields : settled n s1 ≡ build (some text) =
        settled_fields f n s1 (ap (λ (o : Orch). o.cleaned_segments) heard.0 ∙ fresh) rewrite
        ∙ ap (λ (o : Orch). record o { cleaned_segments = over; in_flight = running }) heard.0
        ∙ ap build final in
      ap (λ x. (run_pipeline u env (settled n x)).1.last_transcript) is_on
      ∙ ap (λ (o : Orch). (run_pipeline u env o).1.last_transcript) fields
      ∙ run_pipeline-joins u env (build (some text)) text (f text) (map f earlier ++ f text ∷ [])
          result streaming on active refl
          (has_segments-some f n s1.cleanup_tasks earlier text tasks)
          (map-texts-split f (suc n) s1.cleanup_tasks ∙ ap (map f) tasks ∙ map-snoc f earlier text)
          commands vision store available (rewrite text) insert success
