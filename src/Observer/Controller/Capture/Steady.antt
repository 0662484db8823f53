-- ===== src/Observer/Controller/Capture/Steady.antt =====
-- The capture objects run while, and only while, a session is open.
use agent_voca.Prelude.{
  ℕ, Bool, true, false, not, ◌||◌, Option, none, some, List, [], ◌∷◌, ◌++◌, ◌≡◌, refl, sym, ap, ◌∙◌,
  arith, is_some, if-either, if◌then◌else◌,
}
use agent_voca.Text.{Text, is_empty}
use agent_voca.Observer.Session
use agent_voca.Observer.Session.{Manager}
use agent_voca.Observer.{ObserverSession}
use agent_voca.Observer.Controller.Calls.{
  after_start, after_toggle, Call, start_call, toggle_call, stop_call, compile_call, shutdown_call,
  pause_call, resume_call, perform_call, run_calls,
}
use agent_voca.Observer.Controller.{
  begin_session, end_session, Controller, Label, Hook, missing, returns, raises, start_method,
  stop_method, Action, published, scheduled, call_all, capture_objects, is_active, start_session,
  stop_session, shutdown, pause, resume, toggle_session, trace_all, schedule_compile, session_ended,
  paused, schedule_if_attached, shut_down_object, Surface, close_at_shutdown,
}
use agent_voca.Observer.Controller.{
  Message, publish, Compiler, SessionBundle, CompiledSession, compiled_message, compiler_hook,
  compiler, indicator,
}
use agent_voca.Observer.Controller.Compile.{
  compile_bundle, export_session, run_compile, load_bundle, mark_compiled, run_exporters, is_path,
}
use agent_voca.Observer.Controller.Capture.{is_told, is_attached, is_told-append, call_all-tells}

abbrev pub IsSteady : Label → Controller → Type 0
IsSteady l c = (is_attached l (capture_objects c) ≡ true) × (is_told l false c.trace ≡ is_active c)

module _ (l : Label) where
  begin_session-IsSteady :
      (o : Option ObserverSession) (c c0 : Controller)
      → is_attached l (capture_objects c) ≡ true
      → o ≡ c.manager.current
      → IsSteady l c0
      → IsSteady l (after_start (begin_session o c) c0)
  unfolding begin_session is_told
  begin_session-IsSteady none c c0 a e h = h
  begin_session-IsSteady (some session) c c0 a e h = (
    a,
    is_told-append l false (c.trace ++ call_all start_method (capture_objects c)) _
        ∙ is_told-append l false c.trace (call_all start_method (capture_objects c))
        ∙ call_all-tells l start_method (capture_objects c) (is_told l false c.trace) a
        ∙ ap is_some e,
  )

  start_session-IsSteady :
      (app_version : Text) (now_ms : ℕ) (uuid : Text) (c : Controller)
      → IsSteady l c
      → IsSteady l (after_start (start_session app_version now_ms uuid c) c)
  unfolding start_session
  start_session-IsSteady app_version now_ms uuid c h =
      let P : Option (Bool × Controller) → Type 0 = λ o. IsSteady l (after_start o c) in
      if-either P (not c.enabled || is_active c) h
        (go (Session.open_session app_version now_ms uuid c.manager))
    where
      go :
          (o : Option Manager)
          → IsSteady l (
              after_start
                (elim o [
                  | none ↦ none
                  | some m ↦ begin_session m.current (record c { manager = m })
                ])
                c)
      go none = h
      go (some m) = begin_session-IsSteady m.current (record c { manager = m }) c h.0 refl h

  -- Actions that tell the object nothing.
  trace_all-IsSteady :
      (actions : List Action) (c : Controller)
      → ((told : Bool) → is_told l told actions ≡ told)
      → IsSteady l c
      → IsSteady l (trace_all actions c)
  trace_all-IsSteady actions c quiet h =
      (h.0, is_told-append l false c.trace actions ∙ quiet (is_told l false c.trace) ∙ h.1)

  publish-IsSteady :
      (message : Message) (c : Controller) → IsSteady l c → IsSteady l (publish message c)
  unfolding is_told
  publish-IsSteady message c h = trace_all-IsSteady (published message ∷ []) c (λ told. refl) h

  schedule-IsSteady :
      (i : ℕ) (c : Controller) → IsSteady l c → IsSteady l (schedule_if_attached i c)
  unfolding is_told
  schedule-IsSteady i c h =
      elim c.compiler_object
        as (λ o. IsSteady l (elim o [ none ↦ c | some o ↦ schedule_compile i c ])) [
          | none ↦ h
          | some o ↦
              if-either (IsSteady l) c.loop_is_open
                (trace_all-IsSteady (scheduled i ∷ []) c (λ told. refl) h) h
        ]

  end_session-IsSteady :
      (uuid : Text) (i : ℕ) (o : Option ObserverSession) (c : Controller)
      → IsSteady l c
      → IsSteady l (end_session uuid i o c)
  unfolding end_session is_told
  end_session-IsSteady uuid i none c h = h
  end_session-IsSteady uuid i (some closed) c h =
      schedule-IsSteady i _ (publish-IsSteady (session_ended uuid i) c h)

  -- The objects have been stopped and the session is closed.
  stopped-IsSteady :
      (m : Manager) (c : Controller)
      → is_attached l (capture_objects c) ≡ true
      → m.current ≡ none
      → IsSteady l (trace_all (call_all stop_method (capture_objects c)) (record c { manager = m }))
  stopped-IsSteady m c a e = (
    a,
    is_told-append l false c.trace (call_all stop_method (capture_objects c))
        ∙ call_all-tells l stop_method (capture_objects c) (is_told l false c.trace) a
        ∙ sym (ap is_some e),
  )

  closed-current :
      (ended_at_ms : ℕ) (m : Manager) → (Session.close_session ended_at_ms m).1.current ≡ none
  unfolding Session.close_session
  closed-current ended_at_ms m = ground arith

  stop_session-IsSteady :
      (ended_at_ms : ℕ) (c : Controller) → IsSteady l c → IsSteady l (stop_session ended_at_ms c)
  unfolding stop_session
  stop_session-IsSteady ended_at_ms c h = go c.manager.current
    where
      go :
          (o : Option ObserverSession)
          → IsSteady l (elim o [
            | none ↦ c
            | some session ↦
                let (ended, m) = Session.close_session ended_at_ms c.manager in
                end_session session.uuid session.id ended
                  (trace_all (call_all stop_method (capture_objects c)) (record c { manager = m }))
          ])
      go none = h
      go (some session) =
          let (ended, m) = Session.close_session ended_at_ms c.manager in
          end_session-IsSteady session.uuid session.id ended _
            (stopped-IsSteady m c h.0 (closed-current ended_at_ms c.manager))

  toggle_session-IsSteady :
      (app_version : Text) (now_ms : ℕ) (uuid : Text) (c : Controller)
      → IsSteady l c
      → IsSteady l (after_toggle (toggle_session app_version now_ms uuid c) c)
  toggle_session-IsSteady app_version now_ms uuid c h =
      if-either (λ o. IsSteady l (after_toggle o c)) (is_active c)
        (stop_session-IsSteady now_ms c h)
        (go (start_session app_version now_ms uuid c)
          (start_session-IsSteady app_version now_ms uuid c h))
    where
      go :
          (o : Option (Bool × Controller))
          → IsSteady l (after_start o c)
          → IsSteady l (after_toggle (elim o [ none ↦ none | some r ↦ some r.1 ]) c)
      go none k = h
      go (some r) k = k

  pause-current : (reason : Text) (m : Manager) → (Session.pause reason m).1.current ≡ m.current
  unfolding Session.pause
  pause-current reason m = ground arith

  resume-current : (m : Manager) → (Session.resume m).1.current ≡ m.current
  unfolding Session.resume
  resume-current m = ground arith

  -- Another manager with the same session, and perhaps an event of a pause.
  paused-IsSteady :
      (m : Manager) (changed is_paused : Bool) (reason : Text) (c : Controller)
      → m.current ≡ c.manager.current
      → IsSteady l c
      → let c' = record c { manager = m } in
        IsSteady l (if changed then publish (paused is_paused reason) c' else c')
  unfolding is_told
  paused-IsSteady m changed is_paused reason c e h =
      let steady : IsSteady l (record c { manager = m }) = (h.0, h.1 ∙ sym (ap is_some e)) in
      if-either (IsSteady l) changed
        (publish-IsSteady (paused is_paused reason) (record c { manager = m }) steady) steady

  pause-IsSteady : (reason : Text) (c : Controller) → IsSteady l c → IsSteady l (pause reason c)
  unfolding pause
  pause-IsSteady reason c h =
      let (changed, m) = Session.pause reason c.manager in
      paused-IsSteady m changed true reason c (pause-current reason c.manager) h

  resume-IsSteady : (reason : Text) (c : Controller) → IsSteady l c → IsSteady l (resume reason c)
  unfolding resume
  resume-IsSteady reason c h =
      let (changed, m) = Session.resume c.manager in
      paused-IsSteady m changed false reason c (resume-current c.manager) h

  compile_bundle-IsSteady :
      (compile : Compiler) (i : ℕ) (bundle : SessionBundle) (c : Controller)
      → IsSteady l c
      → IsSteady l (compile_bundle compile i bundle c)
  unfolding compile_bundle export_session is_told
  compile_bundle-IsSteady compile i bundle c h = go (compile bundle)
    where
      go :
          (o : Option CompiledSession)
          → IsSteady l (elim o [
            | none ↦ publish (compiled_message bundle.session.uuid [] none true) c
            | some s ↦ export_session i bundle s c
          ])
      go none = publish-IsSteady (compiled_message bundle.session.uuid [] none true) c h
      go (some s) =
          let p = run_exporters c.exporters s bundle ([], none) in
          let made = not (is_empty p.0) || is_path p.1 in
          publish-IsSteady (compiled_message bundle.session.uuid p.0 p.1 s.degraded)
            (if made then mark_compiled i c else c) (if-either (IsSteady l) made h h)

  run_compile-IsSteady : (i : ℕ) (c : Controller) → IsSteady l c → IsSteady l (run_compile i c)
  unfolding run_compile
  run_compile-IsSteady i c h = go c.compiler_object (load_bundle i c.manager.store)
    where
      go :
          (o : Option (Compiler × Hook)) (b : Option SessionBundle)
          → IsSteady l (elim o [
            | none ↦ c
            | some o ↦ elim b [ none ↦ c | some bundle ↦ compile_bundle o.0 i bundle c ]
          ])
      go none b = h
      go (some o) none = h
      go (some o) (some bundle) = compile_bundle-IsSteady o.0 i bundle c h

  shut_down_object-quiet :
      (o : Option Hook) (s : Surface) (told : Bool) → is_told l told (shut_down_object o s) ≡ told
  unfolding is_told shut_down_object
  shut_down_object-quiet none s told = refl
  shut_down_object-quiet (some missing) s told = refl
  shut_down_object-quiet (some returns) s told = refl
  shut_down_object-quiet (some raises) s told = refl

  close_at_shutdown-IsSteady :
      (ended_at_ms : ℕ) (c : Controller)
      → IsSteady l c
      → IsSteady l (close_at_shutdown ended_at_ms c)
  unfolding close_at_shutdown
  close_at_shutdown-IsSteady ended_at_ms c h = go c.manager.current
    where
      go :
          (o : Option ObserverSession)
          → IsSteady l (elim o [
            | none ↦ c
            | some session ↦ record c {
              trace = c.trace ++ call_all stop_method (capture_objects c);
              manager = (Session.close_session ended_at_ms c.manager).1;
            }
          ])
      go none = h
      go (some session) =
          stopped-IsSteady (Session.close_session ended_at_ms c.manager).1 c h.0
            (closed-current ended_at_ms c.manager)

  shutdown-IsSteady :
      (ended_at_ms : ℕ) (c : Controller) → IsSteady l c → IsSteady l (shutdown ended_at_ms c)
  unfolding shutdown
  shutdown-IsSteady ended_at_ms c h =
      let c' = close_at_shutdown ended_at_ms c in
      let of_compiler = shut_down_object (compiler_hook c'.compiler_object) compiler in
      let of_indicator = shut_down_object c'.indicator_object indicator in
      trace_all-IsSteady (of_compiler ++ of_indicator) c'
        (λ told.
          is_told-append l told of_compiler of_indicator
          ∙ shut_down_object-quiet _ indicator (is_told l told of_compiler)
          ∙ shut_down_object-quiet _ compiler told)
        (close_at_shutdown-IsSteady ended_at_ms c h)

  perform_call-IsSteady : (k : Call) (c : Controller) → IsSteady l c → IsSteady l (perform_call k c)
  unfolding perform_call
  perform_call-IsSteady (start_call app_version now_ms uuid) c h =
      start_session-IsSteady app_version now_ms uuid c h
  perform_call-IsSteady (toggle_call app_version now_ms uuid) c h =
      toggle_session-IsSteady app_version now_ms uuid c h
  perform_call-IsSteady (stop_call now_ms) c h = stop_session-IsSteady now_ms c h
  perform_call-IsSteady (compile_call i) c h = run_compile-IsSteady i c h
  perform_call-IsSteady (shutdown_call now_ms) c h = shutdown-IsSteady now_ms c h
  perform_call-IsSteady (pause_call reason) c h = pause-IsSteady reason c h
  perform_call-IsSteady (resume_call reason) c h = resume-IsSteady reason c h

  -- Whatever is called, in any order: a capture object that has both methods was last told to start
  -- exactly when a session is open, and last told to stop, or told nothing yet, when none is.
  pub run_calls-IsSteady :
      (ks : List Call) (c : Controller) → IsSteady l c → IsSteady l (run_calls ks c)
  unfolding run_calls
  run_calls-IsSteady [] c h = h
  run_calls-IsSteady (k ∷ ks) c h =
      run_calls-IsSteady ks (perform_call k c) (perform_call-IsSteady k c h)
