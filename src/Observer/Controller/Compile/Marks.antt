-- ===== src/Observer/Controller/Compile/Marks.antt =====
-- When a compilation counts as done.
use mathlib.Core.Path.{subst}
use agent_voca.Prelude.{
  sym, append-nil, Option-cases, ℕ, Bool, true, false, not, ◌||◌, Option, none, some, List, [], ◌∷◌,
  ◌++◌, ◌≡◌, refl, arith, ap, ◌∙◌, inl, inr, if◌then◌else◌,
}
use agent_voca.Text.{Text, is_empty}
use agent_voca.Observer.{compiled}
use agent_voca.Observer.Store.{mark}
use agent_voca.Observer.Controller.{
  Controller, CompiledSession, SessionBundle, Export, raised, nothing, path, paths, Exporter, Hook,
  compiled_message, published, publish, Compiler, Action,
}
use agent_voca.Observer.Controller.Compile.{
  load_bundle, is_path, path_or_empty, add_export, run_exporters, mark_compiled, export_session,
  compile_bundle, run_compile,
}

-- The markdown path that an exporter offers, empty when there is none.
unfoldable pub markdown_of : Export → Text
markdown_of raised = []
markdown_of nothing = []
markdown_of (path t) = t
markdown_of (paths m j) = path_or_empty m

unfoldable pub first_markdown : List Exporter → CompiledSession → SessionBundle → Text
unfolding markdown_of
first_markdown [] s bundle = []
first_markdown (e ∷ es) s bundle =
    let m = markdown_of (e s bundle) in
    let rest = first_markdown es s bundle in if is_empty m then rest else m

-- Whether an exporter has made a file.
unfoldable pub has_output : Export → Bool
has_output raised = false
has_output nothing = false
has_output (path t) = not (is_empty t)
has_output (paths m j) = is_path m || is_path j

unfoldable pub any_output : List Exporter → CompiledSession → SessionBundle → Bool
unfolding has_output
any_output [] s bundle = false
any_output (e ∷ es) s bundle = has_output (e s bundle) || any_output es s bundle

add_export-markdown :
    (e : Export) (m : Text) (j : Option Text)
    → (add_export e (m, j)).0 ≡ (if is_empty m then markdown_of e else m)
unfolding add_export markdown_of
add_export-markdown raised [] j = refl
add_export-markdown raised (x ∷ m) j = refl
add_export-markdown nothing [] j = refl
add_export-markdown nothing (x ∷ m) j = refl
add_export-markdown (path t) m j = refl
add_export-markdown (paths t k) m j = refl

run_exporters-markdown :
    (es : List Exporter) (s : CompiledSession) (bundle : SessionBundle) (m : Text) (j : Option Text)
    → (run_exporters es s bundle (m, j)).0 ≡ (if is_empty m then first_markdown es s bundle else m)
unfolding run_exporters first_markdown
run_exporters-markdown [] s bundle [] j = refl
run_exporters-markdown [] s bundle (x ∷ m) j = refl
run_exporters-markdown (e ∷ es) s bundle m j =
    let (m', j') = add_export (e s bundle) (m, j) in
    run_exporters-markdown es s bundle m' j' ∙ ground (arith, add_export-markdown (e s bundle) m j)

abbrev is_produced : Text × Option Text → Bool
is_produced p = not (is_empty p.0) || is_path p.1

add_export-is_produced :
    (e : Export) (m : Text) (j : Option Text)
    → is_produced (add_export e (m, j)) ≡ (is_produced (m, j) || has_output e)
unfolding add_export has_output
add_export-is_produced raised m j = ground arith
add_export-is_produced nothing m j = ground arith
add_export-is_produced (path t) m j = ground arith
add_export-is_produced (paths t k) m j = ground arith

run_exporters-is_produced :
    (es : List Exporter) (s : CompiledSession) (bundle : SessionBundle) (m : Text) (j : Option Text)
    → is_produced (run_exporters es s bundle (m, j))
      ≡ (is_produced (m, j) || any_output es s bundle)
unfolding run_exporters any_output
run_exporters-is_produced [] s bundle m j = ground arith
run_exporters-is_produced (e ∷ es) s bundle m j =
    let (m', j') = add_export (e s bundle) (m, j) in
    run_exporters-is_produced es s bundle m' j'
    ∙ ground (arith, add_export-is_produced (e s bundle) m j)

-- What a compilation is to produce.
abbrev pub is_success : List Exporter → SessionBundle → Option CompiledSession → Bool
is_success es bundle none = false
is_success es bundle (some s) = any_output es s bundle

abbrev pub markdown_path : List Exporter → SessionBundle → Option CompiledSession → Text
markdown_path es bundle none = []
markdown_path es bundle (some s) = first_markdown es s bundle

abbrev pub is_degraded : Option CompiledSession → Bool
is_degraded none = true
is_degraded (some s) = s.degraded

-- What holds of a controller behind a compilation of the bundle.
abbrev pub IsMarked : ℕ → SessionBundle → Option CompiledSession → Controller → Controller → Type 0
IsMarked i bundle o c c' =
    (c'.manager.store.queue
      ≡ c.manager.store.queue
        ++ (if is_success c.exporters bundle o then mark i compiled ∷ [] else []))
    × ((json : Option Text) × (c'.trace
          ≡ c.trace
            ++ published (
                compiled_message bundle.session.uuid (markdown_path c.exporters bundle o) json
                  (is_degraded o))
              ∷ []))

mark_if-queue :
    (i : ℕ) (c : Controller) (b : Bool)
    → (if b then mark_compiled i c else c).manager.store.queue
      ≡ c.manager.store.queue ++ (if b then mark i compiled ∷ [] else [])
mark_if-queue i c true = refl
mark_if-queue i c false = sym (append-nil c.manager.store.queue)

mark_if-trace :
    (i : ℕ) (c : Controller) (b : Bool) → (if b then mark_compiled i c else c).trace ≡ c.trace
mark_if-trace i c true = refl
mark_if-trace i c false = refl

export_session-IsMarked :
    (i : ℕ) (bundle : SessionBundle) (s : CompiledSession) (c : Controller)
    → IsMarked i bundle (some s) c (export_session i bundle s c)
unfolding export_session
export_session-IsMarked i bundle s c =
    let p = run_exporters c.exporters s bundle ([], none) in
    let message : Text → Action =
      λ m. published (compiled_message bundle.session.uuid m p.1 s.degraded) in
    (
      mark_if-queue i c (is_produced p)
          ∙ ap (λ b. c.manager.store.queue ++ (if b then mark i compiled ∷ [] else []))
              (run_exporters-is_produced c.exporters s bundle [] none),
      (
        p.1,
        ap (λ t. t ++ message p.0 ∷ []) (mark_if-trace i c (is_produced p))
            ∙ ap (λ m. c.trace ++ message m ∷ [])
                (run_exporters-markdown c.exporters s bundle [] none),
      ),
    )

compile_bundle-IsMarked :
    (compile : Compiler) (i : ℕ) (bundle : SessionBundle) (c : Controller)
    → IsMarked i bundle (compile bundle) c (compile_bundle compile i bundle c)
unfolding compile_bundle
compile_bundle-IsMarked compile i bundle c = elim (Option-cases (compile bundle)) [
  | inl e ↦
      let failed : compile_bundle compile i bundle c
          ≡ publish (compiled_message bundle.session.uuid [] none true) c =
        rw (e, compile_bundle) refl in
      subst (λ x. IsMarked i bundle (compile bundle) c x) (sym failed)
        (rw e (sym (append-nil c.manager.store.queue), (none, refl)))
  | inr (s, e) ↦
      let went : compile_bundle compile i bundle c ≡ export_session i bundle s c =
        rw (e, compile_bundle) refl in
      subst (λ x. IsMarked i bundle (compile bundle) c x) (sym went)
        (subst (λ o. IsMarked i bundle o c (export_session i bundle s c)) (sym e)
          (export_session-IsMarked i bundle s c))
]

-- Compiling a stored session publishes exactly one message, with the first markdown path that an exporter
-- gave (empty without one, or when the compiler failed, which counts as degraded), and asks the writer to
-- mark the session as compiled exactly when the compiler succeeded and some exporter gave a path; an
-- exporter that fails or gives nothing changes neither.
pub run_compile-IsMarked :
    (compile : Compiler) (h : Hook) (i : ℕ) (bundle : SessionBundle) (c : Controller)
    → c.compiler_object ≡ some (compile, h)
    → load_bundle i c.manager.store ≡ some bundle
    → IsMarked i bundle (compile bundle) c (run_compile i c)
unfolding run_compile
run_compile-IsMarked compile h i bundle c attached loaded =
    let runs : run_compile i c ≡ compile_bundle compile i bundle c =
      simp (attached, loaded, run_compile) in
    subst (λ x. IsMarked i bundle (compile bundle) c x) (sym runs)
      (compile_bundle-IsMarked compile i bundle c)
