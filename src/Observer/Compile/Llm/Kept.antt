-- ===== src/Observer/Compile/Llm/Kept.antt =====
-- What the compiler of observer/compile/openai_compatible.py keeps of the rules compiler's work.
use mathlib.Core.Path.{subst}
use agent_voca.Prelude.{
  ℕ, suc, ◌≡◌, refl, sym, ap, ◌∙◌, Option, none, some, List, [], ◌∷◌, ◌++◌, map, All, arith,
}
use agent_voca.Text.{Text, Unicode}
use agent_voca.Observer.{ObserverEvent, ObserverSession}
use agent_voca.Observer.Blocks.{split_blocks}
use agent_voca.Observer.Compile.{Locale, BlockRecord, Compiled}
use agent_voca.Observer.Compile.Rules.{render_block, render_blocks, document, compile_events}
use agent_voca.Observer.Compile.Rules.Complete.{HoldsAll, concat_map, compile_events-HoldsAll}
use agent_voca.Observer.Compile.Rules.Total.{CountsDropped, compile_events-IsComplete}
use agent_voca.Observer.Compile.Llm.{
  Remote, ask_block, stitch, compile_blocks, assemble, compile_with_llm,
}

-- As many renderings as blocks.
unfoldable pub SameLength : {A B : Type 0} → List A → List B → Type 0
SameLength [] [] = Unit
SameLength [] (_ ∷ _) = ⊥
SameLength (_ ∷ _) [] = ⊥
SameLength (a ∷ as') (b ∷ bs) = SameLength as' bs

module _ (u : Unicode) (locale : Locale) where
  pub render_blocks-SameLength :
      (bs : List (List ObserverEvent)) (i : ℕ) (rs : List (Text × BlockRecord))
      → render_blocks u locale bs i ≡ some rs
      → SameLength bs rs
  unfolding render_blocks SameLength
  render_blocks-SameLength [] i [] h = tt
  render_blocks-SameLength [] i (r ∷ rs) h = cc
  render_blocks-SameLength (b ∷ bs) i rs h =
      go (render_block u locale b i) (render_blocks u locale bs (suc i)) rs
        (λ l. render_blocks-SameLength bs (suc i) l) h
    where
      go :
          (o : Option (Text × BlockRecord)) (o' : Option (List (Text × BlockRecord)))
          (rs' : List (Text × BlockRecord))
          → ((l : List (Text × BlockRecord)) → o' ≡ some l → SameLength bs l)
          → elim o as (λ y. Option (List (Text × BlockRecord))) [
            | none ↦ none
            | some r ↦ elim o' [ none ↦ none | some l ↦ some (r ∷ l) ]
          ]
            ≡ some rs'
          → SameLength (b ∷ bs) rs'
      go none o' rs' f h' = cc
      go (some r) none rs' f h' = cc
      go (some r) (some l) [] f h' = cc
      go (some r) (some l) (x ∷ l') f h' = f l' (cc h')

  module _ (remote : Remote) where
    -- A part of the records that is no summary stays as the rules compiler made it.
    module _ {R : Type 0} (part : BlockRecord → List R)
        (kept : (r : BlockRecord) (t : Text) → part (record r { summary = t }) ≡ part r) where
      stitch-part :
          (o : Option (Text × Text)) (r : Text × BlockRecord)
          → part (stitch u locale remote o r).2 ≡ part r.1
      unfolding stitch
      stitch-part none r = refl
      stitch-part (some (body, t)) r = kept r.1 t

      compile_blocks-part :
          (bs : List (List ObserverEvent)) (rs : List (Text × BlockRecord)) (i : ℕ)
          → SameLength bs rs
          → concat_map part (
              map (λ (x : Text × Text × BlockRecord). x.2) (compile_blocks u locale remote bs rs i))
            ≡ concat_map part (map (λ (r : Text × BlockRecord). r.1) rs)
      unfolding compile_blocks SameLength concat_map
      compile_blocks-part [] [] i h = refl
      compile_blocks-part [] (r ∷ rs) i h = absurd h
      compile_blocks-part (b ∷ bs) [] i h = absurd h
      compile_blocks-part (b ∷ bs) (r ∷ rs) i h =
          ap
            (λ x.
              x
              ++ concat_map part (
                  map (λ (y : Text × Text × BlockRecord). y.2)
                    (compile_blocks u locale remote bs rs (suc i))))
            (stitch-part (ask_block u locale remote b i) r)
          ∙ ap (λ x. part r.1 ++ x) (compile_blocks-part bs rs (suc i) h)

    results-HoldsAll :
        (events : List ObserverEvent) (bs : List (List ObserverEvent))
        (rs : List (Text × BlockRecord))
        → SameLength bs rs
        → HoldsAll locale events (map (λ (r : Text × BlockRecord). r.1) rs)
        → HoldsAll locale events
            (map (λ (x : Text × Text × BlockRecord). x.2) (compile_blocks u locale remote bs rs 0))
    results-HoldsAll events bs rs h k = (
      compile_blocks-part (λ (r : BlockRecord). r.utterances) (λ r t. refl) bs rs 0 h ∙ k.0,
      compile_blocks-part (λ (r : BlockRecord). r.selections) (λ r t. refl) bs rs 0 h ∙ k.1,
      compile_blocks-part (λ (r : BlockRecord). r.keyframes) (λ r t. refl) bs rs 0 h ∙ k.2,
    )

    abbrev pub Returns : Option Compiled → (Compiled → Type 0) → Type 0
    Returns o P = (c : Compiled) × (o ≡ some c) × P c

    -- When the number of dropped items of every event is missing or a number: whatever the language model
    -- answers, and whichever of its calls fail, the compiler returns, and the records of its blocks hold
    -- every utterance, every selection and every keyframe of the session once and in order.
    pub compile_with_llm-IsComplete :
        (session : ObserverSession) (events : List ObserverEvent)
        → All (CountsDropped u locale) events
        → (c : Compiled) × (compile_with_llm u locale remote session events ≡ some c)
          × HoldsAll locale events c.blocks
    unfolding compile_with_llm assemble compile_events
    compile_with_llm-IsComplete session [] h =
        (_, refl, compile_events-HoldsAll u locale session [] _ refl)
    compile_with_llm-IsComplete session (e ∷ l) h =
        go (render_blocks u locale (split_blocks (e ∷ l)) 0) refl
          (compile_events-IsComplete u locale session (e ∷ l) h)
      where
        go :
            (o : Option (List (Text × BlockRecord)))
            → render_blocks u locale (split_blocks (e ∷ l)) 0 ≡ o
            → Returns
                (elim o as (λ z. Option Compiled) [
                  | none ↦ none
                  | some rs ↦ some (document u locale (e ∷ l) rs)
                ])
                (λ c. HoldsAll locale (e ∷ l) c.blocks)
            → Returns
                (elim o as (λ z. Option Compiled) [
                  | none ↦ none
                  | some rs ↦ some (
                      assemble u locale remote
                        (compile_blocks u locale remote (split_blocks (e ∷ l)) rs 0)
                        (document u locale (e ∷ l) rs))
                ])
                (λ c. HoldsAll locale (e ∷ l) c.blocks)
        go none r (c, k, held) = absurd (ground (arith, k))
        go (some rs) r (c, k, held) = (
          _,
          refl,
          results-HoldsAll (e ∷ l) (split_blocks (e ∷ l)) rs
              (render_blocks-SameLength (split_blocks (e ∷ l)) 0 rs r)
              (subst
                (λ (x : Option Compiled).
                  HoldsAll locale (e ∷ l)
                    (elim x as (λ y. List BlockRecord) [ some d ↦ d.blocks | none ↦ [] ]))
                (sym k) held),
        )
