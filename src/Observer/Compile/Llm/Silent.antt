-- ===== src/Observer/Compile/Llm/Silent.antt =====
-- The compiler of observer/compile/openai_compatible.py when its language model is silent.
use agent_voca.Prelude.{
  ℕ, suc, ◌≡◌, refl, ap, Bool, true, false, ◌||◌, Option, none, some, List, [], ◌∷◌, map, All,
  arith,
}
use agent_voca.Text.{Text, Unicode}
use agent_voca.Observer.{ObserverEvent, ObserverSession}
use agent_voca.Observer.Blocks.{split_blocks}
use agent_voca.Observer.Compile.{Locale, BlockRecord, Compiled}
use agent_voca.Observer.Compile.Rules.{render_blocks, document, compile_events}
use agent_voca.Observer.Compile.Rules.Complete.{HoldsAll}
use agent_voca.Observer.Compile.Rules.Total.{CountsDropped, compile_events-IsComplete}
use agent_voca.Observer.Compile.Prompts.{strip_unsafe_markdown}
use agent_voca.Observer.Compile.Llm.{
  Remote, parse_block_response, serialise_block, ask_block, stitch, compile_blocks, summaries_of,
  some_given, ask_session, assemble, compile_with_llm,
}
use agent_voca.Observer.Compile.Llm.Kept.{SameLength, render_blocks-SameLength, Returns}

module _ (u : Unicode) (locale : Locale) where
  module _ (remote : Remote) where
    -- A block whose call fails, beside its rendering.
    abbrev unanswered : Text × BlockRecord → Text × Text × BlockRecord
    unanswered r = (r.0, [], r.1)

    some_given-unanswered :
        (rs : List (Text × BlockRecord))
        → some_given u locale remote (summaries_of u locale remote (map unanswered rs)) ≡ false
    unfolding some_given
    some_given-unanswered [] = refl
    some_given-unanswered (r ∷ rs) = some_given-unanswered rs

    records-unanswered :
        (rs : List (Text × BlockRecord))
        → map (λ (x : Text × Text × BlockRecord). x.2) (map unanswered rs)
          ≡ map (λ (r : Text × BlockRecord). r.1) rs
    records-unanswered [] = refl
    records-unanswered (r ∷ rs) = ap (λ l. r.1 ∷ l) (records-unanswered rs)

    module _ (silent : (i : ℕ) (input : Text) → remote.chat_block i input ≡ none) where
      ask_block-silent : (b : List ObserverEvent) (i : ℕ) → ask_block u locale remote b i ≡ none
      unfolding ask_block
      ask_block-silent b i = go (serialise_block u locale b)
        where
          go :
              (o : Option Text)
              → elim o as (λ z. Option (Text × Text)) [
                | none ↦ none
                | some input ↦ elim (remote.chat_block i input) [
                  | none ↦ none
                  | some raw ↦ elim (parse_block_response u locale remote raw) [
                    | none ↦ none
                    | some r ↦ some (strip_unsafe_markdown u r.0, r.1)
                  ]
                ]
              ]
                ≡ none
          go none = refl
          go (some input) = rw (silent i input) refl

      compile_blocks-silent :
          (bs : List (List ObserverEvent)) (rs : List (Text × BlockRecord)) (i : ℕ)
          → SameLength bs rs
          → compile_blocks u locale remote bs rs i ≡ map unanswered rs
      unfolding compile_blocks SameLength stitch
      compile_blocks-silent [] [] i h = refl
      compile_blocks-silent [] (r ∷ rs) i h = absurd h
      compile_blocks-silent (b ∷ bs) [] i h = absurd h
      compile_blocks-silent (b ∷ bs) (r ∷ rs) i h =
          rw (ask_block-silent b i)
            (ap (λ x. unanswered r ∷ x) (compile_blocks-silent bs rs (suc i) h))

      -- Behind unanswered blocks the session is not asked for a summary either.
      assemble-unanswered :
          (rs : List (Text × BlockRecord)) (rules : Compiled)
          → let c = assemble u locale remote (map unanswered rs) rules in
            (c.blocks ≡ map (λ (r : Text × BlockRecord). r.1) rs)
            × (c.summary ≡ rules.summary)
            × (c.degraded ≡ true)
      unfolding assemble ask_session
      assemble-unanswered rs rules =
          let quiet = some_given-unanswered rs in
          (records-unanswered rs, rw quiet refl, rw quiet (or_true _))
        where
          or_true : (b : Bool) → (b || true) ≡ true
          or_true true = refl
          or_true false = refl

      -- When every call of the language model for a block fails, and the number of dropped items of
      -- every event is missing or a number: the compiler of a session with events returns the block
      -- records and the summary of the rules compiler, marked as degraded.
      pub compile_with_llm-silent :
          (session : ObserverSession) (e : ObserverEvent) (l : List ObserverEvent)
          → All (CountsDropped u locale) (e ∷ l)
          → (c r : Compiled) × (compile_with_llm u locale remote session (e ∷ l) ≡ some c)
            × (compile_events u locale session (e ∷ l) ≡ some r)
            × (c.blocks ≡ r.blocks)
            × (c.summary ≡ r.summary)
            × (c.degraded ≡ true)
      unfolding compile_with_llm compile_events document
      compile_with_llm-silent session e l h =
          go (render_blocks u locale (split_blocks (e ∷ l)) 0) refl
            (compile_events-IsComplete u locale session (e ∷ l) h)
        where
          go :
              (o : Option (List (Text × BlockRecord)))
              → render_blocks u locale (split_blocks (e ∷ l)) 0 ≡ o
              → Returns u locale remote
                  (elim o as (λ z. Option Compiled) [
                    | none ↦ none
                    | some rs ↦ some (document u locale (e ∷ l) rs)
                  ])
                  (λ c. HoldsAll locale (e ∷ l) c.blocks)
              → (c r : Compiled) × (elim o as (λ z. Option Compiled) [
                | none ↦ none
                | some rs ↦ some (
                    assemble u locale remote
                      (compile_blocks u locale remote (split_blocks (e ∷ l)) rs 0)
                      (document u locale (e ∷ l) rs))
              ]
                  ≡ some c)
                × (elim o as (λ z. Option Compiled) [
                  | none ↦ none
                  | some rs ↦ some (document u locale (e ∷ l) rs)
                ]
                    ≡ some r)
                × (c.blocks ≡ r.blocks)
                × (c.summary ≡ r.summary)
                × (c.degraded ≡ true)
          go none r (c, k, held) = absurd (ground (arith, k))
          go (some rs) r held =
              let rules = document u locale (e ∷ l) rs in
              let same =
                compile_blocks-silent (split_blocks (e ∷ l)) rs 0
                  (render_blocks-SameLength u locale (split_blocks (e ∷ l)) 0 rs r) in
              let kept = assemble-unanswered rs rules in
              (
                assemble u locale remote (map unanswered rs) rules,
                rules,
                ap (λ x. some (assemble u locale remote x rules)) same,
                refl,
                kept.0,
                kept.1,
                kept.2,
              )
