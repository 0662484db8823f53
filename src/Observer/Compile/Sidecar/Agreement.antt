-- ===== src/Observer/Compile/Sidecar/Agreement.antt =====
-- The blocks of observer/export/json_sidecar.py agree with those of observer/compile/rules.py.
use mathlib.Core.Path.{subst}
use agent_voca.Prelude.{ℕ, suc, ◌≡◌, ◌≢◌, refl, sym, Option, none, some, List, [], ◌∷◌, map, All}
use agent_voca.Text.{Text, Unicode}
use agent_voca.Observer.{ObserverEvent, ObserverSession}
use agent_voca.Observer.Blocks.{split_blocks, block_window, last}
use agent_voca.Observer.Blocks.Laws.{IsBlock, split_blocks-partition}
use agent_voca.Observer.Compile.{Locale, BlockRecord, Compiled}
use agent_voca.Observer.Compile.Records.{
  Collected, empty_collected, collect, gap_records, block_record,
}
use agent_voca.Observer.Compile.Rules.{
  block_markdown, render_block, render_blocks, render_empty_session, document, compile_events,
}
use agent_voca.Observer.Compile.Sidecar.{
  Entries, no_entries, add_entries, entry_of, build_entries, build_blocks,
}
use agent_voca.Observer.Compile.Sidecar.Events.{
  WithEnds, all_gaps, gap_records-WithEnds, Follows, Match, events_match,
}

-- The records of one block, of the rules compiler and of the file.
abbrev pub Agrees : BlockRecord → BlockRecord → Type 0
Agrees r j =
    (j.index ≡ r.index)
    × (j.started_at_ms ≡ r.started_at_ms)
    × (j.ended_at_ms ≡ r.ended_at_ms)
    × (j.utterances ≡ r.utterances)
    × (j.selections ≡ r.selections)
    × (j.keyframes ≡ r.keyframes)
    × WithEnds r.gaps j.gaps

unfoldable pub AllAgree : List BlockRecord → List BlockRecord → Type 0
AllAgree [] [] = Unit
AllAgree [] (_ ∷ _) = ⊥
AllAgree (_ ∷ _) [] = ⊥
AllAgree (r ∷ rs) (j ∷ js) = Agrees r j × AllAgree rs js

-- Both raise, or both give records, which agree one by one.
abbrev pub BothAgree : Option (List BlockRecord) → Option (List BlockRecord) → Type 0
BothAgree none none = Unit
BothAgree none (some js) = ⊥
BothAgree (some rs) none = ⊥
BothAgree (some rs) (some js) = AllAgree rs js

abbrev records_of : Option (List (Text × BlockRecord)) → Option (List BlockRecord)
records_of none = none
records_of (some rs) = some (map (λ (r : Text × BlockRecord). r.1) rs)

last_ne_none : (e : ObserverEvent) (l : List ObserverEvent) → last (e ∷ l) ≢ none
unfolding last
last_ne_none e [] h = cc
last_ne_none e (x ∷ l) h = last_ne_none x l h

window :
    (e : ObserverEvent) (o : Option ObserverEvent)
    → o ≢ none
    → let w : ℕ × ℕ = elim o [ none ↦ (0, 0) | some z ↦ (e.ts_ms, z.ts_ms) ] in
      (e.ts_ms ≡ w.0) × (elim o as (λ y. ℕ) [ none ↦ 0 | some z ↦ z.ts_ms ] ≡ w.1)
window e none h = absurd (h refl)
window e (some z) h = (refl, refl)

All-map {ℓ κ μ} :
    {A : Type ℓ} (P : A → Type κ) (Q : A → Type μ) (l : List A)
    → ((a : A) → P a → Q a)
    → All P l
    → All Q l
All-map P Q [] f h = tt
All-map P Q (a ∷ l) f h = (f a h.0, All-map P Q l f h.1)

-- The blocks of what a compiler returns.
abbrev pub blocks_of : Option Compiled → Option (List BlockRecord)
blocks_of none = none
blocks_of (some c) = some c.blocks

module _ (u : Unicode) (locale : Locale) (summaries : List BlockRecord) where
  one_block :
      (e : ObserverEvent) (l : List ObserverEvent) (i : ℕ) (c : Collected) (x : Entries)
      → Follows locale c x
      → Agrees (block_record locale (e ∷ l) i c) (entry_of locale summaries e l i x)
  unfolding block_record entry_of block_window
  one_block e l i c x f =
      let w = window e (last (e ∷ l)) (last_ne_none e l) in
      (
        refl,
        w.0,
        w.1,
        f.0,
        f.1,
        f.2,
        subst (WithEnds (gap_records locale c.pauses)) (sym f.3)
            (gap_records-WithEnds locale c.pauses),
      )

  blocks_agree :
      (bs : List (List ObserverEvent)) (i : ℕ)
      → All (λ b. b ≢ []) bs
      → BothAgree (records_of (render_blocks u locale bs i)) (build_entries locale summaries bs i)
  unfolding render_blocks build_entries render_block AllAgree all_gaps
  blocks_agree [] i h = tt
  blocks_agree ([] ∷ bs) i h = absurd (h.0 refl)
  blocks_agree ((e ∷ l) ∷ bs) i h =
      go (collect locale (e ∷ l) empty_collected) (add_entries locale (e ∷ l) no_entries)
        (render_blocks u locale bs (suc i)) (build_entries locale summaries bs (suc i))
        (events_match locale (e ∷ l) empty_collected no_entries (refl, refl, refl, refl))
        (blocks_agree bs (suc i) h.1)
    where
      go :
          (o : Option Collected) (o' : Option Entries) (r : Option (List (Text × BlockRecord)))
          (r' : Option (List BlockRecord))
          → Match locale o o'
          → BothAgree (records_of r) r'
          → BothAgree
              (records_of
                (elim (elim o as (λ z. Option (Text × BlockRecord)) [
                  | none ↦ none
                  | some c ↦
                      some (block_markdown u locale (e ∷ l) c, block_record locale (e ∷ l) i c)
                ])
                  as (λ z. Option (List (Text × BlockRecord))) [
                    | none ↦ none
                    | some x ↦ elim r [ none ↦ none | some rs ↦ some (x ∷ rs) ]
                  ]))
              (elim o' as (λ z. Option (List BlockRecord)) [
                | none ↦ none
                | some c ↦ elim r' [
                  | none ↦ none
                  | some rs ↦ some (entry_of locale summaries e l i c ∷ rs)
                ]
              ])
      go none none r r' m k = tt
      go none (some y) r r' m k = absurd m
      go (some d) none r r' m k = absurd m
      go (some d) (some y) none none m k = tt
      go (some d) (some y) none (some rs) m k = absurd k
      go (some d) (some y) (some rs) none m k = absurd k
      go (some d) (some y) (some rs) (some js) m k = (one_block e l i d y m, k)

module _ (u : Unicode) (locale : Locale) where
  -- Whatever the session, and whatever compiler the summaries come from: the JSON file's blocks and
  -- those of the rules compiler are both refused, or they are equally many, and agree one by one in the
  -- index, the times, the utterances, the selections and the keyframes. The gaps of the file are those of
  -- the rules compiler with entries for the ends of pauses put in.
  pub build_blocks-BothAgree :
      (session : ObserverSession) (events : List ObserverEvent) (compiled : Compiled)
      → BothAgree
          (blocks_of (compile_events u locale session events))
          (build_blocks locale compiled events)
  unfolding compile_events build_blocks document render_empty_session split_blocks AllAgree
  build_blocks-BothAgree session [] compiled = tt
  build_blocks-BothAgree session (e ∷ l) compiled =
      go (render_blocks u locale (split_blocks (e ∷ l)) 0)
        (build_entries locale compiled.blocks (split_blocks (e ∷ l)) 0)
        (blocks_agree u locale compiled.blocks (split_blocks (e ∷ l)) 0 (
          All-map IsBlock (λ b. b ≢ []) (split_blocks (e ∷ l)) (λ b k. k.0)
            (split_blocks-partition (e ∷ l)).1))
    where
      go :
          (o : Option (List (Text × BlockRecord))) (o' : Option (List BlockRecord))
          → BothAgree (records_of o) o'
          → BothAgree
              (blocks_of (elim o as (λ z. Option Compiled) [
                | none ↦ none
                | some rs ↦ some (document u locale (e ∷ l) rs)
              ]))
              o'
      go none none k = k
      go none (some js) k = k
      go (some rs) none k = k
      go (some rs) (some js) k = k
