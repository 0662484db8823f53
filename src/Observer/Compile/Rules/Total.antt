-- ===== src/Observer/Compile/Rules/Total.antt =====
-- The rules compiler returns, unless a gap counts what it dropped by something that is no number.
use mathlib.Core.Path.{subst}
use agent_voca.Prelude.{ℕ, suc, ◌≡◌, refl, sym, Option, some, List, [], ◌∷◌, ◌++◌, All}
use agent_voca.Text.{Unicode}
use agent_voca.Observer.{
  ObserverEvent, ObserverSession, EventKind, utterance_ambient, utterance_dictated, keyframe,
  selection, focus_change, pause_start, pause_end, gap,
}
use agent_voca.Observer.Blocks.{split_blocks}
use agent_voca.Observer.Blocks.Laws.{concat, split_blocks-partition}
use agent_voca.Observer.Compile.{Locale, Compiled}
use agent_voca.Observer.Compile.Records.{
  Collected, empty_collected, collect_event, collect, meta_dropped,
}
use agent_voca.Observer.Compile.Rules.{render_block, render_blocks, compile_events, document}
use agent_voca.Observer.Compile.Rules.Complete.{HoldsAll, compile_events-HoldsAll}

abbrev IsSome {ℓ} : {A : Type ℓ} → Option A → Type ℓ
IsSome {A} o = (a : A) × (o ≡ some a)

All-front {ℓ κ} : {A : Type ℓ} (P : A → Type κ) (a b : List A) → All P (a ++ b) → All P a
All-front P [] b h = tt
All-front P (x ∷ a) b h = (h.0, All-front P a b h.1)

All-back {ℓ κ} : {A : Type ℓ} (P : A → Type κ) (a b : List A) → All P (a ++ b) → All P b
All-back P [] b h = h
All-back P (x ∷ a) b h = All-back P a b h.1

module _ (u : Unicode) (locale : Locale) where
  -- `int` takes the event's number of dropped items.
  abbrev pub CountsDropped : ObserverEvent → Type 0
  CountsDropped e = IsSome (meta_dropped locale e)

  collect_event-total :
      (k : EventKind) (e : ObserverEvent) (c : Collected)
      → CountsDropped e
      → IsSome (collect_event locale k e c)
  unfolding collect_event
  collect_event-total utterance_ambient e c h = (_, refl)
  collect_event-total utterance_dictated e c h = (_, refl)
  collect_event-total keyframe e c h = (_, refl)
  collect_event-total selection e c h = (_, refl)
  collect_event-total focus_change e c h = (_, refl)
  collect_event-total pause_start e c h = (_, refl)
  collect_event-total pause_end e c h = (_, refl)
  collect_event-total gap e c h = rw h.1 (_, refl)

  collect-total :
      (l : List ObserverEvent) (c : Collected) → All CountsDropped l → IsSome (collect locale l c)
  unfolding collect
  collect-total [] c h = (c, refl)
  collect-total (e ∷ l) c h =
      let first = collect_event-total e.kind e c h.0 in
      rw (first.1, collect) (collect-total l first.0 h.1)

  render_block-total :
      (b : List ObserverEvent) (i : ℕ) → All CountsDropped b → IsSome (render_block u locale b i)
  unfolding render_block
  render_block-total b i h = rw ((collect-total b empty_collected h).1, render_block) (_, refl)

  render_blocks-total :
      (bs : List (List ObserverEvent)) (i : ℕ)
      → All CountsDropped (concat bs)
      → IsSome (render_blocks u locale bs i)
  unfolding render_blocks concat
  render_blocks-total [] i h = ([], refl)
  render_blocks-total (b ∷ bs) i h =
      rw ((render_block-total b i (All-front CountsDropped b (concat bs) h)).1, render_blocks)
        (rw (render_blocks-total bs (suc i) (All-back CountsDropped b (concat bs) h)).1 (_, refl))

  -- When the number of dropped items of every event is missing or a number: the rules compiler
  -- returns, and the records of its blocks, one after the other, hold every utterance of the session
  -- once and in order, with its time stamp, its text and its source, and likewise every selection and
  -- every keyframe, and no others.
  pub compile_events-IsComplete :
      (session : ObserverSession) (events : List ObserverEvent)
      → All CountsDropped events
      → (c : Compiled) × (compile_events u locale session events ≡ some c)
        × HoldsAll locale events c.blocks
  unfolding compile_events
  compile_events-IsComplete session [] h =
      (_, refl, compile_events-HoldsAll u locale session [] _ refl)
  compile_events-IsComplete session (e ∷ l) h =
      let whole : concat (split_blocks (e ∷ l)) ≡ e ∷ l = (split_blocks-partition (e ∷ l)).0 in
      let counted : All CountsDropped (concat (split_blocks (e ∷ l))) =
        subst (All CountsDropped) (sym whole) h in
      let rendered = render_blocks-total (split_blocks (e ∷ l)) 0 counted in
      let returns : compile_events u locale session (e ∷ l)
          ≡ some (document u locale (e ∷ l) rendered.0) =
        rw (rendered.1, compile_events) in
      (
        document u locale (e ∷ l) rendered.0,
        returns,
        compile_events-HoldsAll u locale session (e ∷ l) _ returns,
      )
