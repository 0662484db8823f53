-- ===== src/Observer/Compile/Rules/Complete.antt =====
-- The records of a compiled session hold every utterance, selection and keyframe once.
use mathlib.Core.Path.{subst}
use mathlib.Core.List.{map-append}
use agent_voca.Prelude.{
  ℕ, suc, ◌≡◌, refl, sym, ap, ◌∙◌, Bool, true, false, Option, none, some, List, [], ◌∷◌, ◌++◌, map,
  append-nil, append_assoc, if◌then◌else◌, arith,
}
use agent_voca.Text.{Text, Unicode}
use agent_voca.Observer.{
  ObserverEvent, ObserverSession, EventKind, utterance_ambient, utterance_dictated, keyframe,
  selection, focus_change, pause_start, pause_end, gap,
}
use agent_voca.Observer.Blocks.{split_blocks}
use agent_voca.Observer.Blocks.Laws.{concat, split_blocks-partition}
use agent_voca.Observer.Compile.{Locale, BlockRecord, Compiled}
use agent_voca.Observer.Compile.Records.{
  Collected, empty_collected, collect_event, collect, is_utterance, utterance_record,
  selection_record, keyframe_record, block_record,
}
use agent_voca.Observer.Compile.Rules.{
  render_empty_session, block_markdown, render_block, render_blocks, document, compile_events,
}

unfoldable pub is_selection : EventKind → Bool
is_selection selection = true
is_selection _ = false

unfoldable pub is_keyframe : EventKind → Bool
is_keyframe keyframe = true
is_keyframe _ = false

-- The events of some kinds, in their order.
unfoldable pub pick : (EventKind → Bool) → List ObserverEvent → List ObserverEvent
pick p [] = []
pick p (e ∷ l) = (if p e.kind then e ∷ [] else []) ++ pick p l

pick-append :
    (p : EventKind → Bool) (a b : List ObserverEvent) → pick p (a ++ b) ≡ pick p a ++ pick p b
unfolding pick
pick-append p [] b = refl
pick-append p (e ∷ a) b =
    let one = if p e.kind then e ∷ [] else [] in
    ap (λ l. one ++ l) (pick-append p a b) ∙ sym (append_assoc one (pick p a) (pick p b))

-- What the blocks give, one after the other.
unfoldable pub concat_map {ℓ κ} : {A : Type ℓ} {B : Type κ} → (A → List B) → List A → List B
concat_map f [] = []
concat_map f (x ∷ l) = f x ++ concat_map f l

concat_map-map {ℓ κ μ} :
    {A : Type ℓ} {B : Type κ} {C : Type μ} (f : B → List C) (g : A → B) (l : List A)
    → concat_map f (map g l) ≡ concat_map (λ x. f (g x)) l
unfolding concat_map
concat_map-map f g [] = refl
concat_map-map f g (x ∷ l) = ap (λ r. f (g x) ++ r) (concat_map-map f g l)

module _ (locale : Locale) where
  abbrev one : (EventKind → Bool) → EventKind → ObserverEvent → List ObserverEvent
  one p k e = if p k then e ∷ [] else []

  -- Each list of the loop takes the events of its kinds.
  collect_event-takes :
      (k : EventKind) (e : ObserverEvent) (c c' : Collected)
      → collect_event locale k e c ≡ some c'
      → (c'.utterances ≡ c.utterances ++ one is_utterance k e)
        × (c'.selections ≡ c.selections ++ one is_selection k e)
        × (c'.keyframes ≡ c.keyframes ++ one is_keyframe k e)
  unfolding collect_event is_utterance is_selection is_keyframe
  collect_event-takes utterance_ambient e c c' h =
      ground (arith, h, append-nil c.selections, append-nil c.keyframes)
  collect_event-takes utterance_dictated e c c' h =
      ground (arith, h, append-nil c.selections, append-nil c.keyframes)
  collect_event-takes selection e c c' h =
      ground (arith, h, append-nil c.utterances, append-nil c.keyframes)
  collect_event-takes keyframe e c c' h =
      ground (arith, h, append-nil c.selections, append-nil c.utterances)
  collect_event-takes pause_start e c c' h =
      ground (arith, h, append-nil c.utterances, append-nil c.selections, append-nil c.keyframes)
  collect_event-takes pause_end e c c' h =
      ground (arith, h, append-nil c.utterances, append-nil c.selections, append-nil c.keyframes)
  collect_event-takes gap e c c' h =
      ground (arith, h, append-nil c.utterances, append-nil c.selections, append-nil c.keyframes)
  collect_event-takes focus_change e c c' h =
      ground (arith, h, append-nil c.utterances, append-nil c.selections, append-nil c.keyframes)

  -- One of the lists, with the kinds of its events and its part of a record.
  module _ {R : Type 0} (field : Collected → List ObserverEvent) (p : EventKind → Bool)
      (make : ObserverEvent → R) (part : BlockRecord → List R)
      (takes : (e : ObserverEvent) (c c' : Collected)
        → collect_event locale e.kind e c ≡ some c'
        → field c' ≡ field c ++ one p e.kind e)
      (kept : (b : List ObserverEvent) (i : ℕ) (c : Collected)
        → part (block_record locale b i c) ≡ map make (field c)) where
    collect-pick :
        (l : List ObserverEvent) (c c' : Collected)
        → collect locale l c ≡ some c'
        → field c' ≡ field c ++ pick p l
    unfolding collect pick
    collect-pick [] c c' h =
        ap (λ (x : Option Collected). field (elim x [ some y ↦ y | none ↦ c ])) (sym h)
        ∙ sym (append-nil (field c))
    collect-pick (e ∷ l) c c' h =
        go (collect_event locale e.kind e c) (λ x. takes e c x) h (λ x. collect-pick l x c')
      where
        go :
            (o : Option Collected)
            → ((x : Collected) → o ≡ some x → field x ≡ field c ++ one p e.kind e)
            → elim o as (λ y. Option Collected) [ none ↦ none | some x ↦ collect locale l x ]
              ≡ some c'
            → ((x : Collected) → collect locale l x ≡ some c' → field c' ≡ field x ++ pick p l)
            → field c' ≡ field c ++ (one p e.kind e ++ pick p l)
        go none t k ih = cc
        go (some x) t k ih =
            ih x k
            ∙ ap (λ y. y ++ pick p l) (t x refl)
            ∙ append_assoc (field c) (one p e.kind e) (pick p l)

    module _ (u : Unicode) where
      render_block-pick :
          (b : List ObserverEvent) (i : ℕ) (r : Text × BlockRecord)
          → field empty_collected ≡ []
          → render_block u locale b i ≡ some r
          → part r.1 ≡ map make (pick p b)
      unfolding render_block
      render_block-pick b i r start h =
          go (collect locale b empty_collected) (λ x. collect-pick b empty_collected x) h
        where
          go :
              (o : Option Collected)
              → ((x : Collected) → o ≡ some x → field x ≡ field empty_collected ++ pick p b)
              → elim o as (λ y. Option (Text × BlockRecord)) [
                | none ↦ none
                | some c ↦ some (block_markdown u locale b c, block_record locale b i c)
              ]
                ≡ some r
              → part r.1 ≡ map make (pick p b)
          go none t k = cc
          go (some c) t k =
              ap (λ (x : Option (Text × BlockRecord)). part (elim x [ some y ↦ y.1 | none ↦ r.1 ]))
                (sym k)
              ∙ kept b i c
              ∙ ap (map make) (t c refl ∙ ap (λ x. x ++ pick p b) start)

      render_blocks-pick :
          (bs : List (List ObserverEvent)) (i : ℕ) (rs : List (Text × BlockRecord))
          → field empty_collected ≡ []
          → render_blocks u locale bs i ≡ some rs
          → concat_map (λ (r : Text × BlockRecord). part r.1) rs ≡ map make (pick p (concat bs))
      unfolding render_blocks concat concat_map pick
      render_blocks-pick [] i rs start h =
          ap
            (λ (x : Option (List (Text × BlockRecord))).
              concat_map (λ (r : Text × BlockRecord). part r.1) (elim x [ some y ↦ y | none ↦ [] ]))
            (sym h)
      render_blocks-pick (b ∷ bs) i rs start h =
          go (render_block u locale b i) (render_blocks u locale bs (suc i))
            (λ r. render_block-pick b i r start) (λ l. render_blocks-pick bs (suc i) l start) h
        where
          go :
              (o : Option (Text × BlockRecord)) (o' : Option (List (Text × BlockRecord)))
              → ((r : Text × BlockRecord) → o ≡ some r → part r.1 ≡ map make (pick p b))
              → ((l : List (Text × BlockRecord))
                  → o' ≡ some l
                  → concat_map (λ (r : Text × BlockRecord). part r.1) l
                    ≡ map make (pick p (concat bs)))
              → elim o as (λ y. Option (List (Text × BlockRecord))) [
                | none ↦ none
                | some r ↦ elim o' [ none ↦ none | some l ↦ some (r ∷ l) ]
              ]
                ≡ some rs
              → concat_map (λ (r : Text × BlockRecord). part r.1) rs
                ≡ map make (pick p (b ++ concat bs))
          go none o' f g k = cc
          go (some r) none f g k = cc
          go (some r) (some l) f g k =
              ap
                (λ (x : Option (List (Text × BlockRecord))).
                  concat_map (λ (r : Text × BlockRecord). part r.1)
                    (elim x [ some y ↦ y | none ↦ [] ]))
                (sym k)
              ∙ ap (λ x. x ++ concat_map (λ (r : Text × BlockRecord). part r.1) l) (f r refl)
              ∙ ap (λ x. map make (pick p b) ++ x) (g l refl)
              ∙ sym (map-append make (pick p b) (pick p (concat bs)))
              ∙ ap (map make) (sym (pick-append p b (concat bs)))

-- The parts of the records hold the events of their kinds.
abbrev pub HoldsAll : Locale → List ObserverEvent → List BlockRecord → Type 0
HoldsAll locale events blocks =
    (concat_map (λ (r : BlockRecord). r.utterances) blocks
      ≡ map (utterance_record locale) (pick is_utterance events))
    × (concat_map (λ (r : BlockRecord). r.selections) blocks
        ≡ map (selection_record locale) (pick is_selection events))
    × (concat_map (λ (r : BlockRecord). r.keyframes) blocks
        ≡ map (keyframe_record locale) (pick is_keyframe events))

module _ (u : Unicode) (locale : Locale) where
  render_blocks-HoldsAll :
      (bs : List (List ObserverEvent)) (i : ℕ) (rs : List (Text × BlockRecord))
      → render_blocks u locale bs i ≡ some rs
      → HoldsAll locale (concat bs) (map (λ (r : Text × BlockRecord). r.1) rs)
  unfolding block_record
  render_blocks-HoldsAll bs i rs h = (
    concat_map-map (λ (r : BlockRecord). r.utterances) (λ (r : Text × BlockRecord). r.1) rs
        ∙ render_blocks-pick locale (λ (c : Collected). c.utterances) is_utterance
            (utterance_record locale) (λ (r : BlockRecord). r.utterances)
            (λ e c c' k. (collect_event-takes locale e.kind e c c' k).0) (λ b j c. refl) u bs i rs
            refl h,
    concat_map-map (λ (r : BlockRecord). r.selections) (λ (r : Text × BlockRecord). r.1) rs
        ∙ render_blocks-pick locale (λ (c : Collected). c.selections) is_selection
            (selection_record locale) (λ (r : BlockRecord). r.selections)
            (λ e c c' k. (collect_event-takes locale e.kind e c c' k).1) (λ b j c. refl) u bs i rs
            refl h,
    concat_map-map (λ (r : BlockRecord). r.keyframes) (λ (r : Text × BlockRecord). r.1) rs
        ∙ render_blocks-pick locale (λ (c : Collected). c.keyframes) is_keyframe
            (keyframe_record locale) (λ (r : BlockRecord). r.keyframes)
            (λ e c c' k. (collect_event-takes locale e.kind e c c' k).2) (λ b j c. refl) u bs i rs
            refl h,
  )

  -- When the rules compiler returns, whatever the session: the records of its blocks, one after the
  -- other, hold every utterance of the session once and in order, with its time stamp, its text and
  -- its source, and likewise every selection and every keyframe, and no others.
  pub compile_events-HoldsAll :
      (session : ObserverSession) (events : List ObserverEvent) (c : Compiled)
      → compile_events u locale session events ≡ some c
      → HoldsAll locale events c.blocks
  unfolding compile_events document render_empty_session concat_map pick
  compile_events-HoldsAll session [] c h =
      subst
        (λ (x : Option Compiled).
          HoldsAll locale [] (elim x as (λ y. List BlockRecord) [ some d ↦ d.blocks | none ↦ [] ]))
        h (refl, refl, refl)
  compile_events-HoldsAll session (e ∷ l) c h =
      go (render_blocks u locale (split_blocks (e ∷ l)) 0)
        (λ rs. render_blocks-HoldsAll (split_blocks (e ∷ l)) 0 rs) h
    where
      go :
          (o : Option (List (Text × BlockRecord)))
          → ((rs : List (Text × BlockRecord))
              → o ≡ some rs
              → HoldsAll locale
                  (concat (split_blocks (e ∷ l)))
                  (map (λ (r : Text × BlockRecord). r.1) rs))
          → elim o as (λ y. Option Compiled) [
            | none ↦ none
            | some rs ↦ some (document u locale (e ∷ l) rs)
          ]
            ≡ some c
          → HoldsAll locale (e ∷ l) c.blocks
      go none f k = cc
      go (some rs) f k =
          subst
            (λ (x : Option Compiled).
              HoldsAll locale (e ∷ l)
                (elim x as (λ y. List BlockRecord) [ some d ↦ d.blocks | none ↦ [] ]))
            k
            (subst (λ x. HoldsAll locale x (map (λ (r : Text × BlockRecord). r.1) rs))
              (split_blocks-partition (e ∷ l)).0 (f rs refl))
