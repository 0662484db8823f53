-- ===== src/Observer/Compile/Sidecar/Events.antt =====
-- The events of a block, as observer/export/json_sidecar.py and observer/compile/rules.py gather them.
use mathlib.Core.List.{map-append}
use agent_voca.Prelude.{
  ℕ, ◌≡◌, refl, sym, ap, ◌∙◌, Bool, true, false, Option, none, some, List, [], ◌∷◌, ◌++◌, map,
}
use agent_voca.Text.{codes}
use agent_voca.Observer.{
  ObserverEvent, EventKind, utterance_ambient, utterance_dictated, keyframe, selection,
  focus_change, pause_start, pause_end, gap,
}
use agent_voca.Observer.Compile.{Locale, Gap}
use agent_voca.Observer.Compile.Records.{
  Pause, started, ended, dropped_at, Collected, add_gap, collect_event, collect, utterance_record,
  selection_record, keyframe_record, gap_records, meta_dropped, meta_text, is_dictated,
}
use agent_voca.Observer.Compile.Sidecar.{
  Entries, add_utterance, add_gap_entry, add_entry, add_entries,
}

-- The second list is the first one, with entries for the ends of pauses put in.
pub data WithEnds : List Gap → List Gap → Type 0 where
  finish : WithEnds [] []
  keep : {a b : List Gap} (g : Gap) → WithEnds a b → WithEnds (g ∷ a) (g ∷ b)
  insert_end :
      {a b : List Gap} (t : ℕ)
      → WithEnds a b
      → WithEnds a (record { ts_ms = t; reason = codes "pause_end"; dropped = 0 } ∷ b)

-- `gaps`, with the ends of pauses
unfoldable pub all_gaps : List Pause → List Gap
all_gaps [] = []
all_gaps (started t reason ∷ l) =
    record { ts_ms = t; reason = codes "pause_" ++ reason; dropped = 0 } ∷ all_gaps l
all_gaps (ended t ∷ l) = record { ts_ms = t; reason = codes "pause_end"; dropped = 0 } ∷ all_gaps l
all_gaps (dropped_at t reason n ∷ l) =
    record { ts_ms = t; reason = reason; dropped = n } ∷ all_gaps l

all_gaps-append : (a b : List Pause) → all_gaps (a ++ b) ≡ all_gaps a ++ all_gaps b
unfolding all_gaps
all_gaps-append [] b = refl
all_gaps-append (started t reason ∷ a) b =
    ap (λ l. record { ts_ms = t; reason = codes "pause_" ++ reason; dropped = 0 } ∷ l)
      (all_gaps-append a b)
all_gaps-append (ended t ∷ a) b =
    ap (λ l. record { ts_ms = t; reason = codes "pause_end"; dropped = 0 } ∷ l)
      (all_gaps-append a b)
all_gaps-append (dropped_at t reason n ∷ a) b =
    ap (λ l. record { ts_ms = t; reason = reason; dropped = n } ∷ l) (all_gaps-append a b)

module _ (locale : Locale) where
  pub gap_records-WithEnds : (l : List Pause) → WithEnds (gap_records locale l) (all_gaps l)
  unfolding gap_records all_gaps
  gap_records-WithEnds [] = finish
  gap_records-WithEnds (started t reason ∷ l) = keep _ (gap_records-WithEnds l)
  gap_records-WithEnds (ended t ∷ l) = insert_end t (gap_records-WithEnds l)
  gap_records-WithEnds (dropped_at t reason n ∷ l) = keep _ (gap_records-WithEnds l)

  -- What both loops have gathered so far.
  abbrev pub Follows : Collected → Entries → Type 0
  Follows c x =
      (x.utterances ≡ map (utterance_record locale) c.utterances)
      × (x.selections ≡ map (selection_record locale) c.selections)
      × (x.keyframes ≡ map (keyframe_record locale) c.keyframes)
      × (x.gaps ≡ all_gaps c.pauses)

  abbrev Continues : Option Entries → Collected → Type 0
  Continues o c = (x : Entries) × (o ≡ some x) × Follows c x

  snoc {ℓ κ} :
      {A : Type ℓ} {B : Type κ} (f : A → B) (l : List A) (a : A) (m : List B)
      → m ≡ map f l
      → m ++ f a ∷ [] ≡ map f (l ++ a ∷ [])
  snoc f l a m h = ap (λ y. y ++ f a ∷ []) h ∙ sym (map-append f l (a ∷ []))

  snoc_gap :
      (l : List Pause) (p : Pause) (m : List Gap)
      → m ≡ all_gaps l
      → m ++ all_gaps (p ∷ []) ≡ all_gaps (l ++ p ∷ [])
  snoc_gap l p m h = ap (λ y. y ++ all_gaps (p ∷ [])) h ∙ sym (all_gaps-append l (p ∷ []))

  said :
      (e : ObserverEvent) (c : Collected) (x : Entries) (b : Bool)
      → is_dictated e.kind ≡ b
      → x.utterances ≡ map (utterance_record locale) c.utterances
      → (add_utterance locale e b x).utterances
        ≡ map (utterance_record locale) (c.utterances ++ e ∷ [])
  unfolding utterance_record
  said e c x b h f = rw⁻¹ h (snoc (utterance_record locale) c.utterances e x.utterances f)

  -- Both loops raise, or both go on.
  abbrev pub Match : Option Collected → Option Entries → Type 0
  Match none none = Unit
  Match none (some x) = ⊥
  Match (some c) none = ⊥
  Match (some c) (some x) = Follows c x

  one_event :
      (k : EventKind) (e : ObserverEvent) (c : Collected) (x : Entries)
      → e.kind ≡ k
      → Follows c x
      → Match (collect_event locale k e c) (add_entry locale k e x)
  unfolding collect_event add_entry selection_record keyframe_record all_gaps is_dictated
  one_event utterance_ambient e c x h f = (said e c x false (ap is_dictated h) f.0, f.1, f.2, f.3)
  one_event utterance_dictated e c x h f = (said e c x true (ap is_dictated h) f.0, f.1, f.2, f.3)
  one_event selection e c x h f =
      (f.0, snoc (selection_record locale) c.selections e x.selections f.1, f.2, f.3)
  one_event keyframe e c x h f =
      (f.0, f.1, snoc (keyframe_record locale) c.keyframes e x.keyframes f.2, f.3)
  one_event pause_start e c x h f = (
    f.0,
    f.1,
    f.2,
    snoc_gap c.pauses (started e.ts_ms (meta_text locale e (codes "reason") (codes "hotkey")))
        x.gaps f.3,
  )
  one_event pause_end e c x h f = (f.0, f.1, f.2, snoc_gap c.pauses (ended e.ts_ms) x.gaps f.3)
  one_event gap e c x h f = counted (meta_dropped locale e)
    where
      counted :
          (o : Option ℕ)
          → Match (add_gap locale e o c) (elim o as (λ y. Option Entries) [
            | none ↦ none
            | some n ↦ some (
                add_gap_entry locale e
                  (meta_text locale e (codes "reason") (codes "asr_queue_full"))
                  n
                  x)
          ])
      counted none = tt
      counted (some n) = (
        f.0,
        f.1,
        f.2,
        snoc_gap c.pauses
            (dropped_at e.ts_ms (meta_text locale e (codes "reason") (codes "asr_queue_full")) n)
            x.gaps f.3,
      )
  one_event focus_change e c x h f = f

  pub events_match :
      (l : List ObserverEvent) (c : Collected) (x : Entries)
      → Follows c x
      → Match (collect locale l c) (add_entries locale l x)
  unfolding collect add_entries
  events_match [] c x f = f
  events_match (e ∷ l) c x f =
      go (collect_event locale e.kind e c) (add_entry locale e.kind e x)
        (one_event e.kind e c x refl f) (events_match l)
    where
      go :
          (o : Option Collected) (o' : Option Entries)
          → Match o o'
          → ((d : Collected) (y : Entries)
              → Follows d y
              → Match (collect locale l d) (add_entries locale l y))
          → Match
              (elim o as (λ z. Option Collected) [ none ↦ none | some d ↦ collect locale l d ])
              (elim o' as (λ z. Option Entries) [ none ↦ none | some y ↦ add_entries locale l y ])
      go none none m ih = tt
      go none (some y) m ih = absurd m
      go (some d) none m ih = absurd m
      go (some d) (some y) m ih = ih d y m
