-- ===== src/Observer/Blocks/Laws.antt =====
-- The blocks of a session.
use mathlib.Core.Path.{subst}
use agent_voca.Prelude.{
  true, false, none, some, List, [], ◌∷◌, ◌++◌, ◌≡◌, ◌≢◌, inl, inr, refl, sym, ap, ◌∙◌, append-nil,
  append_assoc, All-snoc, arith, Bool-cases, Option-cases, All,
}
use agent_voca.Observer.{ObserverEvent}
use agent_voca.Observer.Blocks.{
  opens_block, last, Split, split_step, split_loop, finish_split, split_blocks,
}

-- Consecutive events of a block do not open a new one.
unfoldable pub IsUnbroken : List ObserverEvent → Type 0
IsUnbroken [] = Unit
IsUnbroken (e ∷ []) = Unit
IsUnbroken (e ∷ e' ∷ es) = (opens_block e e' ≡ false) × IsUnbroken (e' ∷ es)

abbrev pub IsBlock : List ObserverEvent → Type 0
IsBlock b = (b ≢ []) × IsUnbroken b

-- The event opens a new block behind the last one of the block.
abbrev pub EndsBefore : List ObserverEvent → List ObserverEvent → Type 0
EndsBefore b [] = Unit
EndsBefore b (e ∷ es) = (prev : ObserverEvent) × (last b ≡ some prev) × (opens_block prev e ≡ true)

-- Each block is opened by its first event.
unfoldable pub IsSeparated : List (List ObserverEvent) → Type 0
IsSeparated [] = Unit
IsSeparated (b ∷ []) = Unit
IsSeparated (b ∷ b' ∷ bs) = EndsBefore b b' × IsSeparated (b' ∷ bs)

unfoldable pub concat : List (List ObserverEvent) → List ObserverEvent
concat [] = []
concat (b ∷ bs) = b ++ concat bs

concat-append :
    (bs : List (List ObserverEvent)) (b : List ObserverEvent)
    → concat (bs ++ b ∷ []) ≡ concat bs ++ b
unfolding concat
concat-append [] b = append-nil b
concat-append (b' ∷ bs) b = ap (◌++◌ b') (concat-append bs b) ∙ sym (append_assoc b' (concat bs) b)

last-append : (es : List ObserverEvent) (e : ObserverEvent) → last (es ++ e ∷ []) ≡ some e
unfolding last
last-append [] e = refl
last-append (x ∷ []) e = refl
last-append (x ∷ y ∷ es) e = last-append (y ∷ es) e

last-none : (es : List ObserverEvent) → last es ≡ none → es ≡ []
unfolding last
last-none [] h = refl
last-none (x ∷ []) h = ground arith
last-none (x ∷ y ∷ es) h = ground (arith, last-none (y ∷ es) h)

IsUnbroken-append :
    (es : List ObserverEvent) (prev e : ObserverEvent)
    → IsUnbroken es
    → last es ≡ some prev
    → opens_block prev e ≡ false
    → IsUnbroken (es ++ e ∷ [])
unfolding IsUnbroken last
IsUnbroken-append [] prev e u l h = tt
IsUnbroken-append (x ∷ []) prev e u l h = ground arith
IsUnbroken-append (x ∷ y ∷ es) prev e u l h = (u.0, IsUnbroken-append (y ∷ es) prev e u.1 l h)

IsSeparated-append :
    (bs : List (List ObserverEvent)) (b c : List ObserverEvent)
    → IsSeparated (bs ++ b ∷ [])
    → EndsBefore b c
    → IsSeparated ((bs ++ b ∷ []) ++ c ∷ [])
unfolding IsSeparated
IsSeparated-append [] b c s h = (h, tt)
IsSeparated-append (x ∷ []) b c s h = (s.0, (h, tt))
IsSeparated-append (x ∷ y ∷ bs) b c s h = (s.0, IsSeparated-append (y ∷ bs) b c s.1 h)

IsSeparated-grow :
    (bs : List (List ObserverEvent)) (x e : ObserverEvent) (xs : List ObserverEvent)
    → IsSeparated (bs ++ (x ∷ xs) ∷ [])
    → IsSeparated (bs ++ (x ∷ xs ++ e ∷ []) ∷ [])
unfolding IsSeparated
IsSeparated-grow [] x e xs s = tt
IsSeparated-grow (b ∷ []) x e xs s = s
IsSeparated-grow (b ∷ c ∷ bs) x e xs s = (s.0, IsSeparated-grow (c ∷ bs) x e xs s.1)

-- What the loop keeps, with the events that it has seen.
abbrev IsSplitOf : List ObserverEvent → Split → Type 0
IsSplitOf seen s =
    (concat s.blocks ++ s.current ≡ seen)
    × All IsBlock s.blocks
    × IsUnbroken s.current
    × IsSeparated (s.blocks ++ s.current ∷ [])
    × (s.current ≡ [] → s.blocks ≡ [])

cons_nonempty : (x : ObserverEvent) (xs : List ObserverEvent) → (x ∷ xs) ≢ []
cons_nonempty x xs h = ground arith

blocks_nonempty : (b : List ObserverEvent) (bs : List (List ObserverEvent)) → (b ∷ bs) ≢ []
blocks_nonempty b bs h = ground arith

first_event :
    (seen : List ObserverEvent) (blocks : List (List ObserverEvent)) (e : ObserverEvent)
    → IsSplitOf seen (record { blocks = blocks; current = [] })
    → IsSplitOf (seen ++ e ∷ []) (split_step (record { blocks = blocks; current = [] }) e)
unfolding split_step last concat IsUnbroken IsSeparated
first_event seen [] e (k, a, u, s, n) = (ap (λ l. l ++ e ∷ []) k, tt, tt, tt, λ h. refl)
first_event seen (b ∷ bs) e (k, a, u, s, n) = absurd (blocks_nonempty b bs (n refl))

step_opens :
    (s : Split) (prev e : ObserverEvent)
    → last s.current ≡ some prev
    → opens_block prev e ≡ true
    → split_step s e ≡ record { blocks = s.blocks ++ s.current ∷ []; current = e ∷ [] }
unfolding split_step
step_opens s prev e l o = rw (l, o, split_step) refl

step_stays :
    (s : Split) (prev e : ObserverEvent)
    → last s.current ≡ some prev
    → opens_block prev e ≡ false
    → split_step s e ≡ record s { current = s.current ++ e ∷ [] }
unfolding split_step
step_stays s prev e l o = rw (l, o, split_step) refl

next_event :
    (seen : List ObserverEvent) (blocks : List (List ObserverEvent)) (x : ObserverEvent)
    (xs : List ObserverEvent) (prev e : ObserverEvent)
    → last (x ∷ xs) ≡ some prev
    → IsSplitOf seen (record { blocks = blocks; current = x ∷ xs })
    → IsSplitOf (seen ++ e ∷ []) (split_step (record { blocks = blocks; current = x ∷ xs }) e)
unfolding IsUnbroken
next_event seen blocks x xs prev e l (k, a, u, s, n) = elim (Bool-cases (opens_block prev e)) [
  | inl o ↦ subst (IsSplitOf (seen ++ e ∷ [])) (sym (step_opens _ prev e l o)) (
    ap (λ r. r ++ e ∷ []) (concat-append blocks (x ∷ xs) ∙ k),
    All-snoc IsBlock blocks (x ∷ xs) a (cons_nonempty x xs, u),
    tt,
    IsSeparated-append blocks (x ∷ xs) (e ∷ []) s (prev, l, o),
    λ h. absurd (cons_nonempty e [] h),
  )
  | inr o ↦ subst (IsSplitOf (seen ++ e ∷ [])) (sym (step_stays _ prev e l o)) (
    sym (append_assoc (concat blocks) (x ∷ xs) (e ∷ [])) ∙ ap (λ r. r ++ e ∷ []) k,
    a,
    IsUnbroken-append (x ∷ xs) prev e u l o,
    IsSeparated-grow blocks x e xs s,
    λ h. absurd (cons_nonempty x (xs ++ e ∷ []) h),
  )
]

split_step-IsSplitOf :
    (seen : List ObserverEvent) (blocks : List (List ObserverEvent)) (current : List ObserverEvent)
    (e : ObserverEvent)
    → IsSplitOf seen (record { blocks = blocks; current = current })
    → IsSplitOf (seen ++ e ∷ []) (split_step (record { blocks = blocks; current = current }) e)
split_step-IsSplitOf seen blocks [] e i = first_event seen blocks e i
split_step-IsSplitOf seen blocks (x ∷ xs) e i = elim (Option-cases (last (x ∷ xs))) [
  | inl h ↦ absurd (cons_nonempty x xs (last-none (x ∷ xs) h))
  | inr (prev, h) ↦ next_event seen blocks x xs prev e h i
]

split_loop-IsSplitOf :
    (seen : List ObserverEvent) (s : Split) (events : List ObserverEvent)
    → IsSplitOf seen s
    → IsSplitOf (seen ++ events) (split_loop s events)
unfolding split_loop
split_loop-IsSplitOf seen s [] i = rw (append-nil seen) i
split_loop-IsSplitOf seen s (e ∷ es) i =
    subst (λ l. IsSplitOf l (split_loop s (e ∷ es))) (append_assoc seen (e ∷ []) es)
      (split_loop-IsSplitOf (seen ++ e ∷ []) (split_step s e) es
        (split_step-IsSplitOf seen s.blocks s.current e i))

finish_split-of :
    (seen : List ObserverEvent) (blocks : List (List ObserverEvent)) (current : List ObserverEvent)
    → IsSplitOf seen (record { blocks = blocks; current = current })
    → let done = finish_split (record { blocks = blocks; current = current }) in
      (concat done ≡ seen) × All IsBlock done × IsSeparated done
unfolding finish_split concat IsSeparated
finish_split-of seen [] [] (k, a, u, s, n) = (k, tt, tt)
finish_split-of seen (b ∷ bs) [] (k, a, u, s, n) = absurd (blocks_nonempty b bs (n refl))
finish_split-of seen blocks (x ∷ xs) (k, a, u, s, n) = (
  concat-append blocks (x ∷ xs) ∙ k,
  All-snoc IsBlock blocks (x ∷ xs) a (cons_nonempty x xs, u),
  s,
)

-- The blocks of a session hold its events, each once and in order. No block is empty, no event but
-- the first of a block opens a new one, and the first event of every block but the first block does
-- open it: it changes the focus, or comes more than five minutes behind an event of the same app.
pub split_blocks-partition :
    (events : List ObserverEvent)
    → (concat (split_blocks events) ≡ events)
      × All IsBlock (split_blocks events)
      × IsSeparated (split_blocks events)
unfolding split_blocks concat IsUnbroken IsSeparated
split_blocks-partition events =
    let s : Split = record { blocks = []; current = [] } in
    let i : IsSplitOf [] s = (refl, tt, tt, tt, λ h. refl) in
    finish_split-of events (split_loop s events).blocks (split_loop s events).current
      (split_loop-IsSplitOf [] s events i)
