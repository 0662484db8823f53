-- ===== src/Orchestrator/Config/Ready.antt =====
-- core/orchestrator.py: the vocabulary and the snippets over the start and the updates of the configuration.
use agent_voca.Prelude.{◌≡◌, Bool, true, false, Option, none, some, if◌then◌else◌}
use agent_voca.Text.{Text, Unicode}
use agent_voca.Vocab.Match.{build_pattern}
use agent_voca.Vocab.Dictionary
use agent_voca.Vocab.Dictionary.Laws.{IsFresh}
use agent_voca.Vocab.Snippets
use agent_voca.Orchestrator.Config.{Loaded}

-- The pattern of an expander is that of its triggers.
abbrev pub IsBuilt : Snippets.Expander → Type 0
IsBuilt e = e.pattern ≡ build_pattern (Snippets.keys e.snippets)

-- The value is there, and has the property.
abbrev pub Present : {A : Type 0} → (A → Type 0) → Option A → Type 0
Present Q none = ⊥
Present Q (some x) = Q x

-- The value has the property where it is there.
abbrev Possibly : {A : Type 0} → (A → Type 0) → Option A → Type 0
Possibly Q none = Unit
Possibly Q (some x) = Q x

-- There are a vocabulary and snippets, and their patterns are those of what they hold.
abbrev pub IsReady : (u : Unicode) {P : Type 0} → Loaded P → Type 0
IsReady u s = Present (IsFresh u) s.vocab × Present IsBuilt s.snippets

-- A property of both branches holds of the conditional.
pub holds_if :
    {A : Type 0} (Q : A → Type 0) (b : Bool) {x y : A} → Q x → Q y → Q (if b then x else y)
holds_if Q true p q = p
holds_if Q false p q = q

-- What a value is made into, or what stands in for the missing one.
pub holds_or :
    {A B : Type 0} (Q : B → Type 0) (f : A → B) (o : Option A) {y : B}
    → ((x : A) → Q (f x))
    → Q y
    → Q (elim o as (λ z. B) [ none ↦ y | some x ↦ f x ])
holds_or Q f none p q = q
holds_or Q f (some x) p q = p x

-- The same, of a value that has a property where it is there.
pub holds_possibly :
    {A B : Type 0} (R : A → Type 0) (Q : B → Type 0) (f : A → B) (o : Option A) {y : B}
    → Possibly R o
    → ((x : A) → R x → Q (f x))
    → Q y
    → Q (elim o as (λ z. B) [ none ↦ y | some x ↦ f x ])
holds_possibly R Q f none r p q = q
holds_possibly R Q f (some x) r p q = p x r
