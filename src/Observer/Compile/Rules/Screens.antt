-- ===== src/Observer/Compile/Rules/Screens.antt =====
-- The lines of screenshots in a block: none is shown for two keyframes.
use agent_voca.Prelude.{
  ◌≡◌, refl, sym, ◌∙◌, Bool, true, false, ◌||◌, Bool-cases, inl, inr, List, [], ◌∷◌, ◌++◌, All,
  arith,
}
use agent_voca.Text.{Text, Unicode, contains}
use agent_voca.Observer.{ObserverEvent}
use agent_voca.Observer.Compile.{Locale, not_in}
use agent_voca.Observer.Compile.Rules.{ocr_lines, fresh_lines}

-- None of the texts is one of the list.
abbrev pub AreNew : List Text → List Text → Type 0
AreNew shown l = All (λ t. contains shown t ≡ false) l

-- The texts of every entry are new, to the list and to the entries before it.
abbrev pub AreFresh : List Text → List (ObserverEvent × List Text) → Type 0
AreFresh shown [] = Unit
AreFresh shown (r ∷ rs) = AreNew shown r.1 × AreFresh (shown ++ r.1) rs

not_in-AreNew : (shown l : List Text) → AreNew shown (not_in shown l)
unfolding not_in
not_in-AreNew shown [] = tt
not_in-AreNew shown (t ∷ l) = elim (Bool-cases (contains shown t)) [
  | inl e ↦ rw e (not_in-AreNew shown l)
  | inr e ↦ rw e (e, not_in-AreNew shown l)
]

contains-append : (a b : List Text) (t : Text) → contains (a ++ b) t ≡ contains a t || contains b t
unfolding contains
contains-append [] b t = refl
contains-append (x ∷ a) b t = ground (arith, contains-append a b t)

-- What is not in the second list is not in the first one.
abbrev Within : List Text → List Text → Type 0
Within a b = (t : Text) → contains b t ≡ false → contains a t ≡ false

not_in-Within : (shown l : List Text) → Within (not_in shown l) l
unfolding not_in contains
not_in-Within shown [] t h = refl
not_in-Within shown (x ∷ l) t h = elim (Bool-cases (contains shown x)) [
  | inl e ↦ rw e (not_in-Within shown l t (ground (arith, h)))
  | inr e ↦ rw e (let rest = not_in-Within shown l t (ground (arith, h)) in ground (arith, h, rest))
]

Within-append : (a b c d : List Text) → Within a b → Within c d → Within (a ++ c) (b ++ d)
Within-append a b c d f g t h =
    let (left, right) = parts (contains b t) (contains d t) (sym (contains-append b d t) ∙ h) in
    contains-append a c t ∙ both (contains a t) (contains c t) (f t left) (g t right)
  where
    parts : (x y : Bool) → (x || y) ≡ false → (x ≡ false) × (y ≡ false)
    parts true y k = (k, cc)
    parts false y k = (refl, k)

    both : (x y : Bool) → x ≡ false → y ≡ false → (x || y) ≡ false
    both true y k m = k
    both false y k m = m

Within-more : (a b c : List Text) → Within a b → Within a (b ++ c)
Within-more a b c f t h = f t (ground (arith, contains-append b c t, h))

AreNew-Within : (a b l : List Text) → Within a b → AreNew b l → AreNew a l
AreNew-Within a b [] f h = tt
AreNew-Within a b (t ∷ l) f h = (f t h.0, AreNew-Within a b l f h.1)

module _ (u : Unicode) (locale : Locale) where
  fresh_lines-Within :
      (seen shown : List Text) (l : List ObserverEvent)
      → Within seen shown
      → AreFresh seen (fresh_lines u locale shown l)
  unfolding fresh_lines
  fresh_lines-Within seen shown [] f = tt
  fresh_lines-Within seen shown (e ∷ l) f =
      let lines = ocr_lines u locale e in
      go (not_in shown lines) (not_in-AreNew shown lines) (not_in-Within shown lines)
        (λ s k. fresh_lines-Within s (shown ++ lines) l k)
    where
      go :
          (new_lines : List Text)
          → AreNew shown new_lines
          → Within new_lines (ocr_lines u locale e)
          → ((s : List Text)
              → Within s (shown ++ ocr_lines u locale e)
              → AreFresh s (fresh_lines u locale (shown ++ ocr_lines u locale e) l))
          → AreFresh seen (elim new_lines as (λ z. List (ObserverEvent × List Text)) [
            | [] ↦ fresh_lines u locale (shown ++ ocr_lines u locale e) l
            | t ∷ ts ↦ (e, t ∷ ts) ∷ fresh_lines u locale (shown ++ ocr_lines u locale e) l
          ])
      go [] a w ih = ih seen (Within-more seen shown (ocr_lines u locale e) f)
      go (t ∷ ts) a w ih = (
        AreNew-Within seen shown (t ∷ ts) f a,
        ih (seen ++ t ∷ ts) (Within-append seen shown (t ∷ ts) (ocr_lines u locale e) f w),
      )

  -- The lines that a block shows for a keyframe are none of those that it shows for an earlier one.
  pub fresh_lines-AreFresh : (l : List ObserverEvent) → AreFresh [] (fresh_lines u locale [] l)
  unfolding contains
  fresh_lines-AreFresh l = fresh_lines-Within [] [] l (λ t h. refl)
