-- ===== src/Vision/Anchors/Weave.antt =====
-- Replacing from the right is one pass from the left.
use mathlib.Core.Path.{subst}
use agent_voca.Prelude.{
  take-past, take-take, ℕ, zero, suc, ◌+◌, ◌-◌, ◌≤◌, Option, none, some, List, [], ◌∷◌, ◌++◌, ◌≡◌,
  refl, sym, ap, ◌∙◌, arith, length, length-append, drop, take, length-drop, length-take, take-drop,
  take-append, drop-append, append_assoc, Option-cases, inl, inr,
}
use agent_voca.Text.{Text, Unicode}
use agent_voca.Vocab.Match.{strip_literal}
use agent_voca.Vision.Anchors.{
  Match, match_length, find_from, find_anchors, block_of, replace_match, replace_paired,
}

-- The matches lie one behind the other, between two positions.
abbrev pub IsOrdered : ℕ → ℕ → List Match → Type 0
IsOrdered from to [] = Unit
IsOrdered from to (m ∷ ms) =
    (from ≤ m.start) × (m.start ≤ m.end) × (m.end ≤ to) × IsOrdered m.end to ms

IsOrdered-earlier : (a b to : ℕ) (ms : List Match) → a ≤ b → IsOrdered b to ms → IsOrdered a to ms
IsOrdered-earlier a b to [] h o = tt
IsOrdered-earlier a b to (m ∷ ms) h o = (omega (arith, h, o.0), o.1, o.2, o.3)

module _ (u : Unicode) where
  -- The text from a position on, with the blocks in the places of the matches, left to right.
  unfoldable pub weave : ℕ → Text → List Match → List Text → Text
  weave position text [] es = text
  weave position text (m ∷ ms) [] = text
  weave position text (m ∷ ms) (e ∷ es) =
      take (m.start - position) text
      ++ (block_of u e ++ weave m.end (drop (m.end - position) text) ms es)

  replace_paired-weave :
      (ms : List Match) (es : List Text) (p t : Text)
      → IsOrdered (length p) (length p + length t) ms
      → replace_paired u ms es (p ++ t) ≡ p ++ weave (length p) t ms es
  unfolding replace_paired weave
  replace_paired-weave [] es p t o = refl
  replace_paired-weave (m ∷ ms) [] p t o = refl
  replace_paired-weave (m ∷ ms) (e ∷ es) p t o =
      let i = m.start - length p in
      let j = m.end - length p in
      let front = p ++ take j t in
      let back = drop j t in
      let end : length front ≡ m.end =
        omega (arith, o.0, o.1, o.2, length-append p (take j t), length-take j t) in
      let total : length front + length back ≡ length p + length t =
        omega (arith, o.0, o.1, o.2, end, length-drop j t) in
      let ordered : IsOrdered (length front) (length front + length back) ms =
        subst (λ n. IsOrdered (length front) n ms) (sym total)
          (subst (λ n. IsOrdered n (length p + length t) ms) (sym end) o.3) in
      let split : p ++ t ≡ front ++ back =
        ap (λ x. p ++ x) (sym (take-drop j t)) ∙ sym (append_assoc p (take j t) back) in
      let rest = weave m.end back ms es in
      let right : replace_paired u ms es (p ++ t) ≡ front ++ rest =
        ap (replace_paired u ms es) split
        ∙ replace_paired-weave ms es front back ordered
        ∙ ap (λ n. front ++ weave n back ms es) end in
      let before : take m.start (front ++ rest) ≡ p ++ take i t =
        take-append m.start front rest (omega (arith, o.1, end))
        ∙ ap (λ n. take n front) (omega (arith, o.0))
        ∙ take-past p i (take j t)
        ∙ ap (λ x. p ++ x) (take-take i j t (omega (arith, o.1))) in
      let after : drop m.end (front ++ rest) ≡ rest =
        ap (λ n. drop n (front ++ rest)) (sym end) ∙ drop-append front rest in
      ap (replace_match u m e) right
      ∙ ap (λ x. x ++ (block_of u e ++ drop m.end (front ++ rest))) before
      ∙ ap (λ x. (p ++ take i t) ++ (block_of u e ++ x)) after
      ∙ append_assoc p (take i t) (block_of u e ++ rest)

  strip_literal-fits : (p s r : Text) → strip_literal u p s ≡ some r → length p ≤ length s
  unfolding strip_literal
  strip_literal-fits [] s r h = omega arith
  strip_literal-fits (c ∷ p) [] r h = ground (arith, h)
  strip_literal-fits (c ∷ p) (d ∷ s) r h = ground (arith, h, strip_literal-fits p s r)

  match_length-fits :
      (phrases : List Text) (s : Text) (n : ℕ) → match_length u phrases s ≡ some n → n ≤ length s
  unfolding match_length
  match_length-fits [] s n h = ground (arith, h)
  match_length-fits (p ∷ ps) s n h = elim (Option-cases (strip_literal u p s)) [
    | inl e ↦ match_length-fits ps s n (ground (arith, h, e))
    | inr (r, e) ↦
        let same : length p ≡ n = ground (arith, h, e) in
        omega (arith, same, strip_literal-fits p s r e)
  ]

  -- The matches that the search finds.
  find_from-IsOrdered :
      (phrases : List Text) (position skip : ℕ) (s : Text) (from to : ℕ)
      → from ≤ position + skip
      → position + length s ≤ to
      → IsOrdered from to (find_from u phrases position skip s)
  unfolding find_from
  find_from-IsOrdered phrases position skip [] from to h k = tt
  find_from-IsOrdered phrases position (suc skip) (c ∷ s) from to h k =
      find_from-IsOrdered phrases (suc position) skip s from to (omega (arith, h))
        (omega (arith, k))
  find_from-IsOrdered phrases position zero (c ∷ s) from to h k =
      go (match_length u phrases (c ∷ s)) (match_length-fits phrases (c ∷ s)) (λ n from' h'.
        find_from-IsOrdered phrases (suc position) n s from' to h' (omega (arith, k)))
    where
      go :
          (o : Option ℕ)
          → ((n : ℕ) → o ≡ some n → n ≤ length (c ∷ s))
          → ((n from' : ℕ)
              → from' ≤ suc position + n
              → IsOrdered from' to (find_from u phrases (suc position) n s))
          → IsOrdered from to (elim o [
            | none ↦ find_from u phrases (suc position) zero s
            | some zero ↦ find_from u phrases (suc position) zero s
            | some (suc n) ↦
                (record { start = position; end = position + suc n })
                ∷ find_from u phrases (suc position) n s
          ])
      go none fits next = next zero from (omega (arith, h))
      go (some zero) fits next = next zero from (omega (arith, h))
      go (some (suc n)) fits next = (
        omega (arith, h),
        omega arith,
        omega (arith, k, fits (suc n) refl),
        next n (position + suc n) (omega arith),
      )

  -- Replacing the paired anchors from the last one to the first, by positions found before any was
  -- replaced, puts each extraction, in its order, in the place of its anchor, as one pass over the
  -- transcript from the left does, and touches nothing else.
  pub replace_paired-find_anchors :
      (phrases : List Text) (transcript : Text) (es : List Text)
      → replace_paired u (find_anchors u phrases transcript) es transcript
        ≡ weave 0 transcript (find_anchors u phrases transcript) es
  replace_paired-find_anchors phrases transcript es =
      replace_paired-weave (find_anchors u phrases transcript) es [] transcript (
        find_from-IsOrdered phrases 0 0 transcript 0 (0 + length transcript) (omega arith)
          (omega arith))
