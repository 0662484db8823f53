-- ===== src/Observer/Compile/Prompts/Demoted.antt =====
-- No line that has been demoted is a heading above the third level.
use agent_voca.Prelude.{
  ℕ, zero, suc, ◌-◌, ◌<◌, ◌≡◌, refl, Bool, true, false, not, ◌&&◌, Bool-cases, inl, inr, [], ◌∷◌,
  ◌++◌, ◌==◌, if◌then◌else◌, length, drop, arith,
}
use agent_voca.Text.{Text, Unicode, lstrip, codes}
use agent_voca.Vocab.Dictionary.{starts_with}
use agent_voca.Observer.Compile.Prompts.{has_prefix, hashes, spaces, demote_to, demote}

three_at_least : (t : Text) → 2 < hashes (b'#' ∷ b'#' ∷ b'#' ∷ t)
unfolding hashes
three_at_least t = omega arith

-- What is left alone starts with no `#`, or with three at least.
hashes-left :
    (t : Text)
    → (has_prefix (codes "#") t && not (has_prefix (codes "###") t)) ≡ false
    → 0 < hashes t
    → 2 < hashes t
unfolding hashes starts_with
hashes-left [] h k = absurd (omega (arith, k))
hashes-left (a ∷ []) h k = ground (arith, h, k)
hashes-left (a ∷ b ∷ []) h k = ground (arith, h, k)
hashes-left (a ∷ b ∷ c ∷ t) h k = ground (arith, h, k)

module _ (u : Unicode) (blank : u.is_space 32 ≡ true) (solid : u.is_space b'#' ≡ false) where
  lstrip-spaces : (n : ℕ) (t : Text) → lstrip u (spaces n ++ t) ≡ lstrip u t
  unfolding lstrip spaces
  lstrip-spaces zero t = refl
  lstrip-spaces (suc n) t = rw blank (lstrip-spaces n t)

  hashes-demote_to :
      (n : ℕ) (line stripped : Text) → 2 < hashes (lstrip u (demote_to u n line stripped))
  unfolding demote_to
  hashes-demote_to n line stripped =
      rw (lstrip-spaces (length line - length stripped) _) (elim (Bool-cases (n == 1)) [
        | inl e ↦ rw e (three (32 ∷ lstrip u (drop n stripped)))
        | inr e ↦ rw e (four (32 ∷ lstrip u (drop n stripped)))
      ])
    where
      three : (t : Text) → 2 < hashes (lstrip u (codes "###" ++ t))
      three t = rw (solid, lstrip) (three_at_least t)

      four : (t : Text) → 2 < hashes (lstrip u (codes "####" ++ t))
      four t = rw (solid, lstrip) (three_at_least (b'#' ∷ t))

  -- When blanks count as spaces and `#` does not: a line of the model's answer that has gone through the
  -- loop starts, behind its blanks, with no `#` or with three at least.
  pub demote-level : (line : Text) → let n = hashes (lstrip u (demote u line)) in 0 < n → 2 < n
  unfolding demote
  demote-level line =
      let stripped = lstrip u line in
      go (has_prefix (codes "#") stripped && not (has_prefix (codes "###") stripped)) refl
    where
      go :
          (b : Bool)
          → (has_prefix (codes "#") (lstrip u line)
              && not (has_prefix (codes "###") (lstrip u line)))
            ≡ b
          → let n = hashes (
              lstrip u
                (if b then demote_to u (hashes (lstrip u line)) line (lstrip u line) else line)) in
            0 < n → 2 < n
      go true h k = hashes-demote_to (hashes (lstrip u line)) line (lstrip u line)
      go false h k = hashes-left (lstrip u line) h k
