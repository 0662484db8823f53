-- ===== src/Vocab/Match/Laws.antt =====
-- Which alternative a whole-word pattern takes, and which characters a substitution touches.
use mathlib.Core.Path.{subst}
use native.Mathlib.Nat.{le_refl}
use agent_voca.Prelude.{
  ℕ, zero, suc, ◌≤◌, ◌≡◌, refl, ap, ◌∙◌, Bool, true, List, [], ◌∷◌, ◌++◌, Option, none, some, arith,
  leb, if◌then◌else◌, length, drop, All, Bool-cases, Option-cases, inl, inr,
}
use agent_voca.Text.{Text, Unicode}
use agent_voca.Vocab.Match.{
  escaped_length, insert_longest, build_pattern, strip_literal, ends_word, match_at, take_like,
  substitute, is_word_before,
}

-- The longest alternatives come first.
abbrev pub IsDescending : List Text → Type 0
IsDescending [] = Unit
IsDescending (t ∷ l) = All (λ s. escaped_length s ≤ escaped_length t) l × IsDescending l

All-weaken :
    (a b : ℕ) (l : List Text)
    → a ≤ b
    → All (λ s. escaped_length s ≤ a) l
    → All (λ s. escaped_length s ≤ b) l
All-weaken a b [] h p = tt
All-weaken a b (s ∷ l) h p = (omega arith, All-weaken a b l h p.1)

pub All-insert_longest :
    (P : Text → Type 0) (t : Text) (l : List Text) → P t → All P l → All P (insert_longest t l)
unfolding insert_longest
All-insert_longest P t [] pt pl = (pt, tt)
All-insert_longest P t (s ∷ l) pt pl =
    elim (Bool-cases (leb (escaped_length s) (escaped_length t))) [
      | inl e ↦ rw e (pt, pl)
      | inr e ↦ rw e (pl.0, All-insert_longest P t l pt pl.1)
    ]

All-insert_longest_inv :
    (P : Text → Type 0) (t : Text) (l : List Text) → All P (insert_longest t l) → P t × All P l
unfolding insert_longest
All-insert_longest_inv P t [] = λ p. p
All-insert_longest_inv P t (s ∷ l) = elim (Bool-cases (leb (escaped_length s) (escaped_length t))) [
  | inl e ↦ rw e (λ p. (p.0, p.1))
  | inr e ↦ rw e (λ p. let (pt, pl) = All-insert_longest_inv P t l p.1 in (pt, (p.0, pl)))
]

insert_longest-IsDescending :
    (t : Text) (l : List Text) → IsDescending l → IsDescending (insert_longest t l)
unfolding insert_longest
insert_longest-IsDescending t [] d = (tt, tt)
insert_longest-IsDescending t (s ∷ l) d =
    elim (Bool-cases (leb (escaped_length s) (escaped_length t))) [
      | inl e ↦
          rw e (
            (ground arith, All-weaken (escaped_length s) (escaped_length t) l (ground arith) d.0),
            d,
          )
      | inr e ↦ rw e (
        All-insert_longest (λ r. escaped_length r ≤ escaped_length s) t l (ground arith) d.0,
        insert_longest-IsDescending t l d.1,
      )
    ]

pub build_pattern-IsDescending : (terms : List Text) → IsDescending (build_pattern terms)
unfolding build_pattern
build_pattern-IsDescending [] = tt
build_pattern-IsDescending (t ∷ l) =
    insert_longest-IsDescending t (build_pattern l) (build_pattern-IsDescending l)

pub All-build_pattern_inv :
    (P : Text → Type 0) (terms : List Text) → All P (build_pattern terms) → All P terms
unfolding build_pattern
All-build_pattern_inv P [] p = tt
All-build_pattern_inv P (t ∷ l) p =
    let (pt, pl) = All-insert_longest_inv P t (build_pattern l) p in
    (pt, All-build_pattern_inv P l pl)

module _ (u : Unicode) where
  -- The term stands at the head of the text, as a whole word.
  abbrev pub matches : Text → Text → Bool
  matches t s = ends_word u (strip_literal u t s)

  All-matches_weaken :
      (s : Text) (n : ℕ) (l : List Text)
      → All (λ t. escaped_length t ≤ n) l
      → All (λ t. matches t s ≡ true → escaped_length t ≤ n) l
  All-matches_weaken s n [] p = tt
  All-matches_weaken s n (t ∷ l) p = (λ _. p.0, All-matches_weaken s n l p.1)

  -- The term matches, and no longer one of the list does.
  abbrev pub IsLongest : Text → Text → List Text → Type 0
  IsLongest t s l =
      (matches t s ≡ true) × All (λ r. matches r s ≡ true → escaped_length r ≤ escaped_length t) l

  IsLongest-head :
      (r s : Text) (l : List Text)
      → IsDescending (r ∷ l)
      → matches r s ≡ true
      → IsLongest r s (r ∷ l)
  IsLongest-head r s l d e = (e, ((λ _. le_refl _), All-matches_weaken s (escaped_length r) l d.0))

  pub match_at-IsLongest_of :
      (s : Text) (l : List Text) (t : Text)
      → IsDescending l
      → match_at u l s ≡ some t
      → IsLongest t s l
  unfolding match_at
  match_at-IsLongest_of s [] t d = λ h. cc
  match_at-IsLongest_of s (r ∷ l) t d = elim (Bool-cases (matches r s)) [
    | inl e ↦
        let here = IsLongest-head r s l d e in
        rw e (λ h.
          let q : r ≡ t = cc in
          let found = subst (λ x. IsLongest x s (r ∷ l)) q here in
          (found.0, ((λ _. found.1.0 e), found.1.1)))
    | inr e ↦ rw e (λ h. let (m, p) = match_at-IsLongest_of s l t d.1 h in (m, ((λ x. cc), p)))
  ]

  pub take_like-append-drop : (t s : Text) → take_like u t s ++ drop (length t) s ≡ s
  unfolding take_like
  take_like-append-drop [] s = refl
  take_like-append-drop (_ ∷ ts) [] = refl
  take_like-append-drop (_ ∷ ts) (c ∷ s) = ap (◌∷◌ c) (take_like-append-drop ts s)

  -- A substitution that writes back what it matched changes nothing, wherever it starts: the
  -- stretches that it hands to the replacement and those that it copies make up the text.
  pub substitute-id :
      (pattern : List Text) (before : Option ℕ) (skip : ℕ) (s : Text)
      → substitute u pattern (λ x. x) before skip s ≡ drop skip s
  unfolding substitute take_like
  substitute-id pattern before (suc skip) [] = refl
  substitute-id pattern before (suc skip) (c ∷ s) = substitute-id pattern (some c) skip s
  substitute-id pattern before zero [] = ground arith
  substitute-id pattern before zero (c ∷ s) =
      elim (Option-cases (if is_word_before u before then none else match_at u pattern (c ∷ s))) [
        | inl e ↦ rw (e, substitute) (ap (◌∷◌ c) (substitute-id pattern (some c) zero s))
        | inr ([], e) ↦ rw (e, substitute) (ap (◌∷◌ c) (substitute-id pattern (some c) zero s))
        | inr (t ∷ ts, e) ↦
            rw (e, substitute)
              (ap (◌∷◌ c) (
                ap (λ r. take_like u ts s ++ r) (substitute-id pattern (some c) (length ts) s)
                ∙ take_like-append-drop ts s))
      ]
