-- ===== src/Vision/Anchors/Blank.antt =====
-- The blank lines of a spliced transcript.
use agent_voca.Prelude.{
  ℕ, suc, ◌≤◌, Bool, true, ◌&&◌, List, [], ◌∷◌, ◌≡◌, refl, arith, ltb, ◌==◌, if◌then◌else◌,
  Bool-cases, if-either, inl, inr, length, min, drop,
}
use agent_voca.Text.{Text, Unicode, lstrip, rstrip, strip}
use agent_voca.Vision.Anchors.{
  collapse, splice_nonblank, find_anchors, replace_paired, append_leftover,
}

-- No more than two newlines in a row, behind `n` of them.
unfoldable pub is_spaced : ℕ → Text → Bool
is_spaced n [] = true
is_spaced n (c ∷ s) =
    let more = is_spaced (suc n) s in
    let rest = is_spaced 0 s in if c == 10 then ltb n 2 && more else rest

collapse-is_spaced : (n : ℕ) (s : Text) → n ≤ 2 → is_spaced n (collapse n s) ≡ true
unfolding is_spaced collapse
collapse-is_spaced n [] h = refl
collapse-is_spaced n (c ∷ s) h = elim (Bool-cases (c == 10)) [
  | inl e ↦ elim (Bool-cases (ltb n 2)) [
    | inl f ↦ rw (e, f, f) (collapse-is_spaced (suc n) s (ground (arith, f)))
    | inr f ↦ rw (e, f) (collapse-is_spaced n s h)
  ]
  | inr e ↦ rw (e, e) (collapse-is_spaced 0 s (omega arith))
]

is_spaced-less : (m n : ℕ) (s : Text) → m ≤ n → is_spaced n s ≡ true → is_spaced m s ≡ true
unfolding is_spaced
is_spaced-less m n [] h k = refl
is_spaced-less m n (c ∷ s) h k = ground (arith, h, k, is_spaced-less (suc m) (suc n) s)

module _ (u : Unicode) where
  lstrip-is_spaced : (s : Text) → is_spaced 0 s ≡ true → is_spaced 0 (lstrip u s) ≡ true
  unfolding is_spaced lstrip
  lstrip-is_spaced [] h = refl
  lstrip-is_spaced (c ∷ s) h =
      let rest : is_spaced 0 s ≡ true =
        ground (arith, h, is_spaced-less 0 1 s (omega arith), is_spaced) in
      if-either (λ t. is_spaced 0 t ≡ true) (u.is_space c) (lstrip-is_spaced s rest) h

  rstrip-is_spaced : (n : ℕ) (s : Text) → is_spaced n s ≡ true → is_spaced n (rstrip u s) ≡ true
  unfolding is_spaced rstrip
  rstrip-is_spaced n [] h = refl
  rstrip-is_spaced n (c ∷ s) h = ground (arith, h, rstrip-is_spaced (suc n) s, rstrip-is_spaced 0 s)

  -- Splicing an extraction that is not blank never leaves more than two newlines in a row, whatever the
  -- transcript, the phrases and the extractions hold.
  pub splice-is_spaced :
      (phrases : List Text) (transcript e : Text) (es : List Text)
      → is_spaced 0 (splice_nonblank u phrases transcript (e ∷ es)).0 ≡ true
  unfolding splice_nonblank strip
  splice-is_spaced phrases transcript e es =
      let complete =
        append_leftover u
          (drop (min (length (find_anchors u phrases transcript)) (length (e ∷ es))) (e ∷ es))
          (replace_paired u (find_anchors u phrases transcript) (e ∷ es) transcript) in
      rstrip-is_spaced 0 (lstrip u (collapse 0 complete))
        (lstrip-is_spaced (collapse 0 complete) (collapse-is_spaced 0 complete (omega arith)))
