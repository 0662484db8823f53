-- ===== src/Vocab/Adaptive/Promotion.antt =====
-- When a correction is promoted to the learned vocabulary.
use agent_voca.Prelude.{
  ℕ, zero, suc, ◌+◌, ◌<◌, ◌≡◌, refl, true, false, List, [], ◌∷◌, ◌++◌, arith, leb, if◌then◌else◌,
}
use agent_voca.Text.{Text, Unicode, text_eq, text_eq_refl, is_empty, strip, lower}
use agent_voca.Vocab.Adaptive.{
  Store, Counts, count, set_count, is_learned, count_correction, record_correction,
}

count-set_count_self : (l : Counts) (w r : Text) (n : ℕ) → count (set_count l w r n) w r ≡ n
unfolding count set_count
count-set_count_self [] w r n = ground (arith, text_eq_refl w, text_eq_refl r)
count-set_count_self ((w', r', m) ∷ l) w r n = ground (arith, count-set_count_self l w r n)

module _ (u : Unicode) where
  is_learned_snoc :
      (l : List (Text × Text)) (w r : Text) → is_learned u (l ++ (w, r) ∷ []) w r ≡ true
  unfolding is_learned
  is_learned_snoc [] w r = ground (arith, text_eq_refl (lower u w), text_eq_refl r)
  is_learned_snoc ((w', r') ∷ l) w r = ground (arith, is_learned_snoc l w r)

  -- How often `n` calls of `record_correction` with the same texts return True.
  pub promotions : ℕ → Store → Text → Text → ℕ
  promotions zero s wrong right = 0
  promotions (suc n) s wrong right =
      let (s', promoted) = record_correction u s wrong right in
      (if promoted then 1 else 0) + promotions n s' wrong right

  promotions_learned :
      (n : ℕ) (s : Store) (wrong right : Text)
      → is_learned u s.learned_mappings (strip u wrong) (strip u right) ≡ true
      → promotions n s wrong right ≡ 0
  unfolding promotions record_correction
  promotions_learned zero s wrong right h = refl
  promotions_learned (suc n) s wrong right h = ground (arith, promotions_learned n s wrong right h)

  -- A correction between two texts that differ in more than case, not yet learned, is promoted
  -- exactly once: by the call at which its count reaches the threshold.
  pub promotions_exact :
      (n : ℕ) (s : Store) (wrong right : Text)
      → is_empty wrong ≡ false
      → is_empty right ≡ false
      → text_eq (lower u (strip u wrong)) (lower u (strip u right)) ≡ false
      → is_learned u s.learned_mappings (strip u wrong) (strip u right) ≡ false
      → count s.corrections (lower u (strip u wrong)) (strip u right) < s.promote_threshold
      → promotions n s wrong right ≡ (
          if leb s.promote_threshold
            (count s.corrections (lower u (strip u wrong)) (strip u right) + n)
          then 1
          else 0)
  unfolding promotions record_correction
  promotions_exact zero s wrong right e1 e2 e3 e4 h = ground arith
  promotions_exact (suc n) s wrong right e1 e2 e3 e4 h =
      let w = strip u wrong in
      let r = strip u right in
      let k = count s.corrections (lower u w) r in
      let s' = record s { corrections = set_count s.corrections (lower u w) r (k + 1) } in
      ground (
        arith,
        count-set_count_self s.corrections (lower u w) r (k + 1),
        is_learned_snoc s.learned_mappings w r,
        promotions_learned n (count_correction u s w r).0 wrong right,
        promotions_exact n s' wrong right,
      )
