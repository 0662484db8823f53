-- ===== src/Vocab/Dictionary/Terms.antt =====
-- vocab/dictionary.py: which terms a dictionary holds behind `add_terms` and `add_mappings`.
use agent_voca.Prelude.{
  ◌≡◌, refl, ◌∙◌, true, ◌||◌, List, [], ◌∷◌, ◌++◌, map, Bool-cases, inl, inr, arith,
}
use agent_voca.Text.{Text, Unicode, text_eq, text_eq_sound, contains}
use agent_voca.Vocab.Dictionary.{
  Dictionary, Mapping, rebuild, merge_terms, add_terms, merge_mappings, add_mappings,
}

-- The texts that the mappings replace.
abbrev pub wrongs : List (Text × Text) → List Text
wrongs = map (λ (p : Text × Text). p.0)

contains-snoc :
    (l : List Text) (x t : Text) → contains (l ++ x ∷ []) t ≡ (contains l t || text_eq x t)
unfolding contains
contains-snoc [] x t = ground arith
contains-snoc (y ∷ l) x t = ground (arith, contains-snoc l x t)

-- A term that equals a known one is known.
contains_known :
    (l : List Text) (x t : Text)
    → contains l x ≡ true
    → (contains l t || text_eq x t) ≡ contains l t
contains_known l x t h = elim (Bool-cases (text_eq x t)) [
  | inl e ↦ rw (← text_eq_sound x t e) (rw h refl)
  | inr e ↦ ground (arith, e)
]

-- What is known and what is added, where the new term is known or is put behind the known ones.
known_before :
    (l ts : List Text) (x t : Text)
    → contains l x ≡ true
    → (contains l t || contains ts t) ≡ (contains l t || contains (x ∷ ts) t)
unfolding contains
known_before l ts x t h = ground (arith, contains_known l x t h)

known_behind :
    (l ts : List Text) (x t : Text)
    → (contains (l ++ x ∷ []) t || contains ts t) ≡ (contains l t || contains (x ∷ ts) t)
unfolding contains
known_behind l ts x t = ground (arith, contains-snoc l x t)

known_only : (l : List Text) (t : Text) → contains l t ≡ (contains l t || contains [] t)
unfolding contains
known_only l t = ground arith

module _ (u : Unicode) where
  contains-merge_terms :
      (known ts : List Text) (t : Text)
      → contains (merge_terms u known ts).0 t ≡ (contains known t || contains ts t)
  unfolding merge_terms
  contains-merge_terms known [] t = known_only known t
  contains-merge_terms known (x ∷ ts) t = elim (Bool-cases (contains known x)) [
    | inl e ↦ rw e (contains-merge_terms known ts t ∙ known_before known ts x t e)
    | inr e ↦ rw e (contains-merge_terms (known ++ x ∷ []) ts t ∙ known_behind known ts x t)
  ]

  contains-merge_mappings :
      (known : List Text) (m : Mapping) (ps : List (Text × Text)) (t : Text)
      → contains (merge_mappings u known m ps).0 t ≡ (contains known t || contains (wrongs ps) t)
  unfolding merge_mappings
  contains-merge_mappings known m [] t = known_only known t
  contains-merge_mappings known m ((w, r) ∷ ps) t = elim (Bool-cases (contains known w)) [
    | inl e ↦ rw e (contains-merge_mappings known _ ps t ∙ known_before known (wrongs ps) w t e)
    | inr e ↦
        rw e (contains-merge_mappings (known ++ w ∷ []) _ ps t ∙ known_behind known (wrongs ps) w t)
  ]

  pub contains-add_terms :
      (d : Dictionary) (ts : List Text) (t : Text)
      → contains (add_terms u d ts).terms t ≡ (contains d.terms t || contains ts t)
  unfolding add_terms rebuild
  contains-add_terms d [] t = known_only d.terms t
  contains-add_terms d (x ∷ ts) t = elim (Bool-cases (merge_terms u d.terms (x ∷ ts)).1) [
    | inl e ↦ rw e (contains-merge_terms d.terms (x ∷ ts) t)
    | inr e ↦ rw e (contains-merge_terms d.terms (x ∷ ts) t)
  ]

  pub contains-add_mappings :
      (d : Dictionary) (ps : List (Text × Text)) (t : Text)
      → contains (add_mappings u d ps).terms t ≡ (contains d.terms t || contains (wrongs ps) t)
  unfolding add_mappings rebuild
  contains-add_mappings d [] t = known_only d.terms t
  contains-add_mappings d (p ∷ ps) t =
      elim (Bool-cases (merge_mappings u d.terms d.mappings (p ∷ ps)).2) [
        | inl e ↦ rw e (contains-merge_mappings d.terms d.mappings (p ∷ ps) t)
        | inr e ↦ rw e (contains-merge_mappings d.terms d.mappings (p ∷ ps) t)
      ]
