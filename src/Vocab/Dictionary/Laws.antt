-- ===== src/Vocab/Dictionary/Laws.antt =====
-- The pattern and the casing of a dictionary follow its terms, and no term is held twice.
use agent_voca.Prelude.{
  ◌≡◌, refl, ap, false, List, [], ◌∷◌, ◌++◌, Option, none, some, Bool-cases, inl, inr, append-nil,
  append_assoc, Option-cases,
}
use agent_voca.Text.{Text, Unicode, contains, strip, lower}
use agent_voca.Vocab.Match.{build_pattern}
use agent_voca.Vocab.Dictionary.{
  Dictionary, Mapping, put, rebuild, merge_terms, add_terms, merge_mappings, add_mappings,
  split_arrow, load_line, load_lines, read_vocab_lines, empty, init,
}

-- No item of the list stands among those in front of it.
abbrev pub IsDistinctAfter : List Text → List Text → Type 0
IsDistinctAfter front [] = Unit
IsDistinctAfter front (t ∷ ts) = (contains front t ≡ false) × IsDistinctAfter (front ++ t ∷ []) ts

abbrev pub IsDistinct : List Text → Type 0
IsDistinct ts = IsDistinctAfter [] ts

IsDistinctAfter-snoc :
    (front ts : List Text) (t : Text)
    → IsDistinctAfter front ts
    → contains (front ++ ts) t ≡ false
    → IsDistinctAfter front (ts ++ t ∷ [])
IsDistinctAfter-snoc front [] t d h = (rw (← append-nil front) h, tt)
IsDistinctAfter-snoc front (s ∷ ts) t d h =
    (d.0, IsDistinctAfter-snoc (front ++ s ∷ []) ts t d.1 (rw append_assoc h))

-- What `_rebuild` would write is what the dictionary holds, and its terms are distinct.
pub record IsFresh (u : Unicode) (d : Dictionary) : Type 0 where
  pub rebuilt : rebuild u d ≡ d
  pub distinct : IsDistinct d.terms

module _ (u : Unicode) where
  merge_terms_unchanged :
      (known ts : List Text)
      → (merge_terms u known ts).1 ≡ false
      → (merge_terms u known ts).0 ≡ known
  unfolding merge_terms
  merge_terms_unchanged known [] = λ h. refl
  merge_terms_unchanged known (t ∷ ts) = elim (Bool-cases (contains known t)) [
    | inl e ↦ rw e (merge_terms_unchanged known ts)
    | inr e ↦ rw e (λ h. cc)
  ]

  merge_terms-IsDistinct :
      (known ts : List Text) → IsDistinct known → IsDistinct (merge_terms u known ts).0
  unfolding merge_terms
  merge_terms-IsDistinct known [] d = d
  merge_terms-IsDistinct known (t ∷ ts) d = elim (Bool-cases (contains known t)) [
    | inl e ↦ rw e (merge_terms-IsDistinct known ts d)
    | inr e ↦
        rw e (merge_terms-IsDistinct (known ++ t ∷ []) ts (IsDistinctAfter-snoc [] known t d e))
  ]

  rebuild-IsFresh : (d : Dictionary) → IsDistinct d.terms → IsFresh u (rebuild u d)
  unfolding rebuild
  rebuild-IsFresh d h = record { rebuilt = refl; distinct = h }

  -- The terms were written and the rest kept: fresh again, as long as the terms are the old ones.
  same_terms-IsFresh :
      (d : Dictionary) (ts : List Text) (m : Mapping)
      → IsFresh u d
      → ts ≡ d.terms
      → IsFresh u (record d { terms = ts; mappings = m })
  unfolding rebuild
  same_terms-IsFresh d ts m h e = rw e (record {
    rebuilt = ap (λ (x : Dictionary). record x { mappings = m }) h.rebuilt;
    distinct = h.distinct;
  })

  pub add_terms-IsFresh :
      (d : Dictionary) (ts : List Text) → IsFresh u d → IsFresh u (add_terms u d ts)
  unfolding add_terms
  add_terms-IsFresh d [] h = h
  add_terms-IsFresh d (t ∷ ts) h = elim (Bool-cases (merge_terms u d.terms (t ∷ ts)).1) [
    | inl e ↦ rw e (
        rebuild-IsFresh (record d { terms = (merge_terms u d.terms (t ∷ ts)).0 })
          (merge_terms-IsDistinct d.terms (t ∷ ts) h.distinct))
    | inr e ↦ rw e (same_terms-IsFresh d _ d.mappings h (merge_terms_unchanged d.terms (t ∷ ts) e))
  ]

  merge_mappings_unchanged :
      (known : List Text) (m : Mapping) (ps : List (Text × Text))
      → (merge_mappings u known m ps).2 ≡ false
      → (merge_mappings u known m ps).0 ≡ known
  unfolding merge_mappings
  merge_mappings_unchanged known m [] = λ h. refl
  merge_mappings_unchanged known m ((w, r) ∷ ps) = elim (Bool-cases (contains known w)) [
    | inl e ↦ rw e (merge_mappings_unchanged known (put m (lower u w) r) ps)
    | inr e ↦ rw e (λ h. cc)
  ]

  merge_mappings-IsDistinct :
      (known : List Text) (m : Mapping) (ps : List (Text × Text))
      → IsDistinct known
      → IsDistinct (merge_mappings u known m ps).0
  unfolding merge_mappings
  merge_mappings-IsDistinct known m [] d = d
  merge_mappings-IsDistinct known m ((w, r) ∷ ps) d =
      let m' = put m (lower u w) r in
      elim (Bool-cases (contains known w)) [
        | inl e ↦ rw e (merge_mappings-IsDistinct known m' ps d)
        | inr e ↦ rw e (
            merge_mappings-IsDistinct (known ++ w ∷ []) m' ps (IsDistinctAfter-snoc [] known w d e))
      ]

  pub add_mappings-IsFresh :
      (d : Dictionary) (ps : List (Text × Text)) → IsFresh u d → IsFresh u (add_mappings u d ps)
  unfolding add_mappings
  add_mappings-IsFresh d [] h = h
  add_mappings-IsFresh d (p ∷ ps) h =
      elim (Bool-cases (merge_mappings u d.terms d.mappings (p ∷ ps)).2) [
        | inl e ↦ rw e (
            rebuild-IsFresh
              (record d {
                terms = (merge_mappings u d.terms d.mappings (p ∷ ps)).0;
                mappings = (merge_mappings u d.terms d.mappings (p ∷ ps)).1;
              })
              (merge_mappings-IsDistinct d.terms d.mappings (p ∷ ps) h.distinct))
        | inr e ↦
            rw e
              (same_terms-IsFresh d _ _ h (merge_mappings_unchanged d.terms d.mappings (p ∷ ps) e))
      ]

  load_line-IsFresh : (d : Dictionary) (l : Text) → IsFresh u d → IsFresh u (load_line u d l)
  unfolding load_line
  load_line-IsFresh d l h = elim (Option-cases (split_arrow l)) [
    | inl e ↦ rw (e, load_line) (add_terms-IsFresh d (l ∷ []) h)
    | inr ((wrong, right), e) ↦
        rw (e, load_line) (add_mappings-IsFresh d ((strip u wrong, strip u right) ∷ []) h)
  ]

  load_lines-IsFresh :
      (d : Dictionary) (ls : List Text) → IsFresh u d → IsFresh u (load_lines u d ls)
  unfolding load_lines
  load_lines-IsFresh d [] h = h
  load_lines-IsFresh d (l ∷ ls) h =
      load_lines-IsFresh (load_line u d l) ls (load_line-IsFresh d l h)

  empty-IsFresh : IsFresh u (empty u)
  unfolding rebuild build_pattern
  empty-IsFresh = record { rebuilt = refl; distinct = tt }

  pub init-IsFresh : (file terms : Option (List Text)) → IsFresh u (init u file terms)
  unfolding init
  init-IsFresh none none = rebuild-IsFresh (empty u) tt
  init-IsFresh none (some ts) =
      rebuild-IsFresh (add_terms u (empty u) ts)
        (add_terms-IsFresh (empty u) ts empty-IsFresh).distinct
  init-IsFresh (some ls) none =
      let d = load_lines u (empty u) (read_vocab_lines u ls) in
      let h = load_lines-IsFresh (empty u) (read_vocab_lines u ls) empty-IsFresh in
      rebuild-IsFresh d h.distinct
  init-IsFresh (some ls) (some ts) =
      let d = load_lines u (empty u) (read_vocab_lines u ls) in
      let h = load_lines-IsFresh (empty u) (read_vocab_lines u ls) empty-IsFresh in
      rebuild-IsFresh (add_terms u d ts) (add_terms-IsFresh d ts h).distinct

  -- Whatever file and terms a dictionary is built from and whatever terms and mappings are added
  -- to it later, its pattern and casing are those of its present terms, although they are rebuilt
  -- only where a loop says that something changed; and no term is held twice.
  pub dictionary-IsFresh :
      (file terms : Option (List Text)) (ts : List Text) (ps : List (Text × Text))
      → IsFresh u (add_mappings u (add_terms u (init u file terms) ts) ps)
  dictionary-IsFresh file terms ts ps =
      add_mappings-IsFresh _ ps (add_terms-IsFresh _ ts (init-IsFresh file terms))
