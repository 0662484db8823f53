-- ===== src/Setup/RestartPolicy/Partition.antt =====
-- Only paths under a field that is known to be hot are applied live.
use agent_voca.Prelude.{
  lt_or_le, ap, ◌∙◌, sym, ℕ, zero, suc, ◌≤◌, ◌<◌, true, false, Option, none, some, List, [], ◌∷◌,
  ◌≡◌, refl, arith, All, Option-cases, Bool-cases, inl, inr, length, take, Bool, if◌then◌else◌,
}
use agent_voca.Text.{Text, text_eq, contains}
use agent_voca.Setup.RestartPolicy.{
  Classification, hot, restart, hot_fields, restart_fields, split_dots, join_dots, classify_field,
  classify_prefixes, classify, is_hot, partition,
}

-- The field that the first parts of a path name.
abbrev prefix : ℕ → List Text → Text
prefix i parts = join_dots (take i parts)

abbrev pub IsUnknown : Text → Type 0
IsUnknown field = (contains hot_fields field ≡ false) × (contains restart_fields field ≡ false)

-- The longest prefix of at most so many parts that is in one of the sets is among the hot fields.
abbrev pub IsHotUpTo : ℕ → List Text → Type 0
IsHotUpTo n parts =
    (i : ℕ) × (i ≤ n)
    × (contains hot_fields (prefix i parts) ≡ true)
    × ((j : ℕ) → i < j → j ≤ n → IsUnknown (prefix j parts))

abbrev pub IsHot : Text → Type 0
IsHot path = let parts = split_dots path in IsHotUpTo (length parts) parts

-- The paths of a list, told apart into two lists that keep their order.
pub data Split (A : Type 0) : List A → List A → List A → Type 0 where
  none_left : Split A [] [] []
  to_first : {x : A} {l a b : List A} → Split A l a b → Split A (x ∷ l) (x ∷ a) b
  to_second : {x : A} {l a b : List A} → Split A l a b → Split A (x ∷ l) a (x ∷ b)

field_hot : (f : Text) → classify_field f ≡ some hot → contains hot_fields f ≡ true
unfolding classify_field
field_hot f h = ground (arith, h)

hot_field : (f : Text) → contains hot_fields f ≡ true → classify_field f ≡ some hot
unfolding classify_field
hot_field f h = ground (arith, h)

field-IsUnknown : (f : Text) → classify_field f ≡ none → IsUnknown f
unfolding classify_field
field-IsUnknown f = go (contains hot_fields f) (contains restart_fields f)
  where
    go :
        (a b : Bool)
        → (if a then some hot else if b then some restart else none) ≡ none
        → (a ≡ false) × (b ≡ false)
    go true b h = absurd (ground (arith, h))
    go false true h = absurd (ground (arith, h))
    go false false h = (refl, refl)

absent_field : (f : Text) → IsUnknown f → classify_field f ≡ none
unfolding classify_field
absent_field f h = ground (arith, h)

classify_prefixes-IsHot :
    (n : ℕ) (parts : List Text) → classify_prefixes n parts ≡ some hot → IsHotUpTo n parts
unfolding classify_prefixes
classify_prefixes-IsHot zero parts h = absurd (ground (arith, h))
classify_prefixes-IsHot (suc n) parts h =
    elim (Option-cases (classify_field (join_dots (take (suc n) parts)))) [
      | inl e ↦
          let same : classify_prefixes (suc n) parts ≡ classify_prefixes n parts =
            rw (e, classify_prefixes) refl in
          let (i, le, found, longer) = classify_prefixes-IsHot n parts (sym same ∙ h) in
          (
            i,
            omega (arith, le),
            found,
            λ j above within. elim (lt_or_le n j) [
              | inl at ↦
                  let same : j ≡ suc n = omega (arith, at, within) in
                  field-IsUnknown _ (ap (λ m. classify_field (prefix m parts)) same ∙ e)
              | inr below ↦ longer j above below
            ],
          )
      | inr (c, e) ↦
          let now : classify_prefixes (suc n) parts ≡ some c = rw (e, classify_prefixes) refl in
          (
            suc n,
            omega arith,
            field_hot _ (e ∙ sym now ∙ h),
            λ j above within. absurd (omega (arith, above, within)),
          )
    ]

-- No parts name no field.
empty_field : contains hot_fields [] ≡ false
unfolding contains text_eq
empty_field = refl

-- The other way around.
IsHot-classify_prefixes :
    (n : ℕ) (parts : List Text) → IsHotUpTo n parts → classify_prefixes n parts ≡ some hot
unfolding classify_prefixes
IsHot-classify_prefixes zero parts (i, le, found, longer) =
    let same : i ≡ 0 = omega (arith, le) in
    let e : contains hot_fields [] ≡ true =
      ap (λ m. contains hot_fields (prefix m parts)) (sym same) ∙ found in
    absurd (ground (arith, e, empty_field))
IsHot-classify_prefixes (suc n) parts (i, le, found, longer) = elim (lt_or_le n i) [
  | inl at ↦
      let same : i ≡ suc n = omega (arith, at, le) in
      let e = hot_field _ (ap (λ m. contains hot_fields (prefix m parts)) (sym same) ∙ found) in
      rw (e, classify_prefixes) refl
  | inr below ↦
      let e = absent_field _ (longer (suc n) (omega (arith, below)) (omega arith)) in
      rw (e, classify_prefixes)
        (IsHot-classify_prefixes n parts
          (i, below, found, λ j above within. longer j above (omega (arith, within))))
]

is_hot_sound : (o : Option Classification) → is_hot o ≡ true → o ≡ some hot
is_hot_sound none h = absurd (ground (arith, h))
is_hot_sound (some hot) h = refl
is_hot_sound (some restart) h = absurd (ground (arith, h))

classify-IsHot : (path : Text) → is_hot (classify path) ≡ true → IsHot path
unfolding classify
classify-IsHot path h =
    classify_prefixes-IsHot (length (split_dots path)) (split_dots path) (is_hot_sound _ h)

classify_fails : (path : Text) → is_hot (classify path) ≡ false → ¬ IsHot path
unfolding classify
classify_fails path h hot_path =
    let e = IsHot-classify_prefixes (length (split_dots path)) (split_dots path) hot_path in
    ground (arith, h, ap is_hot e)

-- The paths are told apart, in their order, into those that are applied live and those that want a restart: a
-- path is applied live when the longest of its prefixes that is in one of the sets is a hot field, and in
-- every other case, also when no prefix is in a set, it wants a restart.
pub partition-IsSplit :
    (paths : List Text)
    → let (live, late) = partition paths in
      Split Text paths live late × All IsHot live × All (λ path. ¬ IsHot path) late
unfolding partition
partition-IsSplit [] = (none_left, tt, tt)
partition-IsSplit (path ∷ paths) =
    let (split, live, late) = partition-IsSplit paths in
    elim (Bool-cases (is_hot (classify path))) [
      | inl h ↦ rw h (to_first split, (classify-IsHot path h, live), late)
      | inr h ↦ rw h (to_second split, live, (classify_fails path h, late))
    ]
