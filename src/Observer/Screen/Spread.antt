-- ===== src/Observer/Screen/Spread.antt =====
-- The frames that are remembered are far apart.
use mathlib.Core.Path.{subst}
use agent_voca.Prelude.{
  length-drop, sym, ℕ, ◌+◌, ◌≤◌, ◌<◌, Bool, true, false, ◌&&◌, Option, none, some, List, [], ◌∷◌,
  ◌++◌, ◌≡◌, arith, All, All-snoc, Bool-cases, inl, inr, ltb, if◌then◌else◌, if-either, length,
  length-append, drop,
}
use agent_voca.Observer.Screen.{
  Screen, Grabber, Image, Rect, Grab, hamming, remember, is_duplicate, dedup_enabled, downscale,
  finish_grab, grab_image, grab, is_usable,
}

-- Every hash is farther than the threshold from those remembered after it.
abbrev AreApart : ℕ → List ℕ → Type 0
AreApart threshold [] = Unit
AreApart threshold (h ∷ l) = All (λ later. threshold < hamming h later) l × AreApart threshold l

-- The last eight frames, pairwise apart.
abbrev pub IsSpread : ℕ → List ℕ → Type 0
IsSpread threshold l = (length l ≤ 8) × AreApart threshold l

is_duplicate-far :
    (threshold h : ℕ) (l : List ℕ)
    → is_duplicate threshold h l ≡ false
    → All (λ prev. threshold < hamming prev h) l
unfolding is_duplicate
is_duplicate-far threshold h [] e = tt
is_duplicate-far threshold h (p ∷ l) e =
    (ground (arith, e), is_duplicate-far threshold h l (ground (arith, e)))

AreApart-snoc :
    (threshold h : ℕ) (l : List ℕ)
    → AreApart threshold l
    → All (λ prev. threshold < hamming prev h) l
    → AreApart threshold (l ++ h ∷ [])
AreApart-snoc threshold h [] a f = (tt, tt)
AreApart-snoc threshold h (p ∷ l) a f = (
  All-snoc (λ later. threshold < hamming p later) l h a.0 f.0,
  AreApart-snoc threshold h l a.1 f.1,
)

AreApart-drop : (threshold : ℕ) (l : List ℕ) → AreApart threshold l → AreApart threshold (drop 1 l)
AreApart-drop threshold [] a = tt
AreApart-drop threshold (p ∷ l) a = a.1

All-drop : (P : ℕ → Type 0) (l : List ℕ) → All P l → All P (drop 1 l)
All-drop P [] a = tt
All-drop P (p ∷ l) a = a.1

lt_of_ltb : (a b : ℕ) → ltb a b ≡ true → a < b
lt_of_ltb a b h = ground (arith, h)

remember-IsSpread :
    (threshold h : ℕ) (l : List ℕ)
    → IsSpread threshold l
    → All (λ prev. threshold < hamming prev h) l
    → IsSpread threshold (remember h l)
unfolding remember
remember-IsSpread threshold h l s f = elim (Bool-cases (ltb (length l) 8)) [
  | inl e ↦ rw e (
    omega (arith, length-append l (h ∷ []), lt_of_ltb (length l) 8 e),
    AreApart-snoc threshold h l s.1 f,
  )
  | inr e ↦ rw e (
    omega (arith, length-append (drop 1 l) (h ∷ []), length-drop 1 l, s.0),
    AreApart-snoc threshold h (drop 1 l) (AreApart-drop threshold l s.1)
        (All-drop (λ prev. threshold < hamming prev h) l f),
  )
]

-- No frame.
abbrev the_none : Option Grab
the_none = none

module _ (screen : Screen) where
  abbrev IsSpreadGrabber : Grabber → Type 0
  IsSpreadGrabber g = IsSpread screen.dedup_threshold g.recent

  finish_grab-IsSpread :
      (image : Image) (jpeg : Option (List ℕ)) (h : ℕ) (g : Grabber)
      → IsSpreadGrabber g
      → (dedup_enabled screen && is_duplicate screen.dedup_threshold h g.recent) ≡ false
      → IsSpreadGrabber (finish_grab screen image jpeg h g).1
  unfolding finish_grab
  finish_grab-IsSpread image none h g s e = s
  finish_grab-IsSpread image (some jpeg) h g s e = go (dedup_enabled screen) e
    where
      go :
          (enabled : Bool)
          → (enabled && is_duplicate screen.dedup_threshold h g.recent) ≡ false
          → IsSpreadGrabber (if enabled then record g { recent = remember h g.recent } else g)
      go true k =
          remember-IsSpread screen.dedup_threshold h g.recent s
            (is_duplicate-far screen.dedup_threshold h g.recent k)
      go false k = s

  grab_image-IsSpread :
      (image : Image) (g : Grabber)
      → IsSpreadGrabber g
      → IsSpreadGrabber (grab_image screen image g).1
  unfolding grab_image
  grab_image-IsSpread image g s =
      let h = if dedup_enabled screen then image.hash else 0 in
      let small = downscale screen image in
      elim (Bool-cases (dedup_enabled screen && is_duplicate screen.dedup_threshold h g.recent)) [
        | inl e ↦
            subst
              (λ b.
                IsSpreadGrabber
                  (if b
                    then (the_none, record g { deduped_count = g.deduped_count + 1 })
                    else finish_grab screen small (screen.encode small) h g).1)
              (sym e) s
        | inr e ↦
            subst
              (λ b.
                IsSpreadGrabber
                  (if b
                    then (the_none, record g { deduped_count = g.deduped_count + 1 })
                    else finish_grab screen small (screen.encode small) h g).1)
              (sym e) (finish_grab-IsSpread small (screen.encode small) h g s e)
      ]

  -- Whatever the platform shows: the grabber remembers at most eight frames, and any two of them differ in
  -- more bits than the threshold, so that no frame near one of the last eight is kept.
  pub grab-IsSpread :
      (rect : Option Rect) (image_of : Rect → Option Image) (g : Grabber)
      → IsSpread screen.dedup_threshold g.recent
      → IsSpread screen.dedup_threshold (grab screen rect image_of g).1.recent
  unfolding grab
  grab-IsSpread none image_of g s = s
  grab-IsSpread (some rect) image_of g s =
      if-either (λ (r : Option Grab × Grabber). IsSpreadGrabber r.1) (is_usable rect)
        (go (image_of rect)) s
    where
      go :
          (o : Option Image)
          → (let r : Option Grab × Grabber = elim o [
            | none ↦ (the_none, g)
            | some image ↦ grab_image screen image g
          ] in
              IsSpreadGrabber r.1)
      go none = s
      go (some image) = grab_image-IsSpread image g s
