-- ===== src/Vision/Anchors.antt =====
-- vision/anchors.py: `AnchorSplicer`. The regular expression is kept as the list of its literal
-- alternatives, in the order in which it tries them.
pub mod Weave
pub mod Blank
use agent_voca.Prelude.{
  ℕ, zero, suc, ◌+◌, Bool, true, false, not, ◌&&◌, Option, none, some, List, [], ◌∷◌, ◌++◌, map,
  ltb, leb, ◌==◌, if◌then◌else◌, length, drop, min, take,
}
use agent_voca.Text.{Text, Unicode, codes, is_empty, strip, rstrip}
use agent_voca.Vocab.Match.{strip_literal}

-- `DEFAULT_ANCHOR_PHRASES`
abbrev pub default_anchor_phrases : List Text
default_anchor_phrases =
    codes "the attached screenshot"
    ∷ codes "the attached screen shot"
    ∷ codes "the attached image"
    ∷ codes "this screenshot"
    ∷ codes "this screen shot"
    ∷ codes "this image"
    ∷ codes "the screenshot"
    ∷ codes "the screen shot"
    ∷ codes "attached screenshot"
    ∷ codes "attached screen shot"
    ∷ codes "as shown above"
    ∷ codes "as shown below"
    ∷ codes "as shown"
    ∷ codes "as in the screenshot"
    ∷ codes "as in the screen shot"
    ∷ []

-- `sorted(phrases, key=len, reverse=True)`: stable, the longest first.
unfoldable pub insert_longest : Text → List Text → List Text
insert_longest p [] = p ∷ []
insert_longest p (q ∷ l) =
    let rest = insert_longest p l in if leb (length q) (length p) then p ∷ q ∷ l else q ∷ rest

unfoldable pub sort_longest : List Text → List Text
unfolding insert_longest
sort_longest [] = []
sort_longest (p ∷ l) = insert_longest p (sort_longest l)

abbrev pub or_default : List Text → List Text
or_default [] = default_anchor_phrases
or_default (p ∷ l) = p ∷ l

-- The positions of a match: `m.start()` and `m.end()`
pub record Match : Type 0 where
  pub start : ℕ
  pub end : ℕ

-- `re.sub(r"\n{3,}", "\n\n", result)`, behind `n` newlines that were kept
unfoldable pub collapse : ℕ → Text → Text
collapse n [] = []
collapse n (c ∷ s) =
    if c == 10 then if ltb n 2 then 10 ∷ collapse (suc n) s else collapse n s else c ∷ collapse 0 s

module _ (u : Unicode) where
  -- `[p for p in phrases if p.strip()]`
  unfoldable pub nonblank : List Text → List Text
  unfolding strip
  nonblank [] = []
  nonblank (p ∷ l) = let rest = nonblank l in if is_empty (strip u p) then rest else p ∷ rest

  -- `AnchorSplicer(phrases)`
  unfoldable pub init : List Text → List Text
  unfolding nonblank sort_longest
  init phrases = sort_longest (or_default (nonblank phrases))

  -- The length of the first alternative that matches at the head of the text.
  unfoldable pub match_length : List Text → Text → Option ℕ
  unfolding strip_literal
  match_length [] s = none
  match_length (p ∷ ps) s =
      let rest = match_length ps s in
      elim (strip_literal u p s) [ none ↦ rest | some _ ↦ some (length p) ]

  -- `finditer` from a position on; `skip` characters of the last match are still to pass.
  unfoldable pub find_from : List Text → ℕ → ℕ → Text → List Match
  unfolding match_length
  find_from phrases position skip [] = []
  find_from phrases position (suc skip) (c ∷ s) = find_from phrases (suc position) skip s
  find_from phrases position zero (c ∷ s) = elim (match_length phrases (c ∷ s)) [
    | none ↦ find_from phrases (suc position) zero s
    | some zero ↦ find_from phrases (suc position) zero s
    | some (suc n) ↦
        (record { start = position; end = position + suc n }) ∷ find_from phrases (suc position) n s
  ]

  -- `find_anchors`
  abbrev pub find_anchors : List Text → Text → List Match
  find_anchors phrases transcript = find_from phrases 0 0 transcript

  -- `f"\n\n{extraction.strip()}\n\n"`
  abbrev pub block_of : Text → Text
  block_of extraction = 10 ∷ 10 ∷ (strip u extraction ++ 10 ∷ 10 ∷ [])

  -- `result[: m.start()] + block + result[m.end() :]`
  abbrev pub replace_match : Match → Text → Text → Text
  replace_match m extraction result =
      take m.start result ++ (block_of extraction ++ drop m.end result)

  -- The loop over the pairs, from the last one to the first.
  unfoldable pub replace_paired : List Match → List Text → Text → Text
  replace_paired [] es result = result
  replace_paired (m ∷ ms) [] result = result
  replace_paired (m ∷ ms) (e ∷ es) result = replace_match m e (replace_paired ms es result)

  -- `"\n\n".join(e.strip() for e in leftover)`
  unfoldable pub join_blocks : List Text → Text
  unfolding strip
  join_blocks [] = []
  join_blocks (e ∷ []) = strip u e
  join_blocks (e ∷ f ∷ es) = strip u e ++ 10 ∷ 10 ∷ join_blocks (f ∷ es)

  unfoldable pub append_leftover : List Text → Text → Text
  unfolding join_blocks rstrip
  append_leftover [] result = result
  append_leftover (e ∷ es) result = rstrip u result ++ 10 ∷ 10 ∷ join_blocks (e ∷ es)

  -- `splice`, from the extractions that are not blank on
  unfoldable pub splice_nonblank : List Text → Text → List Text → Text × ℕ
  unfolding find_from replace_paired append_leftover collapse strip
  splice_nonblank phrases transcript [] = (transcript, 0)
  splice_nonblank phrases transcript (e ∷ es) =
      let matches = find_anchors phrases transcript in
      let n_paired = min (length matches) (length (e ∷ es)) in
      let result = replace_paired matches (e ∷ es) transcript in
      let complete = append_leftover (drop n_paired (e ∷ es)) result in
      (strip u (collapse 0 complete), n_paired)

  unfoldable pub splice : List Text → Text → List Text → Text × ℕ
  unfolding splice_nonblank nonblank
  splice phrases transcript extractions = splice_nonblank phrases transcript (nonblank extractions)
