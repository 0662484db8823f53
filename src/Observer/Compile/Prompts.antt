-- ===== src/Observer/Compile/Prompts.antt =====
-- observer/compile/prompts.py: `strip_unsafe_markdown`.
pub mod Demoted
use agent_voca.Prelude.{
  ℕ, zero, suc, ◌+◌, ◌-◌, Bool, true, false, not, ◌&&◌, Option, none, some, List, [], ◌∷◌, ◌++◌,
  ◌==◌, if◌then◌else◌, length, drop, map,
}
use agent_voca.Text.{Text, Unicode, is_empty, strip, lstrip, codes}
use agent_voca.Vocab.Dictionary.{starts_with}
use agent_voca.Observer.Compile.{join_by, splitlines}

-- `text.startswith(prefix)`
abbrev pub has_prefix : Text → Text → Bool
has_prefix prefix text = elim (starts_with prefix text) [ none ↦ false | some _ ↦ true ]

-- `lines[:-1]` if the last line passes the test
unfoldable pub drop_last_if : (Text → Bool) → List Text → List Text
drop_last_if test [] = []
drop_last_if test (t ∷ []) = if test t then [] else t ∷ []
drop_last_if test (t ∷ s ∷ l) = t ∷ drop_last_if test (s ∷ l)

unfoldable pub drop_first_if : (Text → Bool) → List Text → List Text
drop_first_if test [] = []
drop_first_if test (t ∷ l) = if test t then l else t ∷ l

-- The run of `#`s at the start
unfoldable pub hashes : Text → ℕ
hashes [] = 0
hashes (c ∷ t) = let more = hashes t in if c == b'#' then suc more else 0

-- `" " * n`
unfoldable pub spaces : ℕ → Text
spaces zero = []
spaces (suc n) = 32 ∷ spaces n

module _ (u : Unicode) where
  -- A line that opens or closes a code fence
  unfoldable pub is_fence : Text → Bool
  unfolding lstrip starts_with
  is_fence line = has_prefix (codes "```") (lstrip u line)

  -- The line of a heading with so many `#`s
  unfoldable pub demote_to : ℕ → Text → Text → Text
  unfolding spaces lstrip
  demote_to n line stripped =
      spaces (length line - length stripped)
      ++ ((if n == 1 then codes "###" else codes "####") ++ 32 ∷ lstrip u (drop n stripped))

  -- The body of the loop over the lines: a heading above `###` is demoted.
  unfoldable pub demote : Text → Text
  unfolding hashes demote_to lstrip starts_with
  demote line =
      let stripped = lstrip u line in
      if has_prefix (codes "#") stripped && not (has_prefix (codes "###") stripped)
      then demote_to (hashes stripped) line stripped
      else line

  unfoldable pub strip_unsafe_markdown : Text → Text
  unfolding is_fence drop_first_if drop_last_if demote strip join_by splitlines
  strip_unsafe_markdown text =
      if is_empty text
      then []
      else let lines = drop_last_if is_fence (drop_first_if is_fence (splitlines text)) in
        let cleaned = strip u (join_by (10 ∷ []) lines) in
        strip u (join_by (10 ∷ []) (map demote (splitlines cleaned)))
