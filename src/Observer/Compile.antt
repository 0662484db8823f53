-- ===== src/Observer/Compile.antt =====
-- observer/compile/rules.py: what a compiled session is made of, and the texts of its parts. The clock of
-- the locale and the values of `meta` are a parameter; the compilers are in the modules below.
pub mod Records
pub mod Rules
pub mod Sidecar
pub mod Prompts
pub mod Llm
pub mod Escape
use agent_voca.Prelude.{
  ℕ, zero, suc, ◌+◌, ◌-◌, ◌/◌, ◌%◌, Bool, true, false, not, ◌&&◌, ◌||◌, Option, none, some, List,
  [], ◌∷◌, ◌++◌, ltb, leb, ◌==◌, if◌then◌else◌, length, take,
}
use agent_voca.Text.{Text, Unicode, is_empty, strip, rstrip, contains, codes}

-- `strftime` in local time, `str`, `bool` and `int` of a value of `meta` (`none` where `int` raises), and the
-- version of the program.
pub record Locale : Type 0 where
  pub hhmm : ℕ → Text
  pub date : ℕ → Text
  pub as_text : Text → Text
  pub is_truthy : Text → Bool
  pub as_int : Text → Option ℕ
  pub version : Text

pub record Utterance : Type 0 where
  pub ts_ms : ℕ
  pub text : Text
  pub is_dictated : Bool

pub record Selection : Type 0 where
  pub ts_ms : ℕ
  pub text : Text
  pub method : Text
  pub truncated : Bool

pub record Keyframe : Type 0 where
  pub ts_ms : ℕ
  pub blob_path : Text
  pub trigger : Text
  pub ocr_text : Text

pub record Gap : Type 0 where
  pub ts_ms : ℕ
  pub reason : Text
  pub dropped : ℕ

-- An entry of `blocks[]`
pub record BlockRecord : Type 0 where
  pub index : ℕ
  pub started_at_ms : ℕ
  pub ended_at_ms : ℕ
  pub app_name : Text
  pub window_title : Text
  pub summary : Text
  pub utterances : List Utterance
  pub selections : List Selection
  pub keyframes : List Keyframe
  pub gaps : List Gap

-- `CompiledSession`, with the blocks as the compilers build them
pub record Compiled : Type 0 where
  pub markdown : Text
  pub summary : Text
  pub blocks : List BlockRecord
  pub provider : Text
  pub degraded : Bool

-- `value or ""`
abbrev pub or_empty : Option Text → Text
or_empty none = []
or_empty (some t) = t

-- `value or default` of a text
abbrev pub text_or : Text → Text → Text
text_or t d = if is_empty t then d else t

-- `separator.join(texts)`
unfoldable pub join_by : Text → List Text → Text
join_by separator [] = []
join_by separator (t ∷ []) = t
join_by separator (t ∷ s ∷ l) = t ++ (separator ++ join_by separator (s ∷ l))

-- `str(n)`, with fuel; a number has fewer digits than its successor says.
unfoldable pub digits : ℕ → ℕ → Text
digits zero n = []
digits (suc fuel) n =
    let front = digits fuel (n / 10) in (if ltb n 10 then [] else front) ++ (b'0' + n % 10) ∷ []

unfoldable pub decimal : ℕ → Text
unfolding digits
decimal n = digits (suc n) n

-- The class of `_MD_SPECIAL`
unfoldable pub special_chars : Text
special_chars = codes "\\`*_{}[]()#+-.!|>~="

unfoldable pub is_special_in : Text → ℕ → Bool
is_special_in [] c = false
is_special_in (s ∷ l) c = s == c || is_special_in l c

unfoldable pub is_special : ℕ → Bool
unfolding is_special_in special_chars
is_special c = is_special_in special_chars c

-- `_escape_md`
unfoldable pub escape_md : Text → Text
unfolding is_special
escape_md [] = []
escape_md (c ∷ t) = let rest = escape_md t in if is_special c then b'\\' ∷ c ∷ rest else c ∷ rest

-- `_fmt_duration`
unfoldable pub fmt_duration : ℕ → Text
unfolding decimal
fmt_duration ms =
    let total_minutes = ms / 60000 in
    let hours = total_minutes / 60 in
    let minutes = total_minutes % 60 in
    if ltb 0 hours && ltb 0 minutes
    then decimal hours ++ (codes " h " ++ (decimal minutes ++ codes " m"))
    else if ltb 0 hours
    then decimal hours ++ codes " h"
    else decimal minutes ++ codes " m"

-- `_pluralize`, with the plural
unfoldable pub pluralize : ℕ → Text → Text → Text
unfolding decimal
pluralize n singular plural = decimal n ++ (codes " " ++ (if n == 1 then singular else plural))

-- The ends of lines of `str.splitlines`, beside `"\r\n"`
unfoldable pub is_line_end : ℕ → Bool
is_line_end c =
    (leb 10 c && leb c 13) || (leb 28 c && leb c 30) || c == 0x85 || c == 0x2028 || c == 0x2029

-- `str.splitlines`, behind the characters of a line that has begun
unfoldable pub split_from : Text → Text → List Text
unfolding is_line_end
split_from [] [] = []
split_from (c ∷ line) [] = (c ∷ line) ∷ []
split_from line (c ∷ []) = (if is_line_end c then line else line ++ c ∷ []) ∷ []
split_from line (c ∷ d ∷ t) =
    let behind_pair = split_from [] t in
    let behind_end = split_from [] (d ∷ t) in
    let further = split_from (line ++ c ∷ []) (d ∷ t) in
    if c == 13 && d == 10
    then line ∷ behind_pair
    else if is_line_end c
    then line ∷ behind_end
    else further

unfoldable pub splitlines : Text → List Text
unfolding split_from
splitlines t = split_from [] t

-- `[line for line in lines if line not in shown]`
unfoldable pub not_in : List Text → List Text → List Text
not_in shown [] = []
not_in shown (t ∷ l) = let rest = not_in shown l in if contains shown t then rest else t ∷ rest

module _ (u : Unicode) where
  -- `_truncate`
  unfoldable pub truncate : Text → ℕ → Text
  truncate text max_chars =
      if is_empty text || leb (length text) max_chars
      then text
      else rstrip u (take (max_chars - 1) text) ++ 8230 ∷ []

  -- The loop of `_first_non_empty_lines`
  unfoldable pub nonblank_lines : ℕ → List Text → List Text → List Text
  unfolding strip
  nonblank_lines count out [] = out
  nonblank_lines count out (line ∷ l) =
      let out' = out ++ strip u line ∷ [] in
      let skipped = nonblank_lines count out l in
      let added = nonblank_lines count out' l in
      if is_empty (strip u line) then skipped else if leb count (length out') then out' else added

  unfoldable pub first_non_empty_lines : Text → ℕ → List Text
  unfolding nonblank_lines splitlines
  first_non_empty_lines text count = nonblank_lines count [] (splitlines text)
