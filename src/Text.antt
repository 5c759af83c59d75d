-- ===== src/Text.antt =====
-- The methods of Python's `str` that evaluator/ calls, on native texts.
pub mod Sentences
mod Tests
use Prim.Native.Char.{Char, code}
use Prim.Native.String.{String, ◌++◌}
use llm_evaluation_pipeline.Prelude.{
  ℕ, zero, suc, Bool, true, false, Option, none, some, List, [], ◌∷◌, ◌&&◌, ◌||◌, not,
  if◌then◌else◌, ◌==◌, number_comparable, leb,
}

-- `if s`
abbrev pub is_text : String → Bool
is_text String.[] = false
is_text (String.◌∷◌ c s) = true

abbrev pub space : ℕ
space = 32

abbrev within : ℕ → ℕ → ℕ → Bool
within a b n = leb a n && leb n b

-- `str.isspace`
unfoldable pub is_space : Char → Bool
is_space c =
    let n = code c in
    within 9 13 n
    || within 28 32 n
    || n == 133
    || n == 160
    || n == 5760
    || within 8192 8202 n
    || within 8232 8233 n
    || n == 8239
    || n == 8287
    || n == 12288

-- `s.replace("\n", " ")`
unfoldable pub replace_newlines : String → String
replace_newlines String.[] = ""
replace_newlines (String.◌∷◌ c s) =
    let rest = replace_newlines s in if code c == 10 then " " ++ rest else String.◌∷◌ c rest

unfoldable pub strip_left : String → String
strip_left String.[] = ""
strip_left (String.◌∷◌ c s) = let rest = strip_left s in if is_space c then rest else String.◌∷◌ c s

-- a character that is kept if it is no space or if something follows it
unfoldable pub keep : Char → String → String
keep c String.[] = if is_space c then "" else String.◌∷◌ c ""
keep c (String.◌∷◌ d s) = String.◌∷◌ c (String.◌∷◌ d s)

unfoldable pub strip_right : String → String
strip_right String.[] = ""
strip_right (String.◌∷◌ c s) = keep c (strip_right s)

-- `s.strip()`
unfoldable pub strip : String → String
strip s = strip_right (strip_left s)

unfoldable pub push : Char → List String → List String
push c [] = String.◌∷◌ c "" ∷ []
push c (p ∷ ps) = String.◌∷◌ c p ∷ ps

-- `s.split(". ")`
unfoldable pub split_stops : String → List String
split_stops String.[] = "" ∷ []
split_stops (String.◌∷◌ c String.[]) = String.◌∷◌ c "" ∷ []
split_stops (String.◌∷◌ c (String.◌∷◌ d s)) = elim (code c == 46 && code d == 32) [
  | true ↦ "" ∷ split_stops s
  | false ↦ push c (split_stops (String.◌∷◌ d s))
]

-- `sep.join(parts)`
unfoldable pub join : String → List String → String
join sep [] = ""
join sep (p ∷ []) = p
join sep (p ∷ q ∷ ps) = p ++ (sep ++ join sep (q ∷ ps))

-- `[s.strip() for s in parts if s.strip()]`
unfoldable pub stripped : List String → List String
stripped [] = []
stripped (p ∷ ps) = let rest = stripped ps in if is_text (strip p) then strip p ∷ rest else rest

-- `_split_sentences`
unfoldable pub split_sentences : String → List String
split_sentences text = stripped (split_stops (replace_newlines text))

-- `s.startswith(p)`
unfoldable pub starts_with : String → String → Bool
starts_with String.[] s = true
starts_with (String.◌∷◌ c p) String.[] = false
starts_with (String.◌∷◌ c p) (String.◌∷◌ d s) = code c == code d && starts_with p s

-- `p in s`
unfoldable pub occurs_in : String → String → Bool
occurs_in p String.[] = not (is_text p)
occurs_in p (String.◌∷◌ c s) = starts_with p (String.◌∷◌ c s) || occurs_in p s

-- `s[n:]`
unfoldable pub drop_text : ℕ → String → String
drop_text zero s = s
drop_text (suc n) String.[] = ""
drop_text (suc n) (String.◌∷◌ c s) = drop_text n s

-- `s.split(p)[0]`
unfoldable pub before : String → String → String
before p String.[] = ""
before p (String.◌∷◌ c s) =
    let rest = before p s in if starts_with p (String.◌∷◌ c s) then "" else String.◌∷◌ c rest

-- what follows the first occurrence of the n characters `p`
unfoldable pub after : ℕ → String → String → Option String
after n p String.[] = none
after n p (String.◌∷◌ c s) =
    let rest = after n p s in
    if starts_with p (String.◌∷◌ c s) then some (drop_text n (String.◌∷◌ c s)) else rest

-- `s[s.index(c):]`
unfoldable pub from_char : ℕ → String → Option String
from_char n String.[] = none
from_char n (String.◌∷◌ c s) =
    let rest = from_char n s in if code c == n then some (String.◌∷◌ c s) else rest

-- the text up to the last character of this code, that included
unfoldable pub up_to_last : ℕ → String → Option String
up_to_last n String.[] = none
up_to_last n (String.◌∷◌ c s) = elim (up_to_last n s) [
  | some t ↦ some (String.◌∷◌ c t)
  | none ↦ if code c == n then some (String.◌∷◌ c "") else none
]
