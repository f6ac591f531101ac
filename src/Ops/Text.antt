-- ===== src/Ops/Text.antt =====
-- Python's text methods as the scripts use them: splitting, stripping, joining and tests. White space
-- and line boundaries are those of `str`; a digit is an ASCII digit.
use payments_data_platform.Base.{
  ℕ, ◌+◌, ◌-◌, ◌*◌, String, Bool, true, false, not, List, [], ◌∷◌, leb, ◌==◌, ◌&&◌, ◌||◌,
  if◌then◌else◌,
}
use Prim.Native.Char.{Char, code}
use Prim.Native.String.{◌++◌}

-- `str.isspace` of one character.
unfoldable pub is_space : Char → Bool
is_space c =
    let n = code c in
    (leb 9 n && leb n 13)
    || (leb 28 n && leb n 32)
    || n == 133
    || n == 160
    || n == 5760
    || (leb 8192 n && leb n 8202)
    || n == 8232
    || n == 8233
    || n == 8239
    || n == 8287
    || n == 12288

-- The characters at which `splitlines` ends a line.
unfoldable pub is_break : Char → Bool
is_break c =
    let n = code c in
    (leb 10 n && leb n 13) || (leb 28 n && leb n 30) || n == 133 || n == 8232 || n == 8233

-- A character before the first of the texts.
abbrev pub add_char : Char → List String → List String
add_char c [] = String.◌∷◌ c "" ∷ []
add_char c (l ∷ ls) = String.◌∷◌ c l ∷ ls

-- `splitlines` after a character, which may have been a carriage return: "\r\n" is one boundary.
unfoldable pub lines_after : Bool → String → List String
unfolding is_break
lines_after cr String.[] = []
lines_after cr (String.◌∷◌ c s) =
    let rest = lines_after (code c == 13) s in
    if cr && code c == 10 then rest else if is_break c then "" ∷ rest else add_char c rest

unfoldable pub splitlines : String → List String
unfolding lines_after
splitlines s = lines_after false s

-- `s.split(sep)` at one character.
unfoldable pub split_at : ℕ → String → List String
split_at sep String.[] = "" ∷ []
split_at sep (String.◌∷◌ c s) =
    let rest = split_at sep s in if code c == sep then "" ∷ rest else add_char c rest

unfoldable pub strip_left : String → String
unfolding is_space
strip_left String.[] = ""
strip_left (String.◌∷◌ c s) = if is_space c then strip_left s else String.◌∷◌ c s

abbrev pub before_stripped : Char → String → String
before_stripped c String.[] = if is_space c then "" else String.◌∷◌ c ""
before_stripped c (String.◌∷◌ d s) = String.◌∷◌ c (String.◌∷◌ d s)

unfoldable pub strip_right : String → String
unfolding is_space
strip_right String.[] = ""
strip_right (String.◌∷◌ c s) = before_stripped c (strip_right s)

unfoldable pub strip : String → String
unfolding strip_left strip_right
strip s = strip_left (strip_right s)

abbrev pub is_empty : String → Bool
is_empty String.[] = true
is_empty (String.◌∷◌ c s) = false

-- `s.startswith(prefix)`
unfoldable pub starts_with : String → String → Bool
starts_with String.[] s = true
starts_with (String.◌∷◌ c p) String.[] = false
starts_with (String.◌∷◌ c p) (String.◌∷◌ d s) = code c == code d && starts_with p s

-- `part in s`
unfoldable pub contains_text : String → String → Bool
unfolding starts_with
contains_text part String.[] = starts_with part ""
contains_text part (String.◌∷◌ c s) = starts_with part (String.◌∷◌ c s) || contains_text part s

-- `sep.join(parts)`
unfoldable pub join : String → List String → String
join sep [] = ""
join sep (p ∷ []) = p
join sep (p ∷ q ∷ ps) = p ++ sep ++ join sep (q ∷ ps)

abbrev pub is_digit : Char → Bool
is_digit c = leb 48 (code c) && leb (code c) 57

pub all_digits : String → Bool
all_digits String.[] = true
all_digits (String.◌∷◌ c s) = is_digit c && all_digits s

-- `s.isdigit()`
unfoldable pub isdigit : String → Bool
unfolding all_digits
isdigit s = not (is_empty s) && all_digits s

unfoldable pub int_from : ℕ → String → ℕ
int_from n String.[] = n
int_from n (String.◌∷◌ c s) = int_from (n * 10 + (code c - 48)) s

-- `int(s)` of digits.
unfoldable pub int_of : String → ℕ
unfolding int_from
int_of s = int_from 0 s
