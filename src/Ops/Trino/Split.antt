-- ===== src/Ops/Trino/Split.antt =====
-- `split_statements` on a script that is written chunk by chunk and line by line.
use payments_data_platform.Base.{
  ◌≡◌, String, Bool, not, ◌||◌, false, List, [], ◌∷◌, ◌++◌, filter, ◌==◌,
}
use Prim.Native.Char.{Char, code}
use payments_data_platform.Ops.Text.{is_break, strip, starts_with, join, is_empty}

-- A line of a script: no line boundary and no semicolon in it.
abbrev pub IsLine : String → Type 0
IsLine String.[] = Unit
IsLine (String.◌∷◌ c s) = (is_break c ≡ false) × ((code c == 59) ≡ false) × IsLine s

abbrev pub append_text : String → String → String
append_text String.[] t = t
append_text (String.◌∷◌ c s) t = String.◌∷◌ c (append_text s t)

-- The lines with a line feed after each, and chunks with a semicolon between two.
abbrev pub text_of : List String → String
text_of [] = ""
text_of (l ∷ ls) = append_text l (String.◌∷◌ "\n" (text_of ls))

abbrev pub script_of : List (List String) → String
script_of [] = ""
script_of (ls ∷ []) = text_of ls
script_of (ls ∷ ms ∷ rest) = append_text (text_of ls) (String.◌∷◌ ";" (script_of (ms ∷ rest)))

-- A line that is neither blank nor a comment.
abbrev pub is_written : String → Bool
is_written line = not (is_empty (strip line) || starts_with "--" (strip line))

abbrev pub one_statement : List String → List String
one_statement [] = []
one_statement (l ∷ ls) = strip (join "\n" (l ∷ ls)) ∷ []

-- One statement for a chunk with a line of code: those lines, joined and stripped.
abbrev pub written : List (List String) → List String
written [] = []
written (ls ∷ rest) = one_statement (filter is_written ls) ++ written rest

-- Text without a semicolon.
abbrev Whole : String → Type 0
Whole String.[] = Unit
Whole (String.◌∷◌ c s) = ((code c == 59) ≡ false) × Whole s
