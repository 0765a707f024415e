-- ===== src/Base/Texts.antt =====
-- What the program uses of Rust's str, on texts as lists of characters.
use Prim.Native.Nat.{ℕ}
use Prim.Native.Char.{Char, code}
use Prim.Native.String.{String}
use mathlib.Core.Bool.{Bool, true, ◌&&◌, ◌||◌}
use mathlib.Core.Option.{Option, none, some}
use mathlib.Core.List.{List, [], ◌∷◌}
use offload.Base.Equality.{◌==◌, comparable_number, comparable_text}
use offload.Base.Tests.{leb, if◌then◌else◌}

-- The characters of Unicode's White_Space.
abbrev pub is_whitespace : Char → Bool
is_whitespace c =
    (leb 9 (code c) && leb (code c) 13)
    || code c == 32
    || code c == 0x85
    || code c == 0xa0
    || code c == 0x1680
    || (leb 0x2000 (code c) && leb (code c) 0x200a)
    || code c == 0x2028
    || code c == 0x2029
    || code c == 0x202f
    || code c == 0x205f
    || code c == 0x3000

unfoldable pub trim_start : String → String
trim_start String.[] = ""
trim_start (String.◌∷◌ c s) =
    let rest = trim_start s in if is_whitespace c then rest else String.◌∷◌ c s

unfoldable pub trim_end : String → String
trim_end String.[] = ""
trim_end (String.◌∷◌ c s) =
    let rest = trim_end s in if rest == "" && is_whitespace c then "" else String.◌∷◌ c rest

unfoldable pub trim : String → String
unfolding trim_start trim_end
trim s = trim_end (trim_start s)

-- A prefix taken off.
unfoldable pub strip_prefix : String → String → Option String
strip_prefix s String.[] = some s
strip_prefix String.[] (String.◌∷◌ p pattern) = none
strip_prefix (String.◌∷◌ c s) (String.◌∷◌ p pattern) =
    let rest = strip_prefix s pattern in if code c == code p then rest else none

unfoldable pub text_contains : String → String → Bool
unfolding strip_prefix
text_contains String.[] pattern = pattern == ""
text_contains (String.◌∷◌ c s) pattern =
    let rest = text_contains s pattern in
    elim (strip_prefix (String.◌∷◌ c s) pattern) [ some _ ↦ true | none ↦ rest ]

-- The text up to the first character with this code, and what follows it, if it is there.
unfoldable pub split_once : ℕ → String → String × Option String
split_once n String.[] = ("", none)
split_once n (String.◌∷◌ c s) =
    let (before, after) = split_once n s in
    if code c == n then ("", some s) else (String.◌∷◌ c before, after)

-- str::split, by one character.
unfoldable pub split : ℕ → String → List String
split n String.[] = "" ∷ []
split n (String.◌∷◌ c s) = elim (split n s) [
  | [] ↦ []
  | part ∷ parts ↦ if code c == n then "" ∷ part ∷ parts else String.◌∷◌ c part ∷ parts
]

abbrev strip_return : String → String
strip_return String.[] = ""
strip_return (String.◌∷◌ c s) =
    let rest = strip_return s in if code c == b'\r' && s == "" then "" else String.◌∷◌ c rest

-- The ends of lines are "\n" and "\r\n"; a last line with nothing in it is no line.
abbrev line_list : List String → List String
line_list [] = []
line_list (last ∷ []) = if last == "" then [] else last ∷ []
line_list (l ∷ m ∷ ls) = strip_return l ∷ line_list (m ∷ ls)

unfoldable pub lines : String → List String
unfolding split
lines s = line_list (split b'\n' s)
