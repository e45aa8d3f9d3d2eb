-- ===== src/Common/Text.antt =====
-- Rust's `str` methods that the program calls, on texts as lists of characters.
pub mod Prefix
pub mod Search
use Prim.Native.Nat.{ℕ, ◌+◌}
use Prim.Native.Char.{Char, code}
use Prim.Native.String.{String, [], ◌∷◌}
use mathlib.Core.Bool.{Bool, true, false, ◌&&◌, ◌||◌}
use mathlib.Core.Option.{Option, none, some}
use mathlib.Core.List
use mathlib.Core.List.{List}
use mur_model_gateway.Common.Basics.{◌==◌, leb, if◌then◌else◌}

-- `==`
unfoldable pub str_eq : String → String → Bool
str_eq [] [] = true
str_eq [] (d ∷ t) = false
str_eq (c ∷ s) [] = false
str_eq (c ∷ s) (d ∷ t) = code c == code d && str_eq s t

-- `push_str`
unfoldable pub push_str : String → String → String
push_str [] t = t
push_str (c ∷ s) t = c ∷ push_str s t

-- `is_empty`
abbrev pub is_empty : String → Bool
is_empty [] = true
is_empty (c ∷ s) = false

-- `strip_prefix`
unfoldable pub strip_prefix : String → String → Option String
strip_prefix s [] = some s
strip_prefix [] (d ∷ p) = none
strip_prefix (c ∷ s) (d ∷ p) = if code c == code d then strip_prefix s p else none

-- `starts_with`
unfoldable pub starts_with : String → String → Bool
starts_with s [] = true
starts_with [] (d ∷ p) = false
starts_with (c ∷ s) (d ∷ p) = code c == code d && starts_with s p

-- `contains`
unfoldable pub contains : String → String → Bool
unfolding starts_with
contains [] p = starts_with [] p
contains (c ∷ s) p = starts_with (c ∷ s) p || contains s p

-- `split(sep).next()`: what stands before the first separator
unfoldable pub first_split : (Char → Bool) → String → String
first_split sep [] = []
first_split sep (c ∷ s) = if sep c then [] else c ∷ first_split sep s

-- the characters for which `char::is_whitespace` holds
unfoldable pub is_whitespace : Char → Bool
is_whitespace c =
    let n = code c in
    (leb 9 n && leb n 13)
    || n == 32
    || n == 0x85
    || n == 0xa0
    || n == 0x1680
    || (leb 0x2000 n && leb n 0x200a)
    || n == 0x2028
    || n == 0x2029
    || n == 0x202f
    || n == 0x205f
    || n == 0x3000

unfoldable pub trim_start : String → String
trim_start [] = []
trim_start (c ∷ s) = if is_whitespace c then trim_start s else c ∷ s

-- a character in front of what is left of a text whose trailing white space is gone
abbrev pub keep_unless_blank : Char → String → String
keep_unless_blank c [] = if is_whitespace c then [] else c ∷ []
keep_unless_blank c (d ∷ s) = c ∷ d ∷ s

unfoldable pub trim_end : String → String
trim_end [] = []
trim_end (c ∷ s) = keep_unless_blank c (trim_end s)

-- `trim`
unfoldable pub trim : String → String
unfolding trim_start trim_end is_whitespace
trim s = trim_end (trim_start s)

-- `retain(|c| c != '\r')`
unfoldable pub without_cr : String → String
without_cr [] = []
without_cr (c ∷ s) = if code c == b'\r' then without_cr s else c ∷ without_cr s

-- a character in front of the first line
abbrev pub onto_first : Char → List String → List String
onto_first c List.[] = List.◌∷◌ (c ∷ []) List.[]
onto_first c (List.◌∷◌ l ls) = List.◌∷◌ (c ∷ l) ls

-- `lines()` of a text without `\r`: a newline ends a line, and nothing follows the last one
unfoldable pub lines : String → List String
lines [] = List.[]
lines (c ∷ s) = if code c == b'\n' then List.◌∷◌ [] (lines s) else onto_first c (lines s)

-- `join`
unfoldable pub join : String → List String → String
unfolding push_str
join sep List.[] = []
join sep (List.◌∷◌ s List.[]) = s
join sep (List.◌∷◌ s (List.◌∷◌ t ts)) = push_str s (push_str sep (join sep (List.◌∷◌ t ts)))
