-- ===== src/Common/Text/Search.antt =====
-- Rust's `str` methods that look inside a text.
use Prim.Native.Nat.{ℕ, zero, suc, ◌+◌}
use Prim.Native.Char.{Char, code}
use Prim.Native.String.{String, [], ◌∷◌}
use mathlib.Core.Bool.{Bool, true, false, ◌&&◌, ◌||◌, not}
use mathlib.Core.Option.{Option, none, some}
use mathlib.Core.List.{List}
use mur_model_gateway.Common.Basics.{◌==◌, if◌then◌else◌, leb, ltb, filter}
use mur_model_gateway.Common.Text.{str_eq, strip_prefix, is_whitespace, is_empty, onto_first}

-- `ends_with`
unfoldable pub ends_with : String → String → Bool
unfolding str_eq
ends_with [] p = str_eq [] p
ends_with (c ∷ s) p = str_eq (c ∷ s) p || ends_with s p

-- what follows the first place where the pattern stands, as `find(p)` and the slice behind it
unfoldable pub after_first : String → String → Option String
unfolding strip_prefix
after_first [] p = strip_prefix [] p
after_first (c ∷ s) p = elim (strip_prefix (c ∷ s) p) [
  | none ↦ after_first s p
  | some rest ↦ some rest
]

-- the pieces between the blanks, with the empty ones
abbrev pub blank_pieces : String → List String
blank_pieces [] = List.◌∷◌ [] List.[]
blank_pieces (c ∷ s) =
    if is_whitespace c then List.◌∷◌ [] (blank_pieces s) else onto_first c (blank_pieces s)

-- `split_whitespace`
unfoldable pub split_whitespace : String → List String
unfolding is_whitespace
split_whitespace s = filter (λ w. not (is_empty w)) (blank_pieces s)

-- the bytes of a character in UTF-8
abbrev pub utf8_len : Char → ℕ
utf8_len c =
    let n = code c in
    if ltb n 0x80 then 1 else if ltb n 0x800 then 2 else if ltb n 0x10000 then 3 else 4

-- `str::len`, in bytes
unfoldable pub byte_len : String → ℕ
byte_len [] = 0
byte_len (c ∷ s) = utf8_len c + byte_len s

-- `chars().count()`
unfoldable pub char_count : String → ℕ
char_count [] = 0
char_count (c ∷ s) = suc (char_count s)

-- `is_ascii_hexdigit`
abbrev pub is_ascii_hexdigit : Char → Bool
is_ascii_hexdigit c =
    let n = code c in (leb 48 n && leb n 57) || (leb 65 n && leb n 70) || (leb 97 n && leb n 102)

-- `chars().take_while(is_ascii_hexdigit).count()`
unfoldable pub leading_hex : String → ℕ
leading_hex [] = 0
leading_hex (c ∷ s) = if is_ascii_hexdigit c then suc (leading_hex s) else 0

-- `is_ascii_digit`
abbrev pub is_ascii_digit : Char → Bool
is_ascii_digit c = let n = code c in leb 48 n && leb n 57

-- `chars().all(p)`
unfoldable pub all_chars : (Char → Bool) → String → Bool
all_chars p [] = true
all_chars p (c ∷ s) = p c && all_chars p s

-- `chars().any(p)`
unfoldable pub any_char : (Char → Bool) → String → Bool
any_char p [] = false
any_char p (c ∷ s) = p c || any_char p s

-- `split(sep)` at one character, with the empty pieces
unfoldable pub split_char : ℕ → String → List String
split_char sep [] = List.◌∷◌ [] List.[]
split_char sep (c ∷ s) =
    if code c == sep then List.◌∷◌ [] (split_char sep s) else onto_first c (split_char sep s)

-- `chars().take(n)`
unfoldable pub take_chars : ℕ → String → String
take_chars n [] = []
take_chars zero (c ∷ s) = []
take_chars (suc n) (c ∷ s) = c ∷ take_chars n s
