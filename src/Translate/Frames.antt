-- ===== src/Translate/Frames.antt =====
-- src/translate.rs, `split_sse_frames`: complete SSE frames are drained from a buffer. The JSON parser
-- is an argument.
pub mod Drain
pub mod Chunks
use Prim.Native.Char.{Char, code}
use Prim.Native.String
use mur_model_gateway.Common.{
  ℕ, zero, suc, Bool, true, false, ◌&&◌, ◌||◌, ◌==◌, List, [], ◌∷◌, ◌++◌, Option, none, some,
  String, if◌then◌else◌, get_or, ◌>>=◌,
}
use mur_model_gateway.Common.Text.{
  str_eq, push_str, strip_prefix, trim, lines, without_cr, is_empty as is_blank,
}
use mur_model_gateway.Json.{Value, get, as_str}

-- `chars().count()`
abbrev pub size : String → ℕ
size String.[] = 0
size (String.◌∷◌ c s) = suc (size s)

abbrev onto : Char → Option (String × String) → Option (String × String)
onto c none = none
onto c (some (s, rest)) = some (String.◌∷◌ c s, rest)

-- `find("\n\n")` and `drain(..end + 2)`: the text up to and with the first blank line, and the rest
pub cut : String → Option (String × String)
cut String.[] = none
cut (String.◌∷◌ c String.[]) = none
cut (String.◌∷◌ c (String.◌∷◌ d s)) =
    if code c == b'\n' && code d == b'\n' then some ("\n\n", s) else onto c (cut (String.◌∷◌ d s))

-- The loop over the lines of a frame, from the event and the data so far.
abbrev field_line : Option String → Option String → String × String → String × String
field_line (some v) o (event, text) = (trim v, text)
field_line none (some v) (event, text) = (event, push_str text (trim v))
field_line none none state = state

read_lines : List String → String × String → String × String
unfolding strip_prefix trim push_str
read_lines [] state = state
read_lines (line ∷ ls) state =
    read_lines ls (field_line (strip_prefix line "event:") (strip_prefix line "data:") state)

-- The event's name, or else the type of its data.
abbrev named : String → Value → String
named event v = if is_blank event then get_or (get v "type" >>= as_str) "" else event

-- What a frame yields: nothing where its data is empty, the closing sentinel, or no JSON.
module _ (from_str : String → Option Value) where
  frame : String → List (String × Value)
  unfolding read_lines lines str_eq get
  frame text =
      let (event, payload) = read_lines (lines text) ("", "") in
      if is_blank payload || str_eq payload "[DONE]"
      then []
      else elim (from_str payload) [ none ↦ [] | some v ↦ (named event v, v) ∷ [] ]

  -- The `while let` loop on fuel: the frames, and what stays in the buffer.
  pub drain : ℕ → String → List (String × Value) × String
  unfolding cut frame
  drain zero buf = ([], buf)
  drain (suc fuel) buf = elim (cut buf) [
    | none ↦ ([], buf)
    | some (text, rest) ↦ let (frames, left) = drain fuel rest in (frame text ++ frames, left)
  ]

  pub split_sse_frames : String → List (String × Value) × String
  unfolding drain without_cr
  split_sse_frames buf = let clean = without_cr buf in drain (size clean) clean
