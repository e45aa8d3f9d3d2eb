-- ===== src/Compress.antt =====
-- src/compress.rs, the tests on paths, tools and texts: which bodies are rewritten, which tool results
-- reach the model verbatim, and which texts carry a retrieval marker.
pub mod Edits
pub mod Engine
pub mod Marker
pub mod Rewrite
pub mod Stale
mod Tests
use Prim.Native.String
use mur_model_gateway.Common.{
  ℕ, zero, suc, ◌+◌, Bool, true, false, ◌&&◌, ◌||◌, not, List, [], ◌∷◌, Option, none, some, String,
  if◌then◌else◌, leb, ◌>>=◌, get_or, or_else,
}
use mur_model_gateway.Common.Text.{str_eq, push_str, strip_prefix, starts_with, contains}
use mur_model_gateway.Common.Text.Search.{
  ends_with, after_first, split_whitespace, char_count, leading_hex,
}
use mur_model_gateway.Json.{Value, get, as_str}
use mur_model_gateway.Route.{Provider, anthropic, open_ai, gemini, codex, should_translate}

unfoldable pub should_compress : String → Provider → Bool
unfolding str_eq starts_with contains should_translate
should_compress path anthropic = str_eq path "/v1/messages" || starts_with path "/v1/messages?"
should_compress path open_ai =
    str_eq path "/v1/chat/completions" || starts_with path "/v1/chat/completions?"
should_compress path gemini =
    starts_with path "/v1beta/models/"
    && (contains path ":generateContent" || contains path ":streamGenerateContent")
should_compress path codex = should_translate path

-- what the loop of `has_retrieve_marker` asks of the text behind a `hash=`
unfoldable pub is_hash : String → Bool
unfolding strip_prefix leading_hex
is_hash tail = leb 16 (leading_hex (get_or (strip_prefix tail "\"") tail))

-- the loop of `has_retrieve_marker`, with as many rounds as the fuel gives
unfoldable pub marker_loop : ℕ → String → Bool
unfolding after_first is_hash
marker_loop zero rest = false
marker_loop (suc fuel) rest = elim (after_first rest "hash=") [
  | none ↦ false
  | some tail ↦ is_hash tail || marker_loop fuel tail
]

-- The rest of the text is shorter after each round, so its length is fuel enough.
unfoldable pub has_retrieve_marker : String → Bool
unfolding marker_loop char_count
has_retrieve_marker text = marker_loop (suc (char_count text)) text

unfoldable pub is_read_tool : String → Bool
unfolding str_eq ends_with
is_read_tool name = str_eq name "Read" || str_eq name "read_file" || ends_with name "__read_file"

unfoldable pub file_path_of : Option Value → Option String
unfolding get
file_path_of input = input >>= (λ i. or_else (get i "file_path") (get i "path") >>= as_str)

-- `{name}\u{1f}{input}`; the printer of JSON values is an argument
unfoldable pub view_key : (Value → String) → String → Option Value → String
unfolding is_read_tool push_str
view_key print name none = if is_read_tool name then push_str name "\u{1f}" else ""
view_key print name (some input) =
    if is_read_tool name then push_str name (push_str "\u{1f}" (print input)) else ""

-- two words in a row that call `mur retrieve`
unfoldable pub calls_retrieve : List String → Bool
unfolding str_eq ends_with
calls_retrieve [] = false
calls_retrieve (w ∷ []) = false
calls_retrieve (w ∷ v ∷ ws) =
    ((str_eq w "mur" || ends_with w "/mur") && str_eq v "retrieve") || calls_retrieve (v ∷ ws)

abbrev pub command_of : Option Value → Option String
command_of input = input >>= (λ i. get i "command" >>= as_str)

abbrev pub retrieves : Option String → Bool
retrieves none = false
retrieves (some command) = calls_retrieve (split_whitespace command)

unfoldable pub is_verbatim_tool : String → Option Value → Bool
unfolding is_read_tool ends_with get calls_retrieve split_whitespace
is_verbatim_tool name input =
    is_read_tool name || ends_with name "mur_retrieve" || retrieves (command_of input)
