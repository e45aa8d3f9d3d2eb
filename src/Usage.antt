-- ===== src/Usage.antt =====
-- src/lib.rs (`UpstreamUsage`, `usage_from_sse`): the accounting that an Anthropic answer carries.
pub mod Tap
mod Tests
use mur_model_gateway.Common.{
  ℕ, ◌+◌, ◌==◌, Bool, true, false, List, [], ◌∷◌, Option, none, some, String, if◌then◌else◌, ◌>>=◌,
  get_or,
}
use mur_model_gateway.Common.Text.{str_eq, strip_prefix, trim, lines}
use mur_model_gateway.Json.{Value, Fields, get, find, as_str, as_u64, as_object}

pub record UpstreamUsage : Type 0 where
  pub input_tokens : ℕ
  pub cache_read_input_tokens : ℕ
  pub cache_creation_input_tokens : ℕ
  pub id : Option String
  pub model : Option String
  pub ephemeral_5m : Option ℕ
  pub ephemeral_1h : Option ℕ

abbrev tokens : Fields → String → ℕ
tokens u k = get_or (find u k >>= as_u64) 0

abbrev split : Option Fields → String → Option ℕ
split none k = none
split (some c) k = some (tokens c k)

abbrev usage_of : Value → Fields → UpstreamUsage
usage_of container u =
    let cc = find u "cache_creation" >>= as_object in
    record {
      input_tokens = tokens u "input_tokens";
      cache_read_input_tokens = tokens u "cache_read_input_tokens";
      cache_creation_input_tokens = tokens u "cache_creation_input_tokens";
      id = get container "id" >>= as_str;
      model = get container "model" >>= as_str;
      ephemeral_5m = split cc "ephemeral_5m_input_tokens";
      ephemeral_1h = split cc "ephemeral_1h_input_tokens";
    }

unfoldable pub from_container : Value → Option UpstreamUsage
unfolding get find
from_container container =
    (get container "usage" >>= as_object) >>= (λ u. some (usage_of container u))

pub data SseScan : Type 0 where
  pending : SseScan
  found : UpstreamUsage → SseScan
  absent : SseScan

-- the bytes in front of the last newline, none without one
unfoldable pub before_last_newline : List ℕ → Option (List ℕ)
before_last_newline [] = none
before_last_newline (b ∷ bs) = elim (before_last_newline bs) [
  | some front ↦ some (b ∷ front)
  | none ↦ if b == b'\n' then some [] else none
]

abbrev is_start : Value → Bool
is_start v = elim (get v "type" >>= as_str) [ none ↦ false | some t ↦ str_eq t "message_start" ]

abbrev started : Value → Option UpstreamUsage
started v = if is_start v then get v "message" >>= from_container else none

abbrev scanned : Option UpstreamUsage → SseScan
scanned none = absent
scanned (some u) = found u

-- the first line with data decides
abbrev scan_lines : (String → Option Value) → List String → SseScan
scan_lines parse [] = pending
scan_lines parse (l ∷ ls) = elim (strip_prefix l "data:") [
  | none ↦ scan_lines parse ls
  | some payload ↦ scanned (parse (trim payload) >>= started)
]

abbrev scan_text : (String → Option Value) → (List ℕ → String) → Option (List ℕ) → SseScan
scan_text parse decode none = pending
scan_text parse decode (some front) = scan_lines parse (lines (decode front))

-- `usage_from_sse`, on the bytes so far; the parser of JSON and `from_utf8_lossy` are arguments
unfoldable pub usage_from_sse : (String → Option Value) → (List ℕ → String) → List ℕ → SseScan
unfolding get str_eq from_container before_last_newline strip_prefix trim lines
usage_from_sse parse decode buf = scan_text parse decode (before_last_newline buf)
