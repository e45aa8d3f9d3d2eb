-- ===== src/CacheTrace.antt =====
-- src/cache_trace.rs (`fnv1a`, `Ttl`, `analyze` and what it calls): the facts about one request's body.
-- The compact print of a JSON value, its keys sorted, is an argument.
pub mod Diff
pub mod Guard
pub mod Send
pub mod Sizes
pub mod Table
mod Tests
use Prim.Native.Nat.{bit_xor}
use mur_model_gateway.Common.{
  ℕ, zero, suc, ◌+◌, ◌-◌, ◌*◌, ◌/◌, ◌%◌, ◌^◌, Bool, true, false, ◌||◌, List, [], ◌∷◌, ◌++◌, map,
  Option, none, some, String, if◌then◌else◌, ◌==◌, ◌>>=◌, get_or, or_else, is_some, length, any,
}
use mur_model_gateway.Common.Text.{str_eq, push_str, join}
use mur_model_gateway.Common.Decimal.{decimal}
use mur_model_gateway.Json.{
  Value, null, bool, num, str, arr, obj, Fields, get, find, remove, as_str, as_bool, as_array,
  as_object, object,
}
use mur_model_gateway.Compress.Edits.{over_field, over_elems}

abbrev pub Bytes : Type 0
Bytes = List ℕ

abbrev fnv_step : ℕ → ℕ → ℕ
fnv_step h b = (bit_xor h b * 0x100000001b3) % 2 ^ 64

abbrev fnv_loop : ℕ → Bytes → ℕ
fnv_loop h [] = h
fnv_loop h (b ∷ bs) = fnv_loop (fnv_step h b) bs

unfoldable pub fnv1a : Bytes → ℕ
fnv1a = fnv_loop 0xcbf29ce484222325

-- the bytes of a number, the lowest first
abbrev le_bytes : ℕ → ℕ → Bytes
le_bytes zero n = []
le_bytes (suc k) n = n % 256 ∷ le_bytes k (n / 256)

abbrev seq_bytes : List ℕ → Bytes
seq_bytes [] = []
seq_bytes (h ∷ hs) = le_bytes 8 h ++ seq_bytes hs

unfoldable pub fnv1a_seq : List ℕ → ℕ
unfolding fnv1a
fnv1a_seq hs = fnv1a (seq_bytes hs)

unfoldable pub without_cc : Value → Value
unfolding remove
without_cc (obj fs) = obj (remove "cache_control" fs)
without_cc v = v

-- `canon_message`, in front of the printer
unfoldable pub message_without_cc : Value → Value
unfolding over_field over_elems without_cc
message_without_cc = over_field "content" (over_elems without_cc)

abbrev content : Value → List Value
content m = get_or (get m "content" >>= as_array) []

pub data Ttl : Type 0 where
  five_min one_hour : Ttl

-- `Ttl::as_str`
abbrev pub ttl_text : Ttl → String
ttl_text five_min = "5m"
ttl_text one_hour = "1h"

-- `Ttl::duration`, in milliseconds
abbrev pub duration : Ttl → ℕ
duration five_min = 300000
duration one_hour = 3600000

abbrev ttl_of : Option String → Ttl
ttl_of none = five_min
ttl_of (some s) = if str_eq s "1h" then one_hour else five_min

abbrev ephemeral : Fields → Option Ttl
ephemeral cc = elim (find cc "type" >>= as_str) [
  | none ↦ none
  | some t ↦ if str_eq t "ephemeral" then some (ttl_of (find cc "ttl" >>= as_str)) else none
]

unfoldable pub breakpoint : Value → Option Ttl
unfolding get find str_eq
breakpoint block = (get block "cache_control" >>= as_object) >>= ephemeral

abbrev later : Ttl → Option Ttl → Option Ttl
later t none = some t
later one_hour (some u) = some one_hour
later five_min (some u) = some u

-- `max` of the times to live that are there
abbrev pub max_ttl : List (Option Ttl) → Option Ttl
max_ttl [] = none
max_ttl (none ∷ ts) = max_ttl ts
max_ttl (some t ∷ ts) = later t (max_ttl ts)

abbrev pub Points : Type 0
Points = List (ℕ × Ttl)

abbrev pub point_at : ℕ → Option Ttl → Points → Points
point_at i none ps = ps
point_at i (some t) ps = (i, t) ∷ ps

-- the breakpoints of a section whose first block has the index `i`
unfoldable pub points : (Value → Option Ttl) → ℕ → List Value → Points
points at i [] = []
points at i (b ∷ bs) = point_at i (at b) (points at (suc i) bs)

-- the breakpoint of a message: the longest of its blocks'
unfoldable pub message_point : Value → Option Ttl
unfolding get breakpoint
message_point m = max_ttl (map breakpoint (content m))

unfoldable pub positions : Points → ℕ → String
unfolding join push_str
positions [] len = "none"
positions (p ∷ ps) len =
    join "+" (map (λ (q : ℕ × Ttl). if q.0 + 1 == len then "last" else decimal q.0) (p ∷ ps))

-- what the lists of bytes before an index come to
unfoldable pub bytes_before : ℕ → List Bytes → ℕ
bytes_before zero bs = 0
bytes_before (suc i) [] = 0
bytes_before (suc i) (b ∷ bs) = length b + bytes_before i bs

unfoldable pub total_bytes : List Bytes → ℕ
total_bytes [] = 0
total_bytes (b ∷ bs) = length b + total_bytes bs

abbrev pub last : {A : Type 0} → List A → Option A
last [] = none
last (x ∷ []) = some x
last (x ∷ y ∷ ys) = last (y ∷ ys)

abbrev pub take : {A : Type 0} → ℕ → List A → List A
take zero xs = []
take (suc n) [] = []
take (suc n) (x ∷ xs) = x ∷ take n xs

-- the bytes through each breakpoint of a section, on top of those in front of the section
unfoldable pub section_bytes : ℕ → Points → List Bytes → List ℕ
unfolding bytes_before
section_bytes front ps canon = map (λ (p : ℕ × Ttl). front + bytes_before (suc p.0) canon) ps

abbrev pub ttls : Points → List Ttl
ttls = map (λ (p : ℕ × Ttl). p.1)

pub record Analysis : Type 0 where
  pub model : String
  pub tools_count : ℕ
  pub system_blocks : ℕ
  pub msgs : ℕ
  pub tools_bytes : ℕ
  pub system_bytes : ℕ
  pub bp_bytes : List ℕ
  pub prefix_bytes : ℕ
  pub span_bytes : Option ℕ
  pub ctx_fp : ℕ
  pub tools_fp : ℕ
  pub system_fp : ℕ
  pub prefix_fp : ℕ
  pub bp : String
  pub bp_ttls : List Ttl
  pub ttl : Option Ttl
  pub ttl_max : Option Ttl
  pub tools_hashes : List ℕ
  pub system_hashes : List ℕ
  pub msgs_hashes : List ℕ
  pub tools_canon : List Bytes
  pub system_canon : List Bytes

abbrev pub list_at : Fields → String → List Value
list_at o k = get_or (find o k >>= as_array) []

abbrev pub system_of : Option Value → List Value
system_of (some (str s)) = str s ∷ []
system_of (some (arr vs)) = get_or (as_array (arr vs)) []
system_of _ = []

abbrev cites : Value → Bool
cites b = elim (get b "citations" >>= (λ c. get c "enabled" >>= as_bool)) [
  | none ↦ false
  | some e ↦ e
]

unfoldable pub context : Fields → List Value → Value
unfolding find get
context o messages = object (
    ("thinking", get_or (find o "thinking") null)
    ∷ ("effort", get_or (find o "output_config" >>= (λ c. get c "effort")) null)
    ∷ ("speed", get_or (find o "speed") null)
    ∷ ("citations", bool (any (λ m. any cites (content m)) messages))
    ∷ [])

-- how many blocks of the tools and of the system text the prefix has
unfoldable pub prefix_counts : ℕ → ℕ → Option (ℕ × Ttl) → Option (ℕ × Ttl) → ℕ × ℕ
prefix_counts tools system (some (i, t)) last_tool = (tools, i + 1)
prefix_counts tools system none (some (i, t)) = (i + 1, 0)
prefix_counts tools system none none = (tools, system)

-- the bytes through the last breakpoint anywhere
unfoldable pub span : Bool → ℕ → ℕ → List ℕ → Points → List Bytes → Option ℕ
unfolding total_bytes bytes_before
span true front prefix bps msg_bps msgs = some (front + total_bytes msgs)
span false front prefix bps msg_bps msgs = elim (last msg_bps) [
  | some p ↦ some (front + bytes_before (suc p.0) msgs)
  | none ↦ elim bps [ [] ↦ none | b ∷ bs ↦ some prefix ]
]

abbrev from_last : ℕ → String
from_last zero = "last"
from_last (suc k) = push_str "last-" (decimal (suc k))

abbrev or_none : List String → String
or_none [] = "none"
or_none (s ∷ ss) = join "+" (s ∷ ss)

unfoldable pub msgs_position : ℕ → Points → Bool → String
unfolding join push_str
msgs_position len msg_bps auto =
    or_none (
      map (λ (p : ℕ × Ttl). from_last (len - 1 - p.0)) msg_bps
      ++ (if auto then "auto" ∷ [] else []))

unfoldable pub bp_text : String → String → String → String
unfolding push_str
bp_text tools system msgs =
    push_str "tools:"
      (push_str tools (push_str ",system:" (push_str system (push_str ",msgs:" msgs))))

-- `analyze` of a body that is a JSON object
unfoldable pub analyze_object : (Value → Bytes) → Fields → Analysis
unfolding find fnv1a fnv1a_seq without_cc message_without_cc breakpoint points message_point
    positions section_bytes total_bytes context prefix_counts span msgs_position bp_text
analyze_object canon o =
    let tools = list_at o "tools" in
    let system = system_of (find o "system") in
    let messages = list_at o "messages" in
    let tools_canon = map (λ b. canon (without_cc b)) tools in
    let system_canon = map (λ b. canon (without_cc b)) system in
    let msgs_canon = map (λ m. canon (message_without_cc m)) messages in
    let tools_hashes = map fnv1a tools_canon in
    let system_hashes = map fnv1a system_canon in
    let tools_bps = points breakpoint 0 tools in
    let system_bps = points breakpoint 0 system in
    let msg_bps = points message_point 0 messages in
    let auto = breakpoint (obj o) in
    let tools_bytes = total_bytes tools_canon in
    let system_bytes = total_bytes system_canon in
    let bp_bytes =
      section_bytes 0 tools_bps tools_canon ++ section_bytes tools_bytes system_bps system_canon in
    let bp_ttls = ttls tools_bps ++ ttls system_bps in
    let counts = prefix_counts (length tools) (length system) (last system_bps) (last tools_bps) in
    let prefix_bytes = get_or (last bp_bytes) (tools_bytes + system_bytes) in
    record {
      model = get_or (find o "model" >>= as_str) "-";
      tools_count = length tools;
      system_blocks = length system;
      msgs = length messages;
      tools_bytes = tools_bytes;
      system_bytes = system_bytes;
      bp_bytes = bp_bytes;
      prefix_bytes = prefix_bytes;
      span_bytes =
          span (is_some auto) (tools_bytes + system_bytes) prefix_bytes bp_bytes msg_bps msgs_canon;
      ctx_fp = fnv1a (canon (context o messages));
      tools_fp = fnv1a_seq tools_hashes;
      system_fp = fnv1a_seq system_hashes;
      prefix_fp = fnv1a_seq (take counts.0 tools_hashes ++ take counts.1 system_hashes);
      bp =
          bp_text (positions tools_bps (length tools)) (positions system_bps (length system))
            (msgs_position (length messages) msg_bps (is_some auto));
      bp_ttls = bp_ttls;
      ttl = last bp_ttls;
      ttl_max = max_ttl (map some (bp_ttls ++ ttls msg_bps) ++ auto ∷ []);
      tools_hashes = tools_hashes;
      system_hashes = system_hashes;
      msgs_hashes = map fnv1a msgs_canon;
      tools_canon = tools_canon;
      system_canon = system_canon;
    }

-- `analyze`, whose parser is an argument: no analysis of a body that is no JSON object
unfoldable pub analyze : (Bytes → Option Value) → (Value → Bytes) → Bytes → Option Analysis
unfolding analyze_object
analyze parse canon body = (parse body >>= as_object) >>= (λ o. some (analyze_object canon o))
