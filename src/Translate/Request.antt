-- ===== src/Translate/Request.antt =====
-- src/translate.rs, `chat_to_responses`: a Chat Completions request becomes a Responses request.
pub mod Rejection
pub mod Parameters
pub mod Calls
pub mod Tags
mod Tests
pub mod Assistant
use mur_model_gateway.Common.{
  ℕ, Bool, true, false, not, ◌&&◌, ◌||◌, List, [], ◌∷◌, ◌++◌, map, Option, none, some, String, ltb,
  if◌then◌else◌, get_or, or_else, ◌>>=◌, is_empty,
}
use mathlib.Core.Option
use mur_model_gateway.Common.Text.{str_eq, join, is_empty as is_blank}
use mur_model_gateway.Json.{
  Value, null, bool, str, Fields, end, array, object, obj, find, insert, get, as_str, as_array,
  as_object, as_u64, is_null, arr,
}

pub data TranslateError : Type 0 where
  rejected : String → TranslateError
  not_an_object : TranslateError

pub data Result : Type 0 where
  ok : Value → Result
  err : TranslateError → Result

abbrev pub equals : Option String → String → Bool
equals none t = false
equals (some s) t = str_eq s t

-- `v.get(k).and_then(Value::as_str) == Some(t)`
unfoldable pub says : Value → String → String → Bool
unfolding str_eq get
says v k t = equals (get v k >>= as_str) t

-- `v.get(k).cloned().unwrap_or(d)`
unfoldable pub get_cloned : Value → String → Value → Value
unfolding get
get_cloned v k d = get_or (get v k) d

-- `v.get(k).and_then(Value::as_array).unwrap_or(&empty)`
unfoldable pub get_array : Value → String → List Value
unfolding get
get_array v k = get_or (get v k >>= as_array) []

-- One kind of part of a `content` array: its text and its Responses items.
text_part : Value → List String × List Value
unfolding get
text_part p =
    let t = get_or (get p "text" >>= as_str) "" in
    (t ∷ [], object (("type", str "input_text") ∷ ("text", str t) ∷ []) ∷ [])

image_part : Value → List String × List Value
unfolding get
image_part p =
    let url = get_or (Option.map (λ u. get_or (get u "url") u) (get p "image_url")) null in
    ([], object (("type", str "input_image") ∷ ("image_url", url) ∷ []) ∷ [])

content_part : Value → List String × List Value
unfolding says text_part image_part
content_part p =
    if says p "type" "text"
    then text_part p
    else if says p "type" "image_url"
    then image_part p
    else ([], [])

-- The loop over the parts, which pushes each part's text and items.
content_parts : List Value → List String × List Value
unfolding content_part
content_parts [] = ([], [])
content_parts (p ∷ ps) =
    let (text, items) = content_part p in
    let (texts, rest) = content_parts ps in (text ++ texts, items ++ rest)

-- `content_items`
content_items : Option Value → String × List Value
unfolding content_parts join
content_items (some (str s)) = (s, object (("type", str "input_text") ∷ ("text", str s) ∷ []) ∷ [])
content_items (some (arr ps)) =
    let (text, items) = content_parts (get_or (as_array (arr ps)) []) in (join "\n" text, items)
content_items _ = ("", [])

-- One entry of `tool_calls`.
unfoldable pub call_item : Value → Value
unfolding get_cloned get
call_item call =
    let f = get_or (get call "function") null in
    object (
      ("type", str "function_call")
      ∷ ("call_id", get_cloned call "id" null)
      ∷ ("name", get_cloned f "name" null)
      ∷ ("arguments", get_cloned f "arguments" (str ""))
      ∷ [])

pub output_text_item : String → Value
output_text_item text = object (
    ("type", str "message")
    ∷ ("role", str "assistant")
    ∷ ("content", array (object (("type", str "output_text") ∷ ("text", str text) ∷ []) ∷ []))
    ∷ [])

tool_item : Value → String → Value
unfolding get_cloned
tool_item msg text = object (
    ("type", str "function_call_output")
    ∷ ("call_id", get_cloned msg "tool_call_id" null)
    ∷ ("output", str text)
    ∷ [])

user_item : String → List Value → Value
user_item text items =
    let content =
      if is_empty items
      then object (("type", str "input_text") ∷ ("text", str text) ∷ []) ∷ []
      else items in
    object (("type", str "message") ∷ ("role", str "user") ∷ ("content", array content) ∷ [])

assistant_items : Value → String → List Value
unfolding output_text_item call_item get_array
assistant_items msg text =
    (if is_blank text then [] else output_text_item text ∷ [])
    ++ map call_item (get_array msg "tool_calls")

-- The `match role` of the loop over `messages`: what one message adds to the instructions and to the
-- input.
turn : String → Value → String → List Value → List String × List Value
unfolding tool_item user_item assistant_items str_eq
turn role msg text items =
    if str_eq role "system" || str_eq role "developer"
    then (text ∷ [], [])
    else if str_eq role "tool"
    then ([], tool_item msg text ∷ [])
    else if str_eq role "assistant"
    then ([], assistant_items msg text)
    else ([], user_item text items ∷ [])

-- The body of that loop.
pub message : Value → List String × List Value
unfolding content_items turn get
message msg =
    let role = get_or (get msg "role" >>= as_str) "user" in
    let (text, items) = content_items (get msg "content") in turn role msg text items

pub messages : List Value → List String × List Value
unfolding message
messages [] = ([], [])
messages (m ∷ ms) =
    let (text, items) = message m in
    let (texts, rest) = messages ms in (text ++ texts, items ++ rest)

-- The first loop: a parameter that the Responses API cannot honour, present and not null.
abbrev given : Option Value → Bool
given none = false
given (some v) = not (is_null v)

rejected_param : List String → Fields → Option String
unfolding find
rejected_param [] chat = none
rejected_param (p ∷ ps) chat = if given (find chat p) then some p else rejected_param ps chat

abbrev exceeds_one : Option ℕ → Bool
exceeds_one none = false
exceeds_one (some n) = ltb 1 n

-- One flattened entry of `tools`.
tool : Value → Value
unfolding get_cloned get
tool t =
    let f = get_or (get t "function") t in
    object (
      ("type", str "function")
      ∷ ("name", get_cloned f "name" null)
      ∷ ("description", get_cloned f "description" null)
      ∷ ("parameters", get_cloned f "parameters" (obj end))
      ∷ [])

-- `if let Some(v) = … { out.insert(name, v) }`
insert_some : String → Option Value → Fields → Fields
unfolding insert
insert_some name none out = out
insert_some name (some v) out = insert name v out

abbrev instructions_value : List String → Option Value
instructions_value [] = none
instructions_value (t ∷ ts) = some (str (join "\n" (t ∷ ts)))

-- The part of `chat_to_responses` that fills the output map.
pub build : Fields → Fields
build chat =
    let (instructions, input) = messages (get_array (obj chat) "messages") in
    let out = insert_some "model" (find chat "model") end in
    let out = insert "store" (bool false) out in
    let out = insert "stream" (bool true) out in
    let out = insert_some "instructions" (instructions_value instructions) out in
    let out = insert "input" (array input) out in
    let out =
      insert_some "max_output_tokens"
        (or_else (find chat "max_tokens") (find chat "max_completion_tokens")) out in
    let out = insert_some "temperature" (find chat "temperature") out in
    let out = insert_some "top_p" (find chat "top_p") out in
    let out = insert_some "tool_choice" (find chat "tool_choice") out in
    insert_some "tools" (Option.map (λ ts. array (map tool ts)) (find chat "tools" >>= as_array))
      out

abbrev semantic : List String
semantic = "seed" ∷ "logprobs" ∷ "top_logprobs" ∷ "response_format" ∷ []

translate_object : Fields → Result
unfolding rejected_param build find
translate_object chat = elim (rejected_param semantic chat) [
  | some p ↦ err (rejected p)
  | none ↦
      if exceeds_one (find chat "n" >>= as_u64) then err (rejected "n") else ok (obj (build chat))
]

pub chat_to_responses : Value → Result
unfolding translate_object
chat_to_responses chat = elim (as_object chat) [
  | none ↦ err not_an_object
  | some m ↦ translate_object m
]
