-- ===== src/Translate/Response.antt =====
-- src/translate.rs, `ResponseAggregator` and `responses_to_chat`: a Responses reply, rebuilt from its
-- stream, becomes a Chat Completions reply.
pub mod Reply
pub mod RoundTrip
pub mod Aggregate
mod Tests
use mathlib.Core.Option
use mur_model_gateway.Common.{
  Bool, true, false, List, [], ◌∷◌, ◌++◌, map, Option, none, some, String, if◌then◌else◌, get_or,
  ◌>>=◌, is_empty,
}
use mur_model_gateway.Common.Text.{push_str}
use mur_model_gateway.Json.{
  Value, null, num, str, Number, pos_int, end, array, object, obj, find, insert, get, as_str,
  fields,
}
use mur_model_gateway.Translate.Request.{says, equals, get_cloned, get_array}

pub record ResponseAggregator : Type 0 where
  pub response : Value
  pub output : List Value

-- `ResponseAggregator::new`
pub new : ResponseAggregator
new = record { response = null; output = [] }

-- `ResponseAggregator::push`: its two statements
take_response : Option Value → ResponseAggregator → ResponseAggregator
take_response none a = a
take_response (some resp) a = record a { response = resp }

take_item : Option Value → ResponseAggregator → ResponseAggregator
take_item none a = a
take_item (some item) a = record a { output = a.output ++ item ∷ [] }

pub push : ResponseAggregator → String → Value → ResponseAggregator
unfolding take_response take_item says get
push a event d =
    let a' = take_response (get d "response") a in
    if says d "type" "response.output_item.done" then take_item (get d "item") a' else a'

-- the loop over the frames of a reply
pub push_all : ResponseAggregator → List (String × Value) → ResponseAggregator
push_all a [] = a
push_all a ((event, d) ∷ frames) = push_all (push a event d) frames

abbrev kept_keys : List String
kept_keys = "id" ∷ "created_at" ∷ "status" ∷ "model" ∷ "usage" ∷ "incomplete_details" ∷ []

-- `ResponseAggregator::finish`
pub finish : ResponseAggregator → Value
unfolding get_cloned
finish a = obj (
    fields (
      map (λ k. (k, get_cloned a.response k null)) kept_keys
      ++ ("object", str "response") ∷ ("output", array a.output) ∷ []))

-- What the loop over `output` adds to the text and to the tool calls.
part_text : Value → String
unfolding says get
part_text part =
    if says part "type" "output_text" then get_or (get part "text" >>= as_str) "" else ""

parts_text : List Value → String
unfolding part_text push_str
parts_text [] = ""
parts_text (p ∷ ps) = push_str (part_text p) (parts_text ps)

pub tool_call : Value → Value
unfolding get_cloned
tool_call item = object (
    ("id", get_cloned item "call_id" null)
    ∷ ("type", str "function")
    ∷ (
      "function",
      object (
          ("name", get_cloned item "name" null)
          ∷ ("arguments", get_cloned item "arguments" (str ""))
          ∷ []),
    )
    ∷ [])

output_item : Value → String × List Value
unfolding says parts_text tool_call get_array
output_item item =
    if says item "type" "message"
    then (parts_text (get_array item "content"), [])
    else if says item "type" "function_call"
    then ("", tool_call item ∷ [])
    else ("", [])

pub output_items : List Value → String × List Value
unfolding output_item push_str
output_items [] = ("", [])
output_items (i ∷ is) =
    let (text, calls) = output_item i in
    let (texts, rest) = output_items is in (push_str text texts, calls ++ rest)

pub truncated : Value → Bool
unfolding get
truncated resp =
    equals (get resp "incomplete_details" >>= λ d. get d "reason" >>= as_str) "max_output_tokens"

pub finish_reason : Bool → List Value → String
finish_reason cut calls = if cut then "length" else if is_empty calls then "stop" else "tool_calls"

pub reply_message : String → List Value → Value
reply_message text calls =
    if is_empty calls
    then object (("role", str "assistant") ∷ ("content", str text) ∷ [])
    else object
        (("role", str "assistant") ∷ ("content", str text) ∷ ("tool_calls", array calls) ∷ [])

usage_counts : Value → Value
unfolding get_cloned
usage_counts usage = object (
    ("prompt_tokens", get_cloned usage "input_tokens" (num (pos_int 0)))
    ∷ ("completion_tokens", get_cloned usage "output_tokens" (num (pos_int 0)))
    ∷ ("total_tokens", get_cloned usage "total_tokens" (num (pos_int 0)))
    ∷ [])

pub responses_to_chat : Value → String → Value
unfolding output_items truncated finish_reason reply_message usage_counts get_cloned get_array
responses_to_chat resp model =
    let (text, calls) = output_items (get_array resp "output") in
    object (
      ("id", get_cloned resp "id" (str "chatcmpl-codex"))
      ∷ ("object", str "chat.completion")
      ∷ ("created", get_cloned resp "created_at" (num (pos_int 0)))
      ∷ ("model", str model)
      ∷ (
        "choices",
        array (
            object (
              ("index", num (pos_int 0))
              ∷ ("message", reply_message text calls)
              ∷ ("finish_reason", str (finish_reason (truncated resp) calls))
              ∷ [])
            ∷ []),
      )
      ∷ ("usage", usage_counts (get_cloned resp "usage" null))
      ∷ [])
