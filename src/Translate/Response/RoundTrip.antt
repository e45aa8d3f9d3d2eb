-- ===== src/Translate/Response/RoundTrip.antt =====
-- A reply that the client sends back as history becomes the items that it came from.
use mur_model_gateway.Common.{
  ◌≡◌, refl, ap, ap₂, List, [], ◌∷◌, ◌++◌, map, some, String, if◌then◌else◌,
}
use mur_model_gateway.Common.Text.{is_empty as is_blank}
use mur_model_gateway.Json.{Value, null, str, object, get, find}
use mur_model_gateway.Json.Laws.{elems-items}
use mur_model_gateway.Translate.Request.{
  message, call_item, output_text_item, get_array, get_cloned,
}
use mur_model_gateway.Translate.Request.Assistant.{message_of_assistant}
use mur_model_gateway.Translate.Response.{responses_to_chat, output_items, reply_message, tool_call}
use mur_model_gateway.Translate.Response.Reply.{
  message_of, message_of_reply, function_calls, output_items-calls,
}

-- A function call with what the translation keeps of it.
abbrev pub kept_call : Value → Value
kept_call item = object (
    ("type", str "function_call")
    ∷ ("call_id", get_cloned item "call_id" null)
    ∷ ("name", get_cloned item "name" null)
    ∷ ("arguments", get_cloned item "arguments" (str ""))
    ∷ [])

call_item-tool_call : (item : Value) → call_item (tool_call item) ≡ kept_call item
unfolding call_item tool_call get_cloned get find
call_item-tool_call item = refl

map-tool_call : (is : List Value) → map call_item (map tool_call is) ≡ map kept_call is
map-tool_call [] = refl
map-tool_call (i ∷ is) = ap₂ ◌∷◌ (call_item-tool_call i) (map-tool_call is)

reply_message-calls :
    (text : String) (calls : List Value) → get_array (reply_message text calls) "tool_calls" ≡ calls
unfolding reply_message get_array get find
reply_message-calls text [] = refl
reply_message-calls text (c ∷ cs) = ap (◌∷◌ c) (elems-items cs)

reply_message-role :
    (text : String) (calls : List Value)
    → get (reply_message text calls) "role" ≡ some (str "assistant")
unfolding reply_message get find
reply_message-role text [] = refl
reply_message-role text (c ∷ cs) = refl

reply_message-content :
    (text : String) (calls : List Value)
    → get (reply_message text calls) "content" ≡ some (str text)
unfolding reply_message get find
reply_message-content text [] = refl
reply_message-content text (c ∷ cs) = refl

-- The assistant message of a translated reply, sent back in the next request, adds no instruction, and
-- adds to the input the reply's text, where it has one, and then each of its function calls in order,
-- with its id, its name and its arguments.
pub message-responses_to_chat :
    (resp : Value) (model : String)
    → message (message_of (responses_to_chat resp model)) ≡ (
        let output = get_array resp "output" in
        let text = (output_items output).0 in
        (
          [],
          (if is_blank text then [] else output_text_item text ∷ [])
              ++ map kept_call (function_calls output),
        ))
message-responses_to_chat resp model =
    let output = get_array resp "output" in
    let text = (output_items output).0 in
    let calls = (output_items output).1 in
    rw (
      message_of_reply resp model,
      message_of_assistant (reply_message text calls) text (reply_message-role text calls)
          (reply_message-content text calls),
      reply_message-calls text calls,
      output_items-calls output,
      map-tool_call (function_calls output),
    )
