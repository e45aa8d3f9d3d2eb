-- ===== src/Translate/Response/Tests.antt =====
-- A reply with a message and a call.
use mur_model_gateway.Common.{◌≡◌, List, [], ◌∷◌, ◌++◌, map, String, if◌then◌else◌}
use mur_model_gateway.Common.Text.{is_empty as is_blank}
use mur_model_gateway.Json.{Value, str, object, array}
use mur_model_gateway.Translate.Request.{message, get_array, output_text_item}
use mur_model_gateway.Translate.Response.{responses_to_chat, output_items}
use mur_model_gateway.Translate.Response.Reply.{message_of, function_calls}
use mur_model_gateway.Translate.Response.RoundTrip.{kept_call, message-responses_to_chat}

abbrev call : Value
call = object (
    ("type", str "function_call")
    ∷ ("call_id", str "call_1")
    ∷ ("name", str "ls")
    ∷ ("arguments", str "{}")
    ∷ [])

abbrev reply : Value
reply = object (("output", array (call ∷ [])) ∷ ("status", str "completed") ∷ [])

abbrev events : List (String × Value)
events =
    (
      "response.output_item.done",
      object (("type", str "response.output_item.done") ∷ ("item", call) ∷ []),
    )
    ∷ ("response.completed", object (("response", reply) ∷ []))
    ∷ []

message-responses_to_chat_example : message (message_of (responses_to_chat reply "m")) ≡ (
    let output = get_array reply "output" in
    let text = (output_items output).0 in
    (
      [],
      (if is_blank text then [] else output_text_item text ∷ [])
          ++ map kept_call (function_calls output),
    ))
message-responses_to_chat_example = message-responses_to_chat reply "m"
