-- ===== src/Translate/Request/Assistant.antt =====
-- What an assistant message of a conversation becomes.
use mur_model_gateway.Common.{◌≡◌, [], ◌∷◌, ◌++◌, map, some, String, if◌then◌else◌}
use mur_model_gateway.Common.Text.{is_empty as is_blank, str_eq}
use mur_model_gateway.Json.{Value, str, get}
use mur_model_gateway.Translate.Request.{
  message, turn, content_items, assistant_items, call_item, output_text_item, get_array,
}

pub message_of_assistant :
    (msg : Value) (text : String)
    → get msg "role" ≡ some (str "assistant")
    → get msg "content" ≡ some (str text)
    → message msg ≡ (
      [],
      (if is_blank text then [] else output_text_item text ∷ [])
          ++ map call_item (get_array msg "tool_calls"),
    )
unfolding message turn content_items assistant_items str_eq
message_of_assistant msg text role content = rw (role, content)
