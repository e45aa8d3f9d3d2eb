-- ===== src/Translate/Request/Tests.antt =====
-- A chat with a tool call in its history.
use mur_model_gateway.Common.{◌≡◌, refl, ◌↔◌, inl, [], ◌∷◌}
use mur_model_gateway.Json.{Value, num, str, pos_int, Fields, fields, object, obj, array, find}
use mur_model_gateway.Translate.Request.{
  chat_to_responses, translate_object, rejected_param, build, ok, err, rejected, get_array,
}
use mur_model_gateway.Translate.Request.Rejection.{Honoured, chat_to_responses-ok_iff}
use mur_model_gateway.Translate.Request.Parameters.{Carries, chat_to_responses-Carries}
use mur_model_gateway.Translate.Request.Calls.{
  call_ids, output_ids, asked, answered, chat_to_responses-ids,
}

abbrev asking : Value
asking = object (
    ("role", str "assistant")
    ∷ (
      "tool_calls",
      array (
          object (
            ("id", str "call_1")
            ∷ ("function", object (("name", str "ls") ∷ ("arguments", str "{}") ∷ []))
            ∷ [])
          ∷ []),
    )
    ∷ [])

abbrev answering : Value
answering =
    object (("role", str "tool") ∷ ("tool_call_id", str "call_1") ∷ ("content", str "a.txt") ∷ [])

abbrev chat : Fields
chat = fields (
    ("model", str "gpt-5")
    ∷ ("max_tokens", num (pos_int 8))
    ∷ ("stop", str "x")
    ∷ ("messages", array (object (("content", str "hi") ∷ []) ∷ asking ∷ answering ∷ []))
    ∷ [])

abbrev seeded : Fields
seeded = fields (("seed", num (pos_int 7)) ∷ [])

chat-Honoured : Honoured chat
unfolding find
chat-Honoured = record {
  seed = inl refl;
  logprobs = inl refl;
  top_logprobs = inl refl;
  response_format = inl refl;
  one_choice = λ n e. cc;
}

chat_to_responses-ok_iff_example :
    (chat_to_responses (obj chat) ≡ ok (obj (build chat))) ↔ Honoured chat
chat_to_responses-ok_iff_example = chat_to_responses-ok_iff chat

translated : chat_to_responses (obj chat) ≡ ok (obj (build chat))
translated = (chat_to_responses-ok_iff chat).1 chat-Honoured

seeded_is_rejected : chat_to_responses (obj seeded) ≡ err (rejected "seed")
unfolding chat_to_responses translate_object rejected_param find
seeded_is_rejected = refl

chat_to_responses-Carries_example : Carries chat (build chat)
chat_to_responses-Carries_example = chat_to_responses-Carries chat (build chat) translated

chat_to_responses-ids_example :
    (call_ids (get_array (obj (build chat)) "input") ≡ asked (get_array (obj chat) "messages"))
    × (output_ids (get_array (obj (build chat)) "input")
        ≡ answered (get_array (obj chat) "messages"))
chat_to_responses-ids_example = chat_to_responses-ids chat (build chat) translated
