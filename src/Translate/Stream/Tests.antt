-- ===== src/Translate/Stream/Tests.antt =====
-- A stream with text and a call, cut inside a frame.
use mur_model_gateway.Common.{◌≡◌, refl, List, [], ◌∷◌, Option, some, String, arith, false}
use mur_model_gateway.Json.{Value, str, object, get, find}
use mur_model_gateway.Translate.Frames.{split_sse_frames}
use mur_model_gateway.Translate.Frames.Chunks.{read_chunks, concat, read_chunks-concat}
use mur_model_gateway.Translate.Stream.{translate, event_kind, push, open_role, handle}
use mur_model_gateway.Common.Text.{str_eq}
use mur_model_gateway.Translate.Request.{says, get_array}
use mur_model_gateway.Translate.Stream.Observe.{gather, ending, content, opening, piece}
use mur_model_gateway.Translate.Stream.Ending.{endings, translate-endings}
use mur_model_gateway.Translate.Stream.Indices.{numbered, added_calls, translate-opening}
use mur_model_gateway.Translate.Stream.Pieces.{pieces, translate-piece}

-- A parser that takes every text for a JSON text.
abbrev echo : String → Option Value
echo s = some (str s)

abbrev chunks : List String
chunks = "event: a\r\ndata: x\n" ∷ "\nda" ∷ "ta: y\n\nrest" ∷ []

read_chunks-concat_example : read_chunks echo "" chunks ≡ split_sse_frames echo (concat chunks)
read_chunks-concat_example = read_chunks-concat echo chunks

abbrev added : Value
added = object (
    (
      "item",
      object (("type", str "function_call") ∷ ("id", str "fc_1") ∷ ("call_id", str "call_1") ∷ []),
    )
    ∷ [])

abbrev events : List (String × Value)
events =
    ("response.output_text.delta", object (("delta", str "hi") ∷ []))
    ∷ ("response.output_item.added", added)
    ∷ (
      "response.function_call_arguments.delta",
      object (("item_id", str "fc_1") ∷ ("delta", str "{}") ∷ []),
    )
    ∷ ("response.completed", object [])
    ∷ ("error", object [])
    ∷ []

translate-endings_example : gather ending (translate "m" events) ≡ endings false events
translate-endings_example = translate-endings "m" events

translate-opening_example : gather opening (translate "m" events) ≡ numbered 0 (added_calls events)
unfolding added_calls event_kind str_eq says get find
translate-opening_example = translate-opening "m" events (omega arith)

told :
    (gather content (translate "m" events) ≡ "hi" ∷ [])
    × (gather ending (translate "m" events) ≡ "tool_calls" ∷ [])
    × (gather piece (translate "m" events) ≡ (0, "") ∷ (0, "{}") ∷ [])
unfolding translate push open_role handle event_kind content ending piece get_array get
told = (refl, refl, refl)

translate-piece_example : gather piece (translate "m" events) ≡ pieces 0 [] events
translate-piece_example = translate-piece "m" events
