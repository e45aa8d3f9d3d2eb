-- ===== src/Forward/Streaming.antt =====
-- src/lib.rs, `forward`, its two answers on the translated route: the event stream that is translated
-- chunk by chunk, and the whole body that becomes one reply. The decoder `from_utf8_lossy`, which each
-- chunk goes through on its own, and serde_json's parser and printer are arguments.
pub mod Whole
mod Tests
use mur_model_gateway.Common.{
  ℕ, Bool, true, false, ◌&&◌, List, [], ◌∷◌, ◌++◌, Option, none, some, String, if◌then◌else◌,
  is_empty, leb,
}
use mur_model_gateway.Common.Text.{push_str}
use mur_model_gateway.Json.{Value, object, str}
use mur_model_gateway.Translate.Frames.{split_sse_frames}
use mur_model_gateway.Translate.Stream.{SseTranslator, new, push_all, finish}
use mur_model_gateway.Translate.Response.{
  new as new_aggregator, push_all as aggregate, finish as aggregated, responses_to_chat,
}

-- What a pull on the upstream's body gives before its end.
pub data Pull : Type 0 where
  chunk : List ℕ → Pull
  fault : Pull

-- `openai_error_response`, its body
unfoldable pub openai_error : String → Value
openai_error message =
    object (
      ("error", object (("message", str message) ∷ ("type", str "invalid_request_error") ∷ []))
      ∷ [])

abbrev pub is_success : ℕ → Bool
is_success status = leb 200 status && leb status 299

module _ (to_string : Value → String) where
  -- one translated chunk as an event
  abbrev pub render : Value → String
  render c = push_str "data: " (push_str (to_string c) "\n\n")

  abbrev pub rendered : List Value → String
  rendered [] = ""
  rendered (c ∷ cs) = push_str (render c) (rendered cs)

  -- the last item of the stream
  unfoldable pub last_item : SseTranslator → String
  last_item t = push_str (rendered (finish t).1) "data: [DONE]\n\n"

module _ (lossy : List ℕ → String) (from_str : String → Option Value)
    (to_string : Value → String) where
  -- The items that the stream yields, from the buffer and the translator on: an item for each pull that
  -- completes some event, and a last one at the end of the body or at a fault.
  unfoldable pub body_items : String → SseTranslator → List Pull → List String
  body_items buf t [] = last_item to_string t ∷ []
  body_items buf t (fault ∷ pulls) = last_item to_string t ∷ []
  body_items buf t (chunk bytes ∷ pulls) =
      let (frames, left) = split_sse_frames from_str (push_str buf (lossy bytes)) in
      let (t', out) = push_all t frames in
      let rest = body_items left t' pulls in
      if is_empty out then rest else rendered to_string out ∷ rest

  -- the stream of one reply
  unfoldable pub streamed : String → List Pull → List String
  streamed model pulls = body_items "" (new model) pulls

-- the reply to a client that wants no stream, from the upstream's status and body
unfoldable pub whole_reply : (String → Option Value) → ℕ → String → String → Value
whole_reply from_str status raw model =
    if is_success status
    then responses_to_chat (aggregated (aggregate new_aggregator (split_sse_frames from_str raw).0))
        model
    else openai_error raw
