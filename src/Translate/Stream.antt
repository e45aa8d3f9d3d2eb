-- ===== src/Translate/Stream.antt =====
-- src/translate.rs, `SseTranslator`: the events of a Responses stream become Chat Completions chunks.
-- `next_index` is a u64 and wraps; the log line of a dropped delta is left out.
pub mod Observe
pub mod Ending
pub mod Deltas
pub mod Indices
pub mod Pieces
mod Tests
use mur_model_gateway.Common.{
  ℕ, zero, suc, ◌+◌, ◌%◌, ◌^◌, Bool, true, false, ◌||◌, List, [], ◌∷◌, ◌++◌, Option, none, some,
  String, if◌then◌else◌, get_or, or_else, ◌>>=◌,
}
use mur_model_gateway.Common.Text.{str_eq}
use mur_model_gateway.Json.{Value, null, num, str, pos_int, end, array, object, obj, get, as_str}
use mur_model_gateway.Translate.Request.{says, get_cloned}

-- A `HashMap<String, u64>`.
pub index_of : String → List (String × ℕ) → Option ℕ
unfolding str_eq
index_of id [] = none
index_of id ((j, n) ∷ m) = if str_eq j id then some n else index_of id m

set_index : String → ℕ → List (String × ℕ) → List (String × ℕ)
unfolding str_eq
set_index id n [] = (id, n) ∷ []
set_index id n ((j, k) ∷ m) = if str_eq j id then (id, n) ∷ m else (j, k) ∷ set_index id n m

pub record SseTranslator : Type 0 where
  pub model : String
  pub role_sent : Bool
  pub next_index : ℕ
  pub item_index : List (String × ℕ)
  pub saw_tool_call : Bool
  pub finished : Bool

-- `SseTranslator::new`
pub new : String → SseTranslator
new model = record {
  model = model;
  role_sent = false;
  next_index = 0;
  item_index = [];
  saw_tool_call = false;
  finished = false;
}

pub chunk : SseTranslator → Value → Value → Value
chunk s delta finish_reason = object (
    ("id", str "chatcmpl-codex")
    ∷ ("object", str "chat.completion.chunk")
    ∷ ("created", num (pos_int 0))
    ∷ ("model", str s.model)
    ∷ (
      "choices",
      array (
          object
            (("index", num (pos_int 0)) ∷ ("delta", delta) ∷ ("finish_reason", finish_reason) ∷ [])
          ∷ []),
    )
    ∷ [])

pub reason : Bool → String
reason saw = if saw then "tool_calls" else "stop"

-- `SseTranslator::finish`
pub finish : SseTranslator → SseTranslator × List Value
unfolding chunk reason
finish s =
    if s.finished
    then (s, [])
    else (record s { finished = true }, chunk s (obj end) (str (reason s.saw_tool_call)) ∷ [])

-- The arms of the match in `push`.
text_delta : SseTranslator → Option String → SseTranslator × List Value
unfolding chunk
text_delta s none = (s, [])
text_delta s (some d) = (s, chunk s (object (("content", str d) ∷ [])) null ∷ [])

abbrev with_index : Option String → ℕ → SseTranslator → SseTranslator
with_index none n s = s
with_index (some id) n s = record s { item_index = set_index id n s.item_index }

call_opening : SseTranslator → ℕ → Value → Value
unfolding chunk get_cloned
call_opening s index item =
    chunk s
      (object (
        (
          "tool_calls",
          array (
              object (
                ("index", num (pos_int index))
                ∷ ("id", get_cloned item "call_id" null)
                ∷ ("type", str "function")
                ∷ (
                  "function",
                  object (("name", get_cloned item "name" null) ∷ ("arguments", str "") ∷ []),
                )
                ∷ [])
              ∷ []),
        )
        ∷ []))
      null

item_added : SseTranslator → Value → SseTranslator × List Value
unfolding says set_index call_opening get
item_added s item =
    if says item "type" "function_call"
    then (
      with_index (get item "id" >>= as_str) s.next_index
          (record s { saw_tool_call = true; next_index = (s.next_index + 1) % 2 ^ 64 }),
      call_opening s s.next_index item ∷ [],
    )
    else (s, [])

call_delta : SseTranslator → ℕ → String → Value
unfolding chunk
call_delta s index d =
    chunk s
      (object (
        (
          "tool_calls",
          array (
              object (
                ("index", num (pos_int index))
                ∷ ("function", object (("arguments", str d) ∷ []))
                ∷ [])
              ∷ []),
        )
        ∷ []))
      null

arguments_delta : SseTranslator → Option ℕ → Option String → SseTranslator × List Value
unfolding call_delta
arguments_delta s (some index) (some d) = (s, call_delta s index d ∷ [])
arguments_delta s (some index) none = (s, [])
arguments_delta s none d = (s, [])

-- `data.pointer("/response/error/message")`
abbrev error_message : Value → Option Value
error_message d = get d "response" >>= λ r. get r "error" >>= λ e. get e "message"

failed : SseTranslator → Value → SseTranslator × List Value
unfolding get
failed s d = (
  record s { finished = true },
  object (
        (
          "error",
          object (
              (
                "message",
                str (
                    get_or (or_else (error_message d) (get d "message") >>= as_str)
                      "codex stream failed"),
              )
              ∷ ("type", str "upstream_error")
              ∷ []),
        )
        ∷ [])
      ∷ [],
)

-- The patterns of the match, in its order.
pub data EventKind : Type 0 where
  text_event added_event arguments_event completed_event failed_event other_event : EventKind

pub event_kind : String → EventKind
unfolding str_eq
event_kind event =
    if str_eq event "response.output_text.delta"
    then text_event
    else if str_eq event "response.output_item.added"
    then added_event
    else if str_eq event "response.function_call_arguments.delta"
    then arguments_event
    else if str_eq event "response.completed"
    then completed_event
    else if str_eq event "response.failed" || str_eq event "error"
    then failed_event
    else other_event

pub handle : SseTranslator → EventKind → Value → SseTranslator × List Value
unfolding text_delta item_added arguments_delta failed finish index_of get
handle s text_event d = text_delta s (get d "delta" >>= as_str)
handle s added_event d = item_added s (get_or (get d "item") null)
handle s arguments_event d =
    arguments_delta s (get d "item_id" >>= as_str >>= λ id. index_of id s.item_index)
      (get d "delta" >>= as_str)
handle s completed_event d = finish s
handle s failed_event d = failed s d
handle s other_event d = (s, [])

-- The opening role chunk.
pub open_role : SseTranslator → SseTranslator × List Value
unfolding chunk
open_role s = if s.role_sent then (s, []) else (
  record s { role_sent = true },
  chunk (record s { role_sent = true }) (object (("role", str "assistant") ∷ [])) null ∷ [],
)

pub push : SseTranslator → String → Value → SseTranslator × List Value
push s event d =
    let (s', role) = open_role s in
    let (s'', out) = handle s' (event_kind event) d in (s'', role ++ out)

-- A whole stream: every event is pushed, and the end of the body calls `finish`.
unfoldable pub push_all : SseTranslator → List (String × Value) → SseTranslator × List Value
push_all s [] = (s, [])
push_all s ((event, d) ∷ events) =
    let (s', out) = push s event d in let (s'', more) = push_all s' events in (s'', out ++ more)

unfoldable pub translate : String → List (String × Value) → List Value
unfolding push_all new finish
translate model events = let (s, out) = push_all (new model) events in out ++ (finish s).1
