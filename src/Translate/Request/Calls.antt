-- ===== src/Translate/Request/Calls.antt =====
-- The tool calls of a conversation and their results keep their ids and their order.
use mathlib.Core.List.{map-append}
use mur_model_gateway.Common.{
  ◌≡◌, refl, ◌∙◌, ap₂, ap, inl, inr, Bool, List, [], ◌∷◌, ◌++◌, map, Option, none, some, String,
  arith, filter, Bool-cases, get_or, ◌>>=◌, if◌then◌else◌,
}
use mur_model_gateway.Common.Text.{str_eq}
use mur_model_gateway.Common.Text.Prefix.{str_eq_iff}
use mur_model_gateway.Json.{Value, null, obj, Fields, find, get, as_str}
use mur_model_gateway.Json.Laws.{elems-items}
use mur_model_gateway.Translate.Request.Parameters.{build-input}
use mur_model_gateway.Translate.Request.{
  chat_to_responses, translate_object, build, ok, message, messages, turn, content_items, says,
  equals, get_cloned, get_array, call_item, assistant_items, tool_item, user_item, output_text_item,
}

-- The ids of the calls, and of the results, among Responses input items.
abbrev pub call_ids : List Value → List Value
call_ids items =
    map (λ i. get_cloned i "call_id" null) (filter (λ i. says i "type" "function_call") items)

abbrev pub output_ids : List Value → List Value
output_ids items =
    map (λ i. get_cloned i "call_id" null)
      (filter (λ i. says i "type" "function_call_output") items)

-- The ids of the calls that the assistant messages of a conversation ask for.
abbrev pub asked : List Value → List Value
asked [] = []
asked (m ∷ ms) =
    (if says m "role" "assistant"
      then map (λ c. get_cloned c "id" null) (get_array m "tool_calls")
      else [])
    ++ asked ms

-- The ids that its tool messages answer.
abbrev pub answered : List Value → List Value
answered [] = []
answered (m ∷ ms) =
    (if says m "role" "tool" then get_cloned m "tool_call_id" null ∷ [] else []) ++ answered ms

filter-append {ℓ} :
    {A : Type ℓ} (p : A → Bool) (xs ys : List A) → filter p (xs ++ ys) ≡ filter p xs ++ filter p ys
filter-append p [] ys = refl
filter-append p (x ∷ xs) ys = ground (arith, filter-append p xs ys)

call_items-ids :
    (calls : List Value)
    → (call_ids (map call_item calls) ≡ map (λ c. get_cloned c "id" null) calls)
      × (output_ids (map call_item calls) ≡ [])
unfolding call_item says get_cloned get find str_eq
call_items-ids [] = (refl, refl)
call_items-ids (c ∷ cs) = let (a, b) = call_items-ids cs in (ap (◌∷◌ (get_cloned c "id" null)) a, b)

tool_item-ids :
    (msg : Value) (text : String)
    → (call_ids (tool_item msg text ∷ []) ≡ [])
      × (output_ids (tool_item msg text ∷ []) ≡ get_cloned msg "tool_call_id" null ∷ [])
unfolding tool_item says get_cloned get find str_eq
tool_item-ids msg text = (refl, refl)

user_item-ids :
    (text : String) (items : List Value)
    → (call_ids (user_item text items ∷ []) ≡ []) × (output_ids (user_item text items ∷ []) ≡ [])
unfolding user_item says get_cloned get find str_eq
user_item-ids text items = (refl, refl)

assistant_items-ids :
    (msg : Value) (text : String)
    → (call_ids (assistant_items msg text)
        ≡ map (λ c. get_cloned c "id" null) (get_array msg "tool_calls"))
      × (output_ids (assistant_items msg text) ≡ [])
unfolding assistant_items output_text_item says get_cloned get find str_eq
assistant_items-ids msg text = ground (arith, call_items-ids (get_array msg "tool_calls"))

abbrev Ids : List Value → List Value → List String × List Value → Type 0
Ids calls outputs added = (call_ids added.1 ≡ calls) × (output_ids added.1 ≡ outputs)

turn-Ids :
    (role : String) (msg : Value) (text : String) (items : List Value)
    → Ids
        (if str_eq role "assistant"
          then map (λ c. get_cloned c "id" null) (get_array msg "tool_calls")
          else [])
        (if str_eq role "tool" then get_cloned msg "tool_call_id" null ∷ [] else [])
        (turn role msg text items)
unfolding turn
turn-Ids role msg text items = elim (Bool-cases (str_eq role "system")) [
  | inl e ↦ rw ((str_eq_iff role "system").0 e) (refl, refl)
  | inr not_system ↦ elim (Bool-cases (str_eq role "developer")) [
    | inl e ↦ rw ((str_eq_iff role "developer").0 e) (refl, refl)
    | inr not_developer ↦ elim (Bool-cases (str_eq role "tool")) [
      | inl e ↦ rw ((str_eq_iff role "tool").0 e) (tool_item-ids msg text)
      | inr not_tool ↦ elim (Bool-cases (str_eq role "assistant")) [
        | inl e ↦ rw ((str_eq_iff role "assistant").0 e) (assistant_items-ids msg text)
        | inr other ↦ rw (not_system, not_developer, not_tool, other) (user_item-ids text items)
      ]
    ]
  ]
]

-- The same at the role that a message states, which is the user's where it states none.
role-Ids :
    (role : Option String) (msg : Value) (text : String) (items : List Value)
    → Ids
        (if equals role "assistant"
          then map (λ c. get_cloned c "id" null) (get_array msg "tool_calls")
          else [])
        (if equals role "tool" then get_cloned msg "tool_call_id" null ∷ [] else [])
        (turn (get_or role "user") msg text items)
unfolding str_eq
role-Ids none msg text items = turn-Ids "user" msg text items
role-Ids (some role) msg text items = turn-Ids role msg text items

message-Ids :
    (m : Value)
    → Ids
        (if says m "role" "assistant"
          then map (λ c. get_cloned c "id" null) (get_array m "tool_calls")
          else [])
        (if says m "role" "tool" then get_cloned m "tool_call_id" null ∷ [] else [])
        (message m)
unfolding message says
message-Ids m =
    let (text, items) = content_items (get m "content") in
    role-Ids (get m "role" >>= as_str) m text items

ids-append {ℓ} :
    {B : Type ℓ} (p : Value → Bool) (f : Value → B) (xs ys : List Value)
    → map f (filter p (xs ++ ys)) ≡ map f (filter p xs) ++ map f (filter p ys)
ids-append p f xs ys = rw (filter-append p xs ys) (map-append f (filter p xs) (filter p ys))

messages-Ids : (ms : List Value) → Ids (asked ms) (answered ms) (messages ms)
unfolding messages
messages-Ids [] = (refl, refl)
messages-Ids (m ∷ ms) =
    let (a, b) = message-Ids m in
    let (c, d) = messages-Ids ms in
    (
      ids-append (λ i. says i "type" "function_call") (λ i. get_cloned i "call_id" null)
            (message m).1 (messages ms).1
          ∙ ap₂ ◌++◌ a c,
      ids-append (λ i. says i "type" "function_call_output") (λ i. get_cloned i "call_id" null)
            (message m).1 (messages ms).1
          ∙ ap₂ ◌++◌ b d,
    )

input_of_build :
    (m : Fields) → get_array (obj (build m)) "input" ≡ (messages (get_array (obj m) "messages")).1
unfolding get_array get
input_of_build m = rw (build-input m) (elems-items _)

-- A translated request asks for the same tool calls as the assistant messages of the conversation, and
-- reports the same results as its tool messages: the ids are the same, in the same order.
pub chat_to_responses-ids :
    (m r : Fields)
    → chat_to_responses (obj m) ≡ ok (obj r)
    → (call_ids (get_array (obj r) "input") ≡ asked (get_array (obj m) "messages"))
      × (output_ids (get_array (obj r) "input") ≡ answered (get_array (obj m) "messages"))
unfolding chat_to_responses translate_object
chat_to_responses-ids m r h =
    let same : build m ≡ r = ground arith in
    rw (← same, input_of_build m) (messages-Ids (get_array (obj m) "messages"))
