-- ===== src/Translate/Response/Reply.antt =====
-- What a client reads in a reply of `responses_to_chat`.
use mur_model_gateway.Common.{
  ◌≡◌, refl, ◌↔◌, ◌⊎◌, true, false, List, [], ◌∷◌, Option, none, some, String, arith, ◌>>=◌, ◌≢◌,
  map, filter, if◌then◌else◌, Bool-cases, inl, inr,
}
use mur_model_gateway.Common.Text.{str_eq}
use mur_model_gateway.Translate.Request.Tags.{equals_iff, says_disjoint}
use mur_model_gateway.Json.{Value, null, str, get, as_str, find}
use mur_model_gateway.Translate.Request.{get_array, get_cloned, says, equals}
use mur_model_gateway.Translate.Response.{
  responses_to_chat, output_item, output_items, truncated, finish_reason, reply_message, tool_call,
}

abbrev head_or : List Value → Value → Value
head_or [] d = d
head_or (v ∷ vs) d = v

-- The only choice of a reply.
choice : Value → Value
unfolding get_array
choice chat = head_or (get_array chat "choices") null

-- The assistant message and the reason why it ends.
pub message_of : Value → Value
unfolding choice get_cloned
message_of chat = get_cloned (choice chat) "message" null

pub reason_of : Value → Value
unfolding choice get_cloned
reason_of chat = get_cloned (choice chat) "finish_reason" null

-- The function calls among the output items of a Responses reply.
abbrev pub function_calls : List Value → List Value
function_calls = filter (λ i. says i "type" "function_call")

output_item-calls :
    (i : Value)
    → (output_item i).1 ≡ (if says i "type" "function_call" then tool_call i ∷ [] else [])
unfolding output_item str_eq
output_item-calls i = ground (arith, says_disjoint i "type" "message" "function_call" refl)

pub output_items-calls : (is : List Value) → (output_items is).1 ≡ map tool_call (function_calls is)
unfolding output_items
output_items-calls [] = refl
output_items-calls (i ∷ is) = ground (arith, output_item-calls i, output_items-calls is)

pub message_of_reply :
    (resp : Value) (model : String)
    → message_of (responses_to_chat resp model)
      ≡ (let (text, calls) = output_items (get_array resp "output") in reply_message text calls)
unfolding message_of responses_to_chat get find
message_of_reply resp model = refl

reason_of_reply :
    (resp : Value) (model : String)
    → reason_of (responses_to_chat resp model)
      ≡ str (finish_reason (truncated resp) (output_items (get_array resp "output")).1)
unfolding reason_of responses_to_chat get find
reason_of_reply resp model = refl

-- The upstream cut the reply off at its limit on output tokens.
pub Truncated : Value → Type 0
Truncated resp =
    (d : Value) × (get resp "incomplete_details" ≡ some d)
    × (get d "reason" ≡ some (str "max_output_tokens"))

reason_iff :
    (o : Option Value) (t : String)
    → (equals (o >>= λ d. get d "reason" >>= as_str) t ≡ true)
      ↔ ((d : Value) × (o ≡ some d) × (get d "reason" ≡ some (str t)))
reason_iff none t = ((λ h. cc), λ h. cc)
reason_iff (some d) t = ((λ h. (d, refl, (equals_iff (get d "reason") t).0 h)), back)
  where
    back :
        ((d' : Value) × (some d ≡ some d') × (get d' "reason" ≡ some (str t)))
        → equals (get d "reason" >>= as_str) t ≡ true
    back (d', same, r) = let e : d' ≡ d = cc in (equals_iff (get d "reason") t).1 (rw e at r)

truncated_iff : (resp : Value) → (truncated resp ≡ true) ↔ Truncated resp
unfolding truncated Truncated
truncated_iff resp = reason_iff (get resp "incomplete_details") "max_output_tokens"

-- Why a reply ends, told from the upstream's object and its function calls.
abbrev pub Ends : Value → List Value → Value → Type 0
Ends resp calls reason =
    (Truncated resp × (reason ≡ str "length"))
    ⊎ ((¬ Truncated resp) × (calls ≢ []) × (reason ≡ str "tool_calls"))
    ⊎ ((¬ Truncated resp) × (calls ≡ []) × (reason ≡ str "stop"))

finish_reason-Ends :
    (resp : Value) (calls : List Value)
    → Ends resp calls (str (finish_reason (truncated resp) (map tool_call calls)))
unfolding finish_reason
finish_reason-Ends resp calls = elim (Bool-cases (truncated resp)) [
  | inl cut ↦ rw cut (inl ((truncated_iff resp).0 cut, refl))
  | inr whole ↦
      let open' : ¬ Truncated resp = λ t. ground (arith, (truncated_iff resp).1 t) in
      rw whole (by_calls calls open')
]
  where
    by_calls :
        (calls : List Value)
        → ¬ Truncated resp
        → Ends resp calls (str (finish_reason false (map tool_call calls)))
    by_calls [] open' = inr (inr (open', refl, refl))
    by_calls (c ∷ cs) open' = inr (inl (open', (λ e. cc), refl))

-- The finish reason of a translated reply: `length` where the upstream hit its output limit, also if
-- there are calls; else `tool_calls` where the output holds a function call, and else `stop`.
pub responses_to_chat-Ends :
    (resp : Value) (model : String)
    → Ends resp
        (function_calls (get_array resp "output"))
        (reason_of (responses_to_chat resp model))
responses_to_chat-Ends resp model =
    rw (reason_of_reply resp model, output_items-calls (get_array resp "output"))
      (finish_reason-Ends resp (function_calls (get_array resp "output")))
