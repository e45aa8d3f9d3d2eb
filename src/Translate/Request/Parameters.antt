-- ===== src/Translate/Request/Parameters.antt =====
-- What `chat_to_responses` does with the parameters of a request.
use mur_model_gateway.Common.{
  ◌≡◌, refl, true, false, Option, none, some, String, or_else, if◌then◌else◌, arith, List, [], ◌∷◌,
  All,
}
use mur_model_gateway.Common.Text.{str_eq}
use mur_model_gateway.Json.{Value, bool, obj, array, Fields, end, find}
use mur_model_gateway.Json.Laws.{find-insert}
use mur_model_gateway.Translate.Request.{
  chat_to_responses, translate_object, build, insert_some, ok, messages, get_array,
}

find-insert_some :
    (k j : String) (o : Option Value) (fs : Fields)
    → find (insert_some k o fs) j ≡ (if str_eq k j then or_else o (find fs j) else find fs j)
unfolding insert_some
find-insert_some k j none fs = ground arith
find-insert_some k j (some v) fs = rw (find-insert k j v fs)

-- What is passed on under its own name, and what the translation adds.
pub record Carries (m r : Fields) : Type 0 where
  pub model : find r "model" ≡ find m "model"
  pub streamed : find r "stream" ≡ some (bool true)
  pub stateless : find r "store" ≡ some (bool false)
  pub limit :
      find r "max_output_tokens" ≡ or_else (find m "max_tokens") (find m "max_completion_tokens")
  pub temperature : find r "temperature" ≡ find m "temperature"
  pub top_p : find r "top_p" ≡ find m "top_p"
  pub tool_choice : find r "tool_choice" ≡ find m "tool_choice"

find-end : (k : String) → find end k ≡ none
unfolding find
find-end k = refl

ruleset lookups = (find-insert, find-insert_some)

or_else-none {ℓ} : {A : Type ℓ} (o : Option A) → or_else o none ≡ o
or_else-none none = refl
or_else-none (some a) = refl

pub build-Carries : (m : Fields) → Carries m (build m)
unfolding build str_eq find
build-Carries m = record {
  model = simp lookups (or_else-none _);
  streamed = simp lookups;
  stateless = simp lookups;
  limit = simp lookups (or_else-none _);
  temperature = simp lookups (or_else-none _);
  top_p = simp lookups (or_else-none _);
  tool_choice = simp lookups (or_else-none _);
}

pub build-input :
    (m : Fields) → find (build m) "input" ≡ some (array (messages (get_array (obj m) "messages")).1)
unfolding build str_eq find
build-input m = simp lookups

-- Of a translated request: the model is the client's own string, the call is streamed and stateless,
-- `max_tokens`, or else `max_completion_tokens`, is the output limit, and temperature, top_p and
-- tool_choice are what the client sent, absent where absent.
pub chat_to_responses-Carries :
    (m r : Fields) → chat_to_responses (obj m) ≡ ok (obj r) → Carries m r
unfolding chat_to_responses translate_object
chat_to_responses-Carries m r h =
    let same : build m ≡ r = ground arith in rw (← same) (build-Carries m)

abbrev pub output_names : List String
output_names =
    "model" ∷ "store" ∷ "stream" ∷ "instructions" ∷ "input" ∷ "max_output_tokens" ∷ "temperature"
    ∷ "top_p" ∷ "tool_choice" ∷ "tools" ∷ []

build_others :
    (m : Fields) (k : String) → All (λ n. str_eq n k ≡ false) output_names → find (build m) k ≡ none
unfolding build
build_others m k h = simp (
  lookups, find-end, h.0, h.1.0, h.1.1.0, h.1.1.1.0, h.1.1.1.1.0, h.1.1.1.1.1.0, h.1.1.1.1.1.1.0,
  h.1.1.1.1.1.1.1.0, h.1.1.1.1.1.1.1.1.0, h.1.1.1.1.1.1.1.1.1.0,
)

-- A translated request has no member beside those ten, so no parameter of the client's that the
-- Responses API does not know is passed on.
pub chat_to_responses_others :
    (m r : Fields) (k : String)
    → chat_to_responses (obj m) ≡ ok (obj r)
    → All (λ n. str_eq n k ≡ false) output_names
    → find r k ≡ none
unfolding chat_to_responses translate_object
chat_to_responses_others m r k h other =
    let same : build m ≡ r = ground arith in rw (← same) (build_others m k other)
