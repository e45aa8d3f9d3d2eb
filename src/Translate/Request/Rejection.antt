-- ===== src/Translate/Request/Rejection.antt =====
-- Which requests `chat_to_responses` refuses.
use mur_model_gateway.Common.{
  ℕ, ◌≤◌, ◌≡◌, refl, ◌↔◌, ◌⊎◌, inl, inr, ◌≢◌, List, [], ◌∷◌, none, some, String, All, arith, Option,
  Option-cases, true, false, Bool-cases, ◌>>=◌,
}
use mur_model_gateway.Json.{
  Value, null, bool, num, str, arr, obj, pos_int, neg_int, float, Fields, find, as_u64,
}
use mur_model_gateway.Translate.Request.{
  chat_to_responses, translate_object, rejected_param, semantic, given, exceeds_one, build, ok, err,
  rejected,
}

-- The request does not set the parameter, or sets it to null.
abbrev pub Unset : Fields → String → Type 0
Unset m k = (find m k ≡ none) ⊎ (find m k ≡ some null)

-- The request asks for nothing that the Responses API cannot honour.
pub record Honoured (m : Fields) : Type 0 where
  pub seed : Unset m "seed"
  pub logprobs : Unset m "logprobs"
  pub top_logprobs : Unset m "top_logprobs"
  pub response_format : Unset m "response_format"
  pub one_choice : (n : ℕ) → find m "n" ≡ some (num (pos_int n)) → n ≤ 1

given_iff : (o : Option Value) → (given o ≡ false) ↔ ((o ≡ none) ⊎ (o ≡ some null))
given_iff none = ground arith
given_iff (some null) = ground arith
given_iff (some (bool b)) = ground arith
given_iff (some (num n)) = ground arith
given_iff (some (str s)) = ground arith
given_iff (some (arr vs)) = ground arith
given_iff (some (obj m)) = ground arith

abbrev AllUnset : List String → Fields → Type 0
AllUnset ks m = All (λ k. Unset m k) ks

rejected_param-none_iff :
    (ks : List String) (m : Fields) → (rejected_param ks m ≡ none) ↔ AllUnset ks m
unfolding rejected_param
rejected_param-none_iff [] m = ((λ _. tt), λ _. refl)
rejected_param-none_iff (k ∷ ks) m =
    ground (arith, given_iff (find m k), rejected_param-none_iff ks m)

exceeds_one_iff :
    (o : Option Value)
    → (exceeds_one (o >>= as_u64) ≡ false) ↔ ((n : ℕ) → o ≡ some (num (pos_int n)) → n ≤ 1)
exceeds_one_iff none = ((λ _ n e. cc), λ _. refl)
exceeds_one_iff (some (num (pos_int k))) = ((λ h n e. ground arith), λ h. ground (arith, h k refl))
exceeds_one_iff (some (num (neg_int k))) = ((λ _ n e. cc), λ _. refl)
exceeds_one_iff (some (num (float k))) = ((λ _ n e. cc), λ _. refl)
exceeds_one_iff (some v) = ((λ _ n e. cc), λ _. refl)

translate_object-ok_iff : (m : Fields) → (translate_object m ≡ ok (obj (build m))) ↔ Honoured m
unfolding translate_object
translate_object-ok_iff m = (to, from)
  where
    to : translate_object m ≡ ok (obj (build m)) → Honoured m
    to h =
        let parts = (rejected_param-none_iff semantic m).0 (ground arith) in
        record {
          seed = parts.0;
          logprobs = parts.1.0;
          top_logprobs = parts.1.1.0;
          response_format = parts.1.1.1.0;
          one_choice = (exceeds_one_iff (find m "n")).0 (ground arith);
        }

    from : Honoured m → translate_object m ≡ ok (obj (build m))
    from h =
        let none_given =
          (rejected_param-none_iff semantic m).1
            (h.seed, (h.logprobs, (h.top_logprobs, (h.response_format, tt)))) in
        let one = (exceeds_one_iff (find m "n")).1 h.one_choice in ground (arith, none_given, one)

-- A JSON object is translated, into `build` of it, exactly when it sets none of `seed`, `logprobs`,
-- `top_logprobs` and `response_format` to anything but null and asks for at most one choice.
pub chat_to_responses-ok_iff :
    (m : Fields) → (chat_to_responses (obj m) ≡ ok (obj (build m))) ↔ Honoured m
unfolding chat_to_responses
chat_to_responses-ok_iff m = translate_object-ok_iff m

-- The parameter is set to something else than null.
abbrev pub Sets : Fields → String → Type 0
Sets m k = (v : Value) × (find m k ≡ some v) × (v ≢ null)

given_sound : (o : Option Value) → given o ≡ true → (v : Value) × (o ≡ some v) × (v ≢ null)
given_sound none h = cc
given_sound (some null) h = cc
given_sound (some (bool b)) h = (bool b, refl, λ e. cc)
given_sound (some (num n)) h = (num n, refl, λ e. cc)
given_sound (some (str s)) h = (str s, refl, λ e. cc)
given_sound (some (arr vs)) h = (arr vs, refl, λ e. cc)
given_sound (some (obj m)) h = (obj m, refl, λ e. cc)

rejected_param-Sets :
    (ks : List String) (m : Fields) (p : String) → rejected_param ks m ≡ some p → Sets m p
unfolding rejected_param
rejected_param-Sets [] m p h = cc
rejected_param-Sets (k ∷ ks) m p h = elim (Bool-cases (given (find m k))) [
  | inl yes' ↦ let same : k ≡ p = ground arith in rw (← same) (given_sound (find m k) yes')
  | inr no' ↦ rejected_param-Sets ks m p (ground arith)
]

exceeds_one_sound :
    (o : Option Value) → exceeds_one (o >>= as_u64) ≡ true → (v : Value) × (o ≡ some v) × (v ≢ null)
exceeds_one_sound none h = cc
exceeds_one_sound (some (num n)) h = (num n, refl, λ e. cc)
exceeds_one_sound (some v) h = cc

-- A refusal of an object names a parameter that the request sets to something other than null.
pub chat_to_responses-rejected :
    (m : Fields) (p : String) → chat_to_responses (obj m) ≡ err (rejected p) → Sets m p
unfolding chat_to_responses translate_object
chat_to_responses-rejected m p h = elim (Option-cases (rejected_param semantic m)) [
  | inl clear ↦
      let many : exceeds_one (find m "n" >>= as_u64) ≡ true = ground arith in
      let same : "n" ≡ p = ground arith in rw (← same) (exceeds_one_sound (find m "n") many)
  | inr (q, found) ↦
      let same : q ≡ p = ground arith in rw (← same) (rejected_param-Sets semantic m q found)
]
