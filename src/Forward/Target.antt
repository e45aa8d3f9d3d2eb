-- ===== src/Forward/Target.antt =====
-- Where `forward` sends a request of the Codex route.
use mur_model_gateway.Common.{
  ◌≡◌, refl, true, false, Option, String, if◌then◌else◌, Bool-cases, or-cases, inl, inr, arith,
}
use mur_model_gateway.Common.Text.{str_eq, push_str, starts_with}
use mur_model_gateway.Common.Text.Prefix.{str_eq_iff, starts_with-split}
use mur_model_gateway.Credentials.{CodexCredential}
use mur_model_gateway.Route.{
  codex, anthropic, should_route, should_translate, is_under, should_disguise, detect_provider,
}
use mur_model_gateway.Route.Bases.{
  codex_target_path-responses, Forms, is_under-Forms, detect_provider-owner, messages,
}
use mur_model_gateway.Forward.{AppState, target, is_api_key, upstream_for}

own_prefix : starts_with "/v1/responses" "/v1/responses" ≡ true
unfolding starts_with
own_prefix = refl

untranslated :
    (path : String)
    → should_route path ≡ true
    → should_translate path ≡ false
    → is_under "/v1/responses" path ≡ true
unfolding should_route
untranslated path h t = ground arith

abbrev Below : String → Type 0
Below p = starts_with p "/v1/responses" ≡ true

responses-Below : Forms Below "/v1/responses"
unfolding push_str starts_with
responses-Below = (refl, (λ r. refl), λ r. refl)

-- What the path that goes upstream begins with.
abbrev pub prefix : Option CodexCredential → String
prefix cred = if is_api_key cred then "/v1/responses" else "/responses"

-- On the Codex route, a request with an API key goes to the API-key upstream under `/v1/responses`, and
-- any other to the Codex upstream under `/responses`.
pub target-responses :
    (s : AppState) (cred : Option CodexCredential) (path : String)
    → should_route path ≡ true
    → ((target s codex cred (should_translate path) path).1
        ≡ (if is_api_key cred then s.upstream_codex_apikey else s.upstream_codex))
      × (starts_with (target s codex cred (should_translate path) path).0 (prefix cred) ≡ true)
unfolding target upstream_for
target-responses s cred path h = elim (Bool-cases (is_api_key cred)) [
  | inr k ↦ rw k (refl, codex_target_path-responses path h)
  | inl k ↦ elim (Bool-cases (should_translate path)) [
    | inl t ↦ rw (k, t) (refl, own_prefix)
    | inr t ↦
        rw (k, t)
          (refl, is_under-Forms Below "/v1/responses" path responses-Below (untranslated path h t))
  ]
]

abbrev IsMessages : String → Type 0
IsMessages p = is_under "/v1/messages" p ≡ true

of_prefix :
    (path start : String)
    → ((r : String) → IsMessages (push_str start r))
    → starts_with path start ≡ true
    → IsMessages path
of_prefix path start f h = let (r, split) = starts_with-split path start h in rw split (f r)

of_same : (path whole : String) → IsMessages whole → str_eq path whole ≡ true → IsMessages path
of_same path whole f h = rw ((str_eq_iff path whole).0 h) f

should_disguise-IsMessages : (path : String) → should_disguise path ≡ true → IsMessages path
unfolding should_disguise is_under push_str str_eq starts_with
should_disguise-IsMessages path h = elim (or-cases _ _ h) [
  | inr a ↦ of_prefix path "/v1/messages/count_tokens?" (λ r. refl) a
  | inl k ↦ elim (or-cases _ _ k) [
    | inr a ↦ of_prefix path "/v1/messages?" (λ r. refl) a
    | inl l ↦ elim (or-cases _ _ l) [
      | inr a ↦ of_same path "/v1/messages/count_tokens" refl a
      | inl a ↦ of_same path "/v1/messages" refl a
    ]
  ]
]

-- Every path on which the gateway attaches a token is one that goes to Anthropic.
pub should_disguise-anthropic :
    (path : String) → should_disguise path ≡ true → detect_provider path ≡ anthropic
should_disguise-anthropic path h =
    detect_provider-owner messages path (should_disguise-IsMessages path h)
