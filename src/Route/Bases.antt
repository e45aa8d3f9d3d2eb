-- ===== src/Route/Bases.antt =====
-- The endpoints of the routing table: each goes to its provider, whatever stands below it.
use mur_model_gateway.Common.{◌≡◌, refl, ◌↔◌, inl, inr, true, ◌||◌, String, arith, or-cases}
use mur_model_gateway.Common.Text.{str_eq, push_str, starts_with}
use mur_model_gateway.Common.Text.Prefix.{str_eq_iff, starts_with-split, push_str_assoc}
use mur_model_gateway.Route.{
  Provider, anthropic, open_ai, gemini, codex, is_under, should_translate, should_route,
  detect_provider, codex_target_path,
}

-- The endpoints that the table of README.md names, with their providers.
pub data Endpoint : Type 0 where
  messages chat_completions embeddings images files threads assistants : Endpoint
  models responses codex_chat : Endpoint

abbrev pub base : Endpoint → String
base messages = "/v1/messages"
base chat_completions = "/v1/chat/completions"
base embeddings = "/v1/embeddings"
base images = "/v1/images"
base files = "/v1/files"
base threads = "/v1/threads"
base assistants = "/v1/assistants"
base models = "/v1beta/models"
base responses = "/v1/responses"
base codex_chat = "/codex/v1/chat/completions"

abbrev pub owner : Endpoint → Provider
owner messages = anthropic
owner models = gemini
owner responses = codex
owner codex_chat = codex
owner _ = open_ai

-- The three forms of a path under a base.
abbrev pub Forms {ℓ} : (String → Type ℓ) → String → Type ℓ
Forms P b =
    P b
    × ((r : String) → P (push_str b (push_str "/" r)))
    × ((r : String) → P (push_str b (push_str "?" r)))

pub is_under-Forms {ℓ} :
    (P : String → Type ℓ) (b p : String) → Forms P b → is_under b p ≡ true → P p
unfolding is_under
is_under-Forms P b p (whole, below, query) h =
    elim (or-cases (str_eq p b || starts_with p (push_str b "/")) (starts_with p (push_str b "?"))
      h) [
        | inl e ↦ elim (or-cases (str_eq p b) (starts_with p (push_str b "/")) e) [
          | inl same ↦ rw ((str_eq_iff p b).0 same) whole
          | inr s ↦
              let (r, split) = starts_with-split p (push_str b "/") s in
              rw (split, push_str_assoc) (below r)
        ]
        | inr s ↦
            let (r, split) = starts_with-split p (push_str b "?") s in
            rw (split, push_str_assoc) (query r)
      ]

abbrev Goes : Provider → String → Type 0
Goes pr p = detect_provider p ≡ pr

endpoint-Goes : (e : Endpoint) → Forms (Goes (owner e)) (base e)
unfolding detect_provider push_str is_under should_route should_translate
endpoint-Goes messages = (refl, λ r. refl, λ r. refl)
endpoint-Goes e = (refl, λ r. refl, λ r. refl)

-- A request for an endpoint, for a path below it or with a query goes to the endpoint's provider: no
-- earlier test of the routing chain takes the path.
pub detect_provider-owner :
    (e : Endpoint) (path : String) → is_under (base e) path ≡ true → detect_provider path ≡ owner e
detect_provider-owner e path h = is_under-Forms (Goes (owner e)) (base e) path (endpoint-Goes e) h

detect_provider_of_should_route :
    (path : String) → should_route path ≡ true → detect_provider path ≡ codex
unfolding should_route should_translate
detect_provider_of_should_route path h = elim (or-cases (is_under "/v1/responses" path) _ h) [
  | inl e ↦ detect_provider-owner responses path e
  | inr e ↦ detect_provider-owner codex_chat path e
]

-- The Codex provider is chosen exactly for the paths that `codex::should_route` accepts.
pub detect_provider-codex_iff :
    (path : String) → (detect_provider path ≡ codex) ↔ (should_route path ≡ true)
detect_provider-codex_iff path = (only, detect_provider_of_should_route path)
  where
    only : detect_provider path ≡ codex → should_route path ≡ true
    only h = unfold detect_provider in ground arith

abbrev Reaches : String → Type 0
Reaches p = starts_with (codex_target_path p) "/responses" ≡ true

responses-Reaches : Forms Reaches "/v1/responses"
unfolding should_translate codex_target_path push_str starts_with is_under
responses-Reaches = (refl, (λ r. refl), λ r. refl)

codex_chat-Reaches : Forms Reaches "/codex/v1/chat/completions"
unfolding should_translate codex_target_path push_str starts_with is_under
codex_chat-Reaches = (refl, (λ r. refl), λ r. refl)

-- Every request that is routed to Codex reaches the Responses API of the upstream: a translated chat
-- path and its query become `/responses`, and any other loses its `/v1`.
pub codex_target_path-responses :
    (path_and_query : String)
    → should_route path_and_query ≡ true
    → starts_with (codex_target_path path_and_query) "/responses" ≡ true
unfolding should_route should_translate
codex_target_path-responses p h = elim (or-cases (is_under "/v1/responses" p) _ h) [
  | inl e ↦ is_under-Forms Reaches "/v1/responses" p responses-Reaches e
  | inr e ↦ is_under-Forms Reaches "/codex/v1/chat/completions" p codex_chat-Reaches e
]
