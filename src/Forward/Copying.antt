-- ===== src/Forward/Copying.antt =====
-- Which of the client's headers `forward` copies: on the first attempt, and on each retry.
use mur_model_gateway.Common.{
  ◌≡◌, refl, Bool, true, false, not, ◌&&◌, ◌||◌, List, [], ◌∷◌, none, some, String, if◌then◌else◌,
  any, filter, Bool-cases, inl, inr, arith,
}
use mur_model_gateway.Common.Text.{str_eq}
use mur_model_gateway.Common.Text.Prefix.{str_eq_iff}
use mur_model_gateway.Forward.{
  HeaderMap, to_str, copy_headers, copy_codex_retry, copy_anthropic_retry, never_forwarded,
  is_hop_by_hop, is_auth,
}

abbrev pub member : String → List String → Bool
member name names = any (str_eq name) names

abbrev pub never_names : List String
never_names =
    "connection" ∷ "keep-alive" ∷ "proxy-authenticate" ∷ "proxy-authorization" ∷ "te" ∷ "trailers"
    ∷ "transfer-encoding" ∷ "upgrade" ∷ "host" ∷ "content-length" ∷ "accept-encoding" ∷ []

-- The names that are dropped, by whether the gateway attaches a token on the Messages paths, and a
-- credential on the Codex route.
abbrev pub dropped : Bool → Bool → String → Bool
dropped overridden codex_owned name =
    member name never_names
    || ((overridden || codex_owned) && member name ("authorization" ∷ "x-api-key" ∷ []))
    || (overridden && member name ("anthropic-beta" ∷ []))

never_forwarded-member : (name : String) → never_forwarded name ≡ member name never_names
unfolding never_forwarded is_hop_by_hop
never_forwarded-member name = ground arith

-- The values of a header that are text.
abbrev pub texts : String → HeaderMap → List String
texts key [] = []
texts key ((name, value) ∷ headers) =
    let rest = texts key headers in
    if str_eq name key then elim (to_str value) [ none ↦ rest | some s ↦ s ∷ rest ] else rest

-- On the first attempt, the headers that go upstream are the client's in their order, less the ones
-- that are never forwarded, the two that carry a credential where the gateway attaches its own, and
-- `anthropic-beta` where it attaches a token on the Messages paths.
pub copy_headers-filter :
    (overridden codex_owned : Bool) (headers : HeaderMap)
    → (copy_headers overridden codex_owned headers).0
      ≡ filter (λ h. not (dropped overridden codex_owned h.0)) headers
unfolding copy_headers
copy_headers-filter overridden codex_owned [] = refl
copy_headers-filter overridden codex_owned ((name, value) ∷ headers) =
    let e = never_forwarded-member name in
    let hyp = copy_headers-filter overridden codex_owned headers in rw (e, hyp) (ground arith)

never_forwarded-beta :
    (name : String) → str_eq name "anthropic-beta" ≡ true → never_forwarded name ≡ false
unfolding never_forwarded is_hop_by_hop str_eq
never_forwarded-beta name h = rw ((str_eq_iff name "anthropic-beta").0 h) refl

is_auth-beta : (name : String) → str_eq name "anthropic-beta" ≡ true → is_auth name ≡ false
unfolding str_eq
is_auth-beta name h = rw ((str_eq_iff name "anthropic-beta").0 h) refl

-- Where the gateway attaches a token on the Messages paths, the captured values are those of the
-- `anthropic-beta` headers that are text, all of them and in order; elsewhere none is captured.
pub copy_headers-betas :
    (overridden codex_owned : Bool) (headers : HeaderMap)
    → (copy_headers overridden codex_owned headers).1
      ≡ (if overridden then texts "anthropic-beta" headers else [])
unfolding copy_headers
copy_headers-betas overridden codex_owned [] = ground arith
copy_headers-betas overridden codex_owned ((name, value) ∷ headers) =
    let hyp = copy_headers-betas overridden codex_owned headers in
    elim (Bool-cases (str_eq name "anthropic-beta")) [
      | inl b ↦ rw (never_forwarded-beta name b, is_auth-beta name b, b, hyp) (ground arith)
      | inr b ↦ rw (b, hyp) (ground arith)
    ]

-- Both retries copy the headers that the first attempt copied: the Codex retry where the gateway
-- attached its Codex credential, the Anthropic retry where it attached a token.
pub copy_retries :
    (codex_owned : Bool) (headers : HeaderMap)
    → (copy_codex_retry headers ≡ (copy_headers false true headers).0)
      × (copy_anthropic_retry headers ≡ (copy_headers true codex_owned headers).0)
unfolding copy_headers copy_codex_retry copy_anthropic_retry
copy_retries codex_owned [] = (refl, refl)
copy_retries codex_owned ((name, value) ∷ headers) =
    let hyp = copy_retries codex_owned headers in (ground arith, ground arith)
