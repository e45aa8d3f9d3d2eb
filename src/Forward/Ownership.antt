-- ===== src/Forward/Ownership.antt =====
-- Whose credential a request of `forward` carries, and which rejection may spend a refresh token.
use mur_model_gateway.Common.{
  ℕ, ==_iff, ◌≡◌, ◌↔◌, ◌⊎◌, refl, true, false, Option, none, some, String, is_some, or-cases, inl,
  inr, arith,
}
use mur_model_gateway.Credentials.{Stores, CodexCredential, oauth, api_key, resolve}
use mur_model_gateway.Route.{Provider, anthropic, codex, open_ai, gemini, should_disguise}
use mur_model_gateway.Forward.{
  AppState, HeaderMap, HeaderValue, header, contains_key, non_empty, has_client_credential,
  extract_oauth_shape_token, codex_cred, override_token, or_none, is_disabled, is_anthropic,
  codex_retry_eligible,
}

-- The gateway attaches at most one credential of its own: not both a token for the Messages paths and a
-- Codex credential.
pub override_token-codex_cred :
    (w : Stores) (s : AppState) (provider : Provider) (path : String) (headers : HeaderMap)
    → (override_token w s provider path headers ≡ none) ⊎ (codex_cred w s provider headers ≡ none)
unfolding override_token codex_cred
override_token-codex_cred w s codex path headers = inl (ground arith)
override_token-codex_cred w s anthropic path headers = inr refl
override_token-codex_cred w s open_ai path headers = inr refl
override_token-codex_cred w s gemini path headers = inr refl

non_empty-is_some : (v : Option HeaderValue) → non_empty v ≡ true → is_some v ≡ true
non_empty-is_some none h = h
non_empty-is_some (some v) h = refl

is_none : (o : Option String) → o ≡ none → is_some o ≡ false
is_none o h = rw h refl

a_header :
    (headers : HeaderMap)
    → has_client_credential headers ≡ true
    → (contains_key headers "authorization" ≡ true) ⊎ (contains_key headers "x-api-key" ≡ true)
unfolding has_client_credential
a_header headers h =
    elim (or-cases (non_empty (header headers "authorization"))
      (non_empty (header headers "x-api-key")) h) [
        | inl k ↦ inl (non_empty-is_some (header headers "authorization") k)
        | inr k ↦ inr (non_empty-is_some (header headers "x-api-key") k)
      ]

-- A client that brings a credential of its own, which is not blank and has not the shape of an OAuth
-- token, keeps it: the gateway attaches none, on any path and for any provider.
pub own_credential-kept :
    (w : Stores) (s : AppState) (provider : Provider) (path : String) (headers : HeaderMap)
    → has_client_credential headers ≡ true
    → extract_oauth_shape_token headers ≡ none
    → (codex_cred w s provider headers ≡ none) × (override_token w s provider path headers ≡ none)
unfolding codex_cred override_token
own_credential-kept w s provider path headers h x =
    let bare = is_none (extract_oauth_shape_token headers) x in
    elim (a_header headers h) [
      | inl k ↦ (ground arith, ground arith)
      | inr k ↦ (ground arith, ground arith)
    ]

-- The gateway attaches a token on the Messages paths exactly where its source is not disabled, the path
-- is one of those, the provider is Anthropic, the client brings an OAuth-shaped token or neither
-- header of the two, and the source then gives that token.
pub override_token-some_iff :
    (w : Stores) (s : AppState) (provider : Provider) (path : String) (headers : HeaderMap)
    (t : String)
    → (override_token w s provider path headers ≡ some t) ↔ (
        (is_disabled s.token_source ≡ false)
        × (should_disguise path ≡ true)
        × (is_anthropic provider ≡ true)
        × ((is_some (extract_oauth_shape_token headers) ≡ true)
            ⊎ ((contains_key headers "authorization" ≡ false)
                × (contains_key headers "x-api-key" ≡ false)))
        × (or_none (resolve w s.token_source) ≡ some t))
unfolding override_token
override_token-some_iff w s provider path headers t = (ground arith, ground arith)

retry_eligible-oauth :
    (provider : Provider) (status : ℕ) (cred : Option CodexCredential)
    → codex_retry_eligible provider status cred ≡ true
    → (status ≡ 401)
      × (provider ≡ codex)
      × ((token : String) × (id : Option String) × (cred ≡ some (oauth token id)))
unfolding codex_retry_eligible
retry_eligible-oauth codex status (some (oauth token id)) h =
    ((==_iff status 401).0 h, refl, (token, id, refl))
retry_eligible-oauth anthropic status (some (oauth token id)) h = ground arith
retry_eligible-oauth open_ai status (some (oauth token id)) h = ground arith
retry_eligible-oauth gemini status (some (oauth token id)) h = ground arith
retry_eligible-oauth provider status (some (api_key key)) h = ground arith
retry_eligible-oauth provider status none h = ground arith

codex_cred-owned :
    (w : Stores) (s : AppState) (provider : Provider) (headers : HeaderMap) (c : CodexCredential)
    → codex_cred w s provider headers ≡ some c
    → has_client_credential headers ≡ false
unfolding codex_cred
codex_cred-owned w s provider headers c h = ground arith

-- A rejection may redeem a refresh token only where it is a 401, the provider is Codex, the client
-- brought no credential, and the gateway had attached an OAuth one of its own.
pub codex_retry_eligible-owned :
    (w : Stores) (s : AppState) (provider : Provider) (headers : HeaderMap) (status : ℕ)
    → codex_retry_eligible provider status (codex_cred w s provider headers) ≡ true
    → (status ≡ 401)
      × (provider ≡ codex)
      × (has_client_credential headers ≡ false)
      × ((token : String) × (id : Option String) × (codex_cred w s provider headers
            ≡ some (oauth token id)))
codex_retry_eligible-owned w s provider headers status h =
    let (rejected, route, (token, id, own)) =
      retry_eligible-oauth provider status (codex_cred w s provider headers) h in
    (rejected, route, codex_cred-owned w s provider headers (oauth token id) own, (token, id, own))
