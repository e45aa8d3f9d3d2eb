-- ===== src/Forward.antt =====
-- src/lib.rs, `forward` and the functions it decides by: whose credential a request carries, where it
-- goes, and which of the client's headers go with it.
pub mod Body
pub mod Copying
pub mod Exchange
pub mod Front
pub mod Rotation
pub mod Streaming
pub mod Ownership
pub mod Target
mod Tests
use Prim.Native.Char.{Char, code}
use mur_model_gateway.Common.{
  ℕ, Bool, true, false, not, ◌&&◌, ◌||◌, ◌==◌, List, [], ◌∷◌, Option, none, some, String,
  if◌then◌else◌, ◌>>=◌, is_some, get_or, or_else, Result, ok, err,
}
use mur_model_gateway.Common.Text.{
  str_eq, push_str, trim, contains, strip_prefix, is_empty as is_blank,
}
use mur_model_gateway.Credentials.{
  Stores, TokenSource, disabled, codex as codex_file, keychain, env_var, credentials_file, static,
  KeychainError, CodexCredential, oauth, api_key, resolve, read_credential,
}
use mur_model_gateway.Route.{
  Provider, anthropic, open_ai, gemini, codex, detect_provider, codex_target_path, should_translate,
  should_disguise,
}

-- A header's value: text that `to_str` gives, or bytes that it refuses.
pub data HeaderValue : Type 0 where
  visible : String → HeaderValue
  opaque : List ℕ → HeaderValue

abbrev pub to_str : HeaderValue → Option String
to_str (visible s) = some s
to_str (opaque bytes) = none

-- A header map in the order of its iteration, its names in lower case, as `http` keeps them.
abbrev pub HeaderMap : Type 0
HeaderMap = List (String × HeaderValue)

-- `HeaderMap::get`: the first value of a name
unfoldable pub header : HeaderMap → String → Option HeaderValue
unfolding str_eq
header [] name = none
header ((n, v) ∷ headers) name = if str_eq n name then some v else header headers name

abbrev pub contains_key : HeaderMap → String → Bool
contains_key headers name = is_some (header headers name)

-- The parts of `AppState` that decide where a request goes and with whose credential.
pub record AppState : Type 0 where
  pub upstream_anthropic : String
  pub upstream_openai : String
  pub upstream_gemini : String
  pub upstream_codex : String
  pub upstream_codex_apikey : String
  pub token_source : TokenSource
  pub token_source_codex : TokenSource

unfoldable pub upstream_for : AppState → Provider → String
upstream_for s anthropic = s.upstream_anthropic
upstream_for s open_ai = s.upstream_openai
upstream_for s gemini = s.upstream_gemini
upstream_for s codex = s.upstream_codex

unfoldable pub token_source_for : AppState → Provider → TokenSource
token_source_for s codex = s.token_source_codex
token_source_for s _ = s.token_source

abbrev pub non_empty : Option HeaderValue → Bool
non_empty v = elim (v >>= to_str) [ none ↦ false | some s ↦ not (is_blank (trim s)) ]

unfoldable pub has_client_credential : HeaderMap → Bool
has_client_credential headers =
    non_empty (header headers "authorization") || non_empty (header headers "x-api-key")

abbrev pub if_oauth_shape : String → Option String
if_oauth_shape s = if contains s "sk-ant-oat" then some s else none

unfoldable pub extract_oauth_shape_token : HeaderMap → Option String
extract_oauth_shape_token headers =
    or_else (header headers "x-api-key" >>= to_str >>= if_oauth_shape) (
      header headers "authorization" >>= to_str >>= λ v.
      or_else (strip_prefix v "Bearer ") (strip_prefix v "bearer ") >>= if_oauth_shape)

abbrev pub is_provider_codex : Provider → Bool
is_provider_codex codex = true
is_provider_codex _ = false

abbrev pub is_anthropic : Provider → Bool
is_anthropic anthropic = true
is_anthropic _ = false

abbrev pub is_disabled : TokenSource → Bool
is_disabled disabled = true
is_disabled _ = false

-- `resolve()`, whose error is logged and passes through
abbrev pub or_none : Result (Option String) KeychainError → Option String
or_none (ok t) = t
or_none (err e) = none

module _ (w : Stores) where
  abbrev pub stored_codex : TokenSource → Option CodexCredential
  stored_codex (codex_file path) = read_credential w path
  stored_codex source = or_none (resolve w source) >>= λ t. some (oauth t none)

  -- `codex_cred`: the credential that the gateway attaches on the Codex route
  unfoldable pub codex_cred : AppState → Provider → HeaderMap → Option CodexCredential
  codex_cred s provider headers =
      if is_provider_codex provider && not (has_client_credential headers)
      then stored_codex (token_source_for s codex)
      else none

  -- `override_token`: the token that the gateway attaches on the Messages paths
  unfoldable pub override_token : AppState → Provider → String → HeaderMap → Option String
  override_token s provider path headers =
      let own = or_none (resolve w s.token_source) in
      if is_disabled s.token_source || not (should_disguise path) || not (is_anthropic provider)
      then none
      else if is_some (extract_oauth_shape_token headers)
      then own
      else if not (contains_key headers "authorization") && not (contains_key headers "x-api-key")
      then own
      else none

abbrev pub is_api_key : Option CodexCredential → Bool
is_api_key (some (api_key key)) = true
is_api_key (some (oauth token id)) = false
is_api_key none = false

-- the path and the upstream of a request
unfoldable pub target :
    AppState → Provider → Option CodexCredential → Bool → String → String × String
target s codex cred translating path_and_query =
    if is_api_key cred && translating
    then ("/v1/responses", s.upstream_codex_apikey)
    else if is_api_key cred
    then (path_and_query, s.upstream_codex_apikey)
    else (codex_target_path path_and_query, upstream_for s codex)
target s provider cred translating path_and_query = (path_and_query, upstream_for s provider)

unfoldable pub is_hop_by_hop : String → Bool
unfolding str_eq
is_hop_by_hop name =
    str_eq name "connection"
    || str_eq name "keep-alive"
    || str_eq name "proxy-authenticate"
    || str_eq name "proxy-authorization"
    || str_eq name "te"
    || str_eq name "trailers"
    || str_eq name "transfer-encoding"
    || str_eq name "upgrade"

unfoldable pub never_forwarded : String → Bool
unfolding str_eq
never_forwarded name =
    is_hop_by_hop name
    || str_eq name "host"
    || str_eq name "content-length"
    || str_eq name "accept-encoding"

abbrev pub is_auth : String → Bool
is_auth name = str_eq name "authorization" || str_eq name "x-api-key"

-- The loop over the client's headers before the first attempt: the headers that are copied, and the
-- values of `anthropic-beta` that are captured in place of it.
unfoldable pub copy_headers : Bool → Bool → HeaderMap → HeaderMap × List String
copy_headers overridden codex_owned [] = ([], [])
copy_headers overridden codex_owned ((name, value) ∷ headers) =
    let (kept, betas) = copy_headers overridden codex_owned headers in
    if never_forwarded name
    then (kept, betas)
    else if (overridden || codex_owned) && is_auth name
    then (kept, betas)
    else if overridden && str_eq name "anthropic-beta"
    then (kept, elim (to_str value) [ none ↦ betas | some s ↦ s ∷ betas ])
    else ((name, value) ∷ kept, betas)

-- The loops before a retry, on the Codex route and for a rotated Anthropic token.
unfoldable pub copy_codex_retry : HeaderMap → HeaderMap
copy_codex_retry [] = []
copy_codex_retry ((name, value) ∷ headers) =
    let kept = copy_codex_retry headers in
    if never_forwarded name || str_eq name "authorization" || str_eq name "x-api-key"
    then kept
    else (name, value) ∷ kept

unfoldable pub copy_anthropic_retry : HeaderMap → HeaderMap
copy_anthropic_retry [] = []
copy_anthropic_retry ((name, value) ∷ headers) =
    let kept = copy_anthropic_retry headers in
    if never_forwarded name
      || str_eq name "authorization"
      || str_eq name "x-api-key"
      || str_eq name "anthropic-beta"
    then kept
    else (name, value) ∷ kept

unfoldable pub codex_retry_eligible : Provider → ℕ → Option CodexCredential → Bool
codex_retry_eligible provider status (some (oauth token id)) =
    is_provider_codex provider && status == 401
codex_retry_eligible provider status (some (api_key key)) = false
codex_retry_eligible provider status none = false
