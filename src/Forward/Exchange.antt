-- ===== src/Forward/Exchange.antt =====
-- src/lib.rs, `forward` from the first send to the reply: the request that goes upstream, the one retry
-- of each route, and what the client gets. The body is the one after compression and translation; the
-- two hooks, the HTTP client, the Codex refresh and the clock stand in `Outside`.
pub mod Retries
pub mod Passthrough
mod Tests
use mur_model_gateway.Common.{
  ℕ, Bool, true, false, not, ◌&&◌, ◌||◌, ◌==◌, List, [], ◌∷◌, ◌++◌, Option, none, some, String,
  if◌then◌else◌, is_some, filter, get_or, Result, ok, err, ◌>>=◌,
}
use mathlib.Core.Option.{map}
use mur_model_gateway.Common.Text.{str_eq, push_str}
use mur_model_gateway.Common.Integer.{ℤ, leb_ℤ}
use mur_model_gateway.Credentials.{
  Stores, TokenSource, keychain, credentials_file, codex as codex_file, env_var, static, disabled,
  CodexCredential, oauth, api_key, account_id, OauthCredential, Read,
}
use mur_model_gateway.Route.{Provider, should_translate}
use mur_model_gateway.Json.{Value}
use mur_model_gateway.Forward.Streaming.{Pull, chunk, fault, streamed, is_success, whole_reply}
use mur_model_gateway.Forward.{
  HeaderMap, HeaderValue, visible, header, contains_key, AppState, codex_cred, override_token,
  copy_headers, copy_codex_retry, copy_anthropic_retry, codex_retry_eligible, is_hop_by_hop,
}
use mur_model_gateway.Forward.Rotation.{Reading, wait_for_rotation}

abbrev pub Bytes : Type 0
Bytes = List ℕ

pub record Inbound : Type 0 where
  pub provider : Provider
  pub path_only : String
  pub headers : HeaderMap
  pub url : String
  pub body : Bytes
  pub client_model : Option String
  pub client_wants_stream : Bool

pub record Sent : Type 0 where
  pub url : String
  pub headers : HeaderMap
  pub body : Bytes

pub record Reply : Type 0 where
  pub status : ℕ
  pub headers : HeaderMap
  pub body : Bytes

pub record Outside : Type 0 where
  pub apply_disguise_headers : HeaderMap → String → List String → Bool → Option HeaderMap
  pub inject_billing_prefix : Bytes → String → Option Bytes
  pub apply_codex_headers : HeaderMap → String → Option String → HeaderMap
  pub upstream : ℕ → Sent → Option Reply
  pub refreshed_access_token : String → Option String
  pub readings : ℕ → Reading
  pub clock : ℕ → ℕ
  pub stored_now : Read
  pub version : String
  pub now_ms : ℤ
  pub pulls : Bytes → List Pull
  pub lossy : Bytes → String
  pub from_str : String → Option Value
  pub to_string : Value → String

-- What a request comes to: an error that the handler answers with 502, an answer of the upstream, the
-- translation of one as the items of a stream or as one JSON reply, or the gateway's own 401, with what
-- it says of the credential.
pub data Ending : Type 0 where
  failed : Ending
  replied : ℕ → HeaderMap → Bytes → Ending
  streams : ℕ → HeaderMap → List String → Ending
  gathers : ℕ → HeaderMap → Value → Ending
  auth_error : Bool → Bool → Ending

-- `HeaderMap::insert`: one value of a name
unfoldable pub set_header : String → HeaderValue → HeaderMap → HeaderMap
set_header name value [] = (name, value) ∷ []
set_header name value ((n, v) ∷ headers) =
    let rest = set_header name value headers in
    if str_eq n name then (n, value) ∷ headers else (n, v) ∷ rest

-- the headers of the reply, in the order of the loop
unfoldable pub reply_headers : HeaderMap → HeaderMap → HeaderMap
reply_headers kept [] = kept
reply_headers kept ((name, value) ∷ headers) =
    reply_headers (if is_hop_by_hop name then kept else set_header name value kept) headers

-- `HeaderMap::remove`
abbrev pub without : String → HeaderMap → HeaderMap
without name headers = filter (λ h. not (str_eq h.0 name)) headers

-- `bytes`: the whole of a body, unless a pull fails
abbrev pub collected : List Pull → Option Bytes
collected [] = some []
collected (fault ∷ pulls) = none
collected (chunk bytes ∷ pulls) = map (λ more. bytes ++ more) (collected pulls)

-- `claude_owned`
unfoldable pub claude_owned : TokenSource → Bool
claude_owned keychain = true
claude_owned (credentials_file path) = true
claude_owned _ = false

abbrev pub codex_path : TokenSource → Option String
codex_path (codex_file path) = some path
codex_path _ = none

-- `anthropic_credential_expiry`
abbrev pub anthropic_credential_expiry : Read → Option ℤ
anthropic_credential_expiry (ok (some c)) = c.expires_at_ms
anthropic_credential_expiry _ = none

abbrev pub has_expired : Option ℤ → ℤ → Bool
has_expired none now = true
has_expired (some e) now = leb_ℤ e now

abbrev pub flatten : Option (Option String) → Option String
flatten none = none
flatten (some o) = o

module _ (o : Outside) (w : Stores) (s : AppState) (q : Inbound) where
  abbrev pub own_token : Option String
  own_token = override_token w s q.provider q.path_only q.headers

  abbrev pub own_codex : Option CodexCredential
  own_codex = codex_cred w s q.provider q.headers

  -- `final_body`, and the body of the Anthropic retry
  unfoldable pub final_body : Option String → Option Bytes
  final_body none = some q.body
  final_body (some token) = o.inject_billing_prefix q.body o.version

  abbrev pub disguised : Option String → HeaderMap → List String → Option HeaderMap
  disguised none kept betas = some kept
  disguised (some token) kept betas =
      o.apply_disguise_headers kept token betas (contains_key q.headers "anthropic-version")

  abbrev pub with_codex : Option CodexCredential → HeaderMap → HeaderMap
  with_codex none kept = kept
  with_codex (some (oauth token id)) kept = o.apply_codex_headers kept token id
  with_codex (some (api_key key)) kept =
      kept ++ ("authorization", visible (push_str "Bearer " key)) ∷ []

  abbrev pub request : HeaderMap → Bytes → Sent
  request headers body = record { url = q.url; headers = headers; body = body }

  -- the first attempt
  unfoldable pub first_request : Option Sent
  first_request =
      let (kept, betas) = copy_headers (is_some own_token) (is_some own_codex) q.headers in
      final_body own_token >>= λ body. disguised own_token kept betas >>= λ headers.
      some (request (with_codex own_codex headers) body)

  -- the retry with a refreshed Codex token
  unfoldable pub codex_retry : Reply → Option Sent
  codex_retry r =
      if codex_retry_eligible q.provider r.status own_codex
      then (codex_path s.token_source_codex >>= o.refreshed_access_token >>= λ fresh. some (
          request
            (o.apply_codex_headers (copy_codex_retry q.headers) fresh (own_codex >>= account_id))
            q.body))
      else none

  -- `anthropic_expiry`: there where the gateway's own Claude Code token was rejected
  unfoldable pub anthropic_expiry : Reply → Option (Option ℤ)
  anthropic_expiry r =
      if is_some own_token && claude_owned s.token_source && r.status == 401
      then some (anthropic_credential_expiry o.stored_now)
      else none

  -- `refreshed`: what the wait for a rotation answers
  unfoldable pub rotated : Option (Option ℤ) → Option String → Option String
  rotated (some expiry) (some rejected) =
      flatten (wait_for_rotation o.readings o.clock (o.clock 0) rejected)
  rotated (some expiry) none = none
  rotated none token = none

  -- the retry with a rotated Anthropic token
  unfoldable pub anthropic_retry : String → Option Sent
  anthropic_retry fresh =
      let betas = (copy_headers (is_some own_token) (is_some own_codex) q.headers).1 in
      final_body own_token >>= λ body.
      disguised (some fresh) (copy_anthropic_retry q.headers) betas >>= λ headers.
      some (request headers body)

  abbrev json_headers : HeaderMap → HeaderMap
  json_headers kept = ("content-type", visible "application/json") ∷ kept

  abbrev gathered : Reply → Option Bytes → Ending
  gathered r none = failed
  gathered r (some raw) =
      gathers r.status
        (if is_success r.status
          then json_headers
              (without "content-type" (without "content-length" (reply_headers [] r.headers)))
          else json_headers [])
        (whole_reply o.from_str r.status (o.lossy raw) (get_or q.client_model ""))

  -- the reply, translated on the one path whose requests are
  unfoldable pub delivered : Reply → Ending
  unfolding should_translate reply_headers streamed whole_reply str_eq
  delivered r =
      if should_translate q.path_only
      then if q.client_wants_stream
        then streams r.status (without "content-length" (reply_headers [] r.headers))
            (streamed o.lossy o.from_str o.to_string (get_or q.client_model "") (o.pulls r.body))
        else gathered r (collected (o.pulls r.body))
      else replied r.status (reply_headers [] r.headers) r.body

  -- the reply, or the gateway's own 401 in its place
  unfoldable pub ending : Option (Option ℤ) → Bool → Reply → Ending
  unfolding delivered
  ending (some expiry) retried r =
      if r.status == 401 then auth_error (has_expired expiry o.now_ms) retried else delivered r
  ending none retried r = delivered r

  -- A send, and what follows on its reply; an error of the client ends the exchange.
  unfoldable pub send : ℕ → Option Sent → (Reply → List Sent × Ending) → List Sent × Ending
  send n none next = ([], failed)
  send n (some request) next = elim (o.upstream n request) [
    | none ↦ (request ∷ [], failed)
    | some r ↦ let (more, end) = next r in (request ∷ more, end)
  ]

  unfoldable pub after_expiry : Option (Option ℤ) → Reply → List Sent × Ending
  after_expiry expiry r = elim (rotated expiry own_token) [
    | none ↦ ([], ending expiry false r)
    | some fresh ↦ send 2 (anthropic_retry fresh) (λ r'. ([], ending expiry true r'))
  ]

  unfoldable pub after_codex : Reply → List Sent × Ending
  after_codex r = after_expiry (anthropic_expiry r) r

  unfoldable pub after_first : Reply → List Sent × Ending
  after_first r = elim (codex_retry r) [
    | none ↦ after_codex r
    | some again ↦ send 1 (some again) after_codex
  ]

  unfoldable pub exchange : List Sent × Ending
  exchange = send 0 first_request after_first
