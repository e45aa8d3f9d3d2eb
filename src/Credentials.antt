-- ===== src/Credentials.antt =====
-- src/lib.rs (`TokenSource`, `keychain_fallback`), src/codex.rs (the credentials of auth.json) and
-- src/keychain.rs (the stored credential of Claude Code): where a credential comes from. What the
-- operating system answers and the JSON parser stand in `Stores`.
pub mod Codex
pub mod Fallback
mod Tests
use Prim.Native.Char.{code}
use mur_model_gateway.Common.{
  zero, ◌&&◌, Bool, true, false, not, List, Option, none, some, String, if◌then◌else◌, ◌>>=◌,
  Result, ok, err,
}
use mathlib.Core.Option.{map}
use mur_model_gateway.Common.Text.{str_eq, push_str, trim, is_empty as is_blank}
use mur_model_gateway.Common.Integer.{ℤ, pos, leb_ℤ}
use mur_model_gateway.Common.Decimal.{decimal_ℤ}
use mur_model_gateway.Json.{Value, get, as_str, as_i64}

pub data KeychainError : Type 0 where
  backend malformed : String → KeychainError

pub record OauthCredential : Type 0 where
  pub access_token : String
  pub expires_at_ms : Option ℤ

pub data TokenSource : Type 0 where
  keychain : TokenSource
  env_var credentials_file codex static : String → TokenSource
  disabled : TokenSource

pub record CodexAuth : Type 0 where
  pub access_token : String
  pub refresh_token : Option String
  pub account_id : Option String

pub data CodexCredential : Type 0 where
  oauth : String → Option String → CodexCredential
  api_key : String → CodexCredential

-- `CodexCredential::bearer`, `CodexCredential::account_id`
abbrev pub bearer : CodexCredential → String
bearer (oauth access_token id) = access_token
bearer (api_key key) = key

abbrev pub account_id : CodexCredential → Option String
account_id (oauth access_token id) = id
account_id (api_key key) = none

-- `std::fs::read_to_string`
pub data FileText : Type 0 where
  text : String → FileText
  not_found : FileText
  unreadable : String → FileText

abbrev readable : FileText → Option String
readable (text s) = some s
readable _ = none

abbrev pub Read : Type 0
Read = Result (Option OauthCredential) KeychainError

-- What a request meets outside the gateway: the keychain's answer, the files, the environment, the
-- user's home and serde_json's parser, whose error is a text.
pub record Stores : Type 0 where
  pub is_macos : Bool
  pub read_keychain : Read
  pub read_to_string : String → FileText
  pub exists : String → Bool
  pub env : String → Option String
  pub home : Option String
  pub from_str : String → Result Value String

abbrev parsed : Result Value String → Option Value
parsed (ok v) = some v
parsed (err e) = none

-- `parse_oauth_blob`, from the parsed text on
abbrev pub token_of : Value → Option Value → Read
token_of blob (some t) = elim (as_str t) [
  | none ↦ err (malformed "missing claudeAiOauth.accessToken")
  | some s ↦
      ok (some (record { access_token = s; expires_at_ms = get blob "expiresAt" >>= as_i64 }))
]
token_of blob none = err (malformed "missing claudeAiOauth.accessToken")

-- `parse_auth`, from the parsed text on
abbrev pub auth_of : Value → Option Value → Option CodexAuth
auth_of tokens (some t) = elim (as_str t) [
  | none ↦ none
  | some s ↦ some (record {
    access_token = s;
    refresh_token = get tokens "refresh_token" >>= as_str;
    account_id = get tokens "account_id" >>= as_str;
  })
]
auth_of tokens none = none

abbrev pub mode_is : Value → String → Bool
mode_is v mode = elim (get v "auth_mode" >>= as_str) [ none ↦ false | some m ↦ str_eq m mode ]

abbrev pub tokens_auth : Value → Option CodexAuth
tokens_auth tokens = auth_of tokens (get tokens "access_token")

-- `parse_auth`, of the document
abbrev pub auth_in : Value → Option CodexAuth
auth_in v = if mode_is v "chatgpt" then (get v "tokens" >>= tokens_auth) else none

abbrev pub as_oauth : CodexAuth → CodexCredential
as_oauth a = oauth a.access_token a.account_id

abbrev key_of : String → Option CodexCredential
key_of k = if is_blank k then none else some (api_key k)

abbrev pub token : Read → Result (Option String) KeychainError
token (ok c) = ok (map (λ c. c.access_token) c)
token (err e) = err e

abbrev pub oauth_token : CodexCredential → Option String
oauth_token (oauth access_token id) = some access_token
oauth_token (api_key key) = none

module _ (from_str : String → Result Value String) where
  unfoldable pub parse_oauth_blob : String → Read
  parse_oauth_blob raw = elim (from_str (trim raw)) [
    | err e ↦ err (malformed (push_str "not JSON: " e))
    | ok creds ↦ elim (get creds "claudeAiOauth") [
      | none ↦ err (malformed "missing claudeAiOauth")
      | some blob ↦ token_of blob (get blob "accessToken")
    ]
  ]

  -- the answer of security(1): its exit code, and its output where that is UTF-8
  unfoldable pub interpret_security_result : Option ℤ → Result String String → Read
  unfolding parse_oauth_blob push_str
  interpret_security_result (some (pos zero)) (ok raw) = parse_oauth_blob raw
  interpret_security_result (some (pos zero)) (err e) =
      err (malformed (push_str "stdout not UTF-8: " e))
  interpret_security_result (some c) stdout =
      if leb_ℤ c (pos 44) && leb_ℤ (pos 44) c
      then ok none
      else err (backend (push_str "security find-generic-password exited " (decimal_ℤ c)))
  interpret_security_result none stdout =
      err (backend "security find-generic-password was killed by a signal")

  unfoldable pub parse_auth : String → Option CodexAuth
  parse_auth raw = parsed (from_str raw) >>= auth_in

  -- `read_credential`, from the text of the file on
  unfoldable pub credential_in : String → Option CodexCredential
  unfolding get str_eq
  credential_in raw = parsed (from_str raw) >>= λ v.
      if mode_is v "chatgpt"
      then map as_oauth (parse_auth raw)
      else if mode_is v "apikey"
      then (get v "OPENAI_API_KEY" >>= as_str >>= key_of)
      else none

module _ (w : Stores) where
  unfoldable pub read_auth : String → Option CodexAuth
  unfolding parse_auth
  read_auth path = readable (w.read_to_string path) >>= parse_auth w.from_str

  unfoldable pub read_credential : String → Option CodexCredential
  unfolding credential_in
  read_credential path = readable (w.read_to_string path) >>= credential_in w.from_str

  unfoldable pub read_credentials_file_credential : String → Read
  unfolding parse_oauth_blob push_str
  read_credentials_file_credential path = elim (w.read_to_string path) [
    | text raw ↦ parse_oauth_blob w.from_str raw
    | not_found ↦ ok none
    | unreadable e ↦ err (backend (push_str "read " (push_str path (push_str ": " e))))
  ]

  unfoldable pub default_credentials_path : Option String
  unfolding push_str
  default_credentials_path = map (λ h. push_str h "/.claude/.credentials.json") w.home

  -- `keychain_fallback`
  abbrev pub file_or : Read → Option String → Read
  file_or miss none = miss
  file_or miss (some p) = if w.exists p then read_credentials_file_credential p else miss

  abbrev pub off_macos : Read → Option String → Read
  off_macos (ok (some c)) path = ok (some c)
  off_macos miss path = file_or miss path

  unfoldable pub keychain_fallback : Read → Option String → Read
  keychain_fallback from_keychain path =
      if w.is_macos then from_keychain else off_macos from_keychain path

  unfoldable pub resolve_credential : TokenSource → Read
  resolve_credential keychain = keychain_fallback w.read_keychain default_credentials_path
  resolve_credential (credentials_file path) = read_credentials_file_credential path
  resolve_credential (codex path) = ok none
  resolve_credential (env_var var) = ok none
  resolve_credential (static s) = ok none
  resolve_credential disabled = ok none

  unfoldable pub resolve : TokenSource → Result (Option String) KeychainError
  unfolding resolve_credential read_credential
  resolve keychain = token (resolve_credential keychain)
  resolve (credentials_file path) = token (resolve_credential (credentials_file path))
  resolve (codex path) = ok (read_credential path >>= oauth_token)
  resolve (env_var var) = ok (w.env var)
  resolve (static s) = ok (some s)
  resolve disabled = ok none
