-- ===== src/Credentials/Codex.antt =====
-- What the readers of auth.json in src/codex.rs and the resolver in src/lib.rs give for one file.
use mathlib.Core.Option.{map}
use mur_model_gateway.Common.{
  ◌≡◌, refl, ap, false, Option, none, some, String, ◌>>=◌, Bool-cases, Option-cases, inl, inr,
  Result, ok, arith,
}
use mur_model_gateway.Common.Text.{is_empty as is_blank}
use mur_model_gateway.Json.{Value, get, as_str}
use mur_model_gateway.Credentials.{
  Stores, CodexAuth, api_key, oauth_token, parse_auth, credential_in, read_auth, read_credential,
  resolve, codex, mode_is, parsed, readable, as_oauth, key_of,
}

key_of-no_token : (o : Option String) → (o >>= key_of >>= oauth_token) ≡ none
key_of-no_token none = refl
key_of-no_token (some k) = elim (Bool-cases (is_blank k)) [ inl e ↦ rw e refl | inr e ↦ rw e refl ]

as_oauth-token :
    (o : Option CodexAuth) → (map as_oauth o >>= oauth_token) ≡ map (λ a. a.access_token) o
as_oauth-token none = refl
as_oauth-token (some a) = refl

parse_auth-none :
    (from_str : String → Result Value String) (raw : String)
    → parsed (from_str raw) ≡ none
    → parse_auth from_str raw ≡ none
unfolding parse_auth
parse_auth-none from_str raw e = rw e refl

parse_auth-mode :
    (from_str : String → Result Value String) (raw : String) (v : Value)
    → parsed (from_str raw) ≡ some v
    → mode_is v "chatgpt" ≡ false
    → parse_auth from_str raw ≡ none
unfolding parse_auth
parse_auth-mode from_str raw v e m = rw (e, m) refl

oauth_token-credential_in :
    (from_str : String → Result Value String) (raw : String)
    → (credential_in from_str raw >>= oauth_token)
      ≡ map (λ a. a.access_token) (parse_auth from_str raw)
unfolding credential_in
oauth_token-credential_in from_str raw = elim (Option-cases (parsed (from_str raw))) [
  | inl e ↦ rw (e, parse_auth-none from_str raw e) refl
  | inr (v, e) ↦ elim (Bool-cases (mode_is v "chatgpt")) [
    | inl m ↦ rw (e, m) (as_oauth-token (parse_auth from_str raw))
    | inr m ↦ elim (Bool-cases (mode_is v "apikey")) [
      | inl k ↦
          rw (e, m, k, parse_auth-mode from_str raw v e m)
            (key_of-no_token (get v "OPENAI_API_KEY" >>= as_str))
      | inr k ↦ rw (e, m, k, parse_auth-mode from_str raw v e m) refl
    ]
  ]
]

read_credential-token :
    (w : Stores) (path : String)
    → (read_credential w path >>= oauth_token) ≡ map (λ a. a.access_token) (read_auth w path)
unfolding read_credential read_auth
read_credential-token w path = elim (Option-cases (readable (w.read_to_string path))) [
  | inl e ↦ rw e refl
  | inr (raw, e) ↦ rw e (oauth_token-credential_in w.from_str raw)
]

-- For a Codex file, the resolver that feeds the Anthropic path gives the access token that the OAuth
-- reader finds in the file, and no token where that reader finds none; so a file in API-key mode
-- offers nothing.
pub resolve-codex :
    (w : Stores) (path : String)
    → resolve w (codex path) ≡ ok (map (λ a. a.access_token) (read_auth w path))
unfolding resolve
resolve-codex w path = ap ok (read_credential-token w path)

key_of-api_key :
    (o : Option String) (k : String)
    → (o >>= key_of) ≡ some (api_key k)
    → (o ≡ some k) × (is_blank k ≡ false)
key_of-api_key none k h = ground arith
key_of-api_key (some s) k h = elim (Bool-cases (is_blank s)) [
  | inl e ↦ ground arith
  | inr e ↦ ground arith
]

credential_in-api_key :
    (from_str : String → Result Value String) (raw k : String)
    → credential_in from_str raw ≡ some (api_key k)
    → (parse_auth from_str raw ≡ none) × (is_blank k ≡ false)
unfolding credential_in
credential_in-api_key from_str raw k h = elim (Option-cases (parsed (from_str raw))) [
  | inl e ↦ ground arith
  | inr (v, e) ↦ elim (Bool-cases (mode_is v "chatgpt")) [
    | inl m ↦ ground arith
    | inr m ↦ elim (Bool-cases (mode_is v "apikey")) [
      | inl n ↦ (
        parse_auth-mode from_str raw v e m,
        (key_of-api_key (get v "OPENAI_API_KEY" >>= as_str) k (rw (e, m, n) at h)).1,
      )
      | inr n ↦ ground arith
    ]
  ]
]

-- A Codex credential that is an API key has a non-empty key, and its file holds no OAuth credential:
-- no file yields both.
pub read_credential-api_key :
    (w : Stores) (path k : String)
    → read_credential w path ≡ some (api_key k)
    → (read_auth w path ≡ none) × (is_blank k ≡ false)
unfolding read_credential read_auth
read_credential-api_key w path k h = elim (Option-cases (readable (w.read_to_string path))) [
  | inl e ↦ ground arith
  | inr (raw, e) ↦ rw e (credential_in-api_key w.from_str raw k (rw e at h))
]
