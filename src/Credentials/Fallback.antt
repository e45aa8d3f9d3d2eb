-- ===== src/Credentials/Fallback.antt =====
-- src/lib.rs, `keychain_fallback` and `TokenSource::resolve`, and src/keychain.rs, `parse_oauth_blob`:
-- which of two stores a token comes from, and what a stored blob holds.
use mur_model_gateway.Common.{
  ◌≡◌, ◌↔◌, ◌⊎◌, refl, true, false, Option, none, some, String, ◌>>=◌, Bool-cases, Option-cases,
  Result-cases, inl, inr, Result, ok, err, arith,
}
use mur_model_gateway.Common.Text.{trim}
use mur_model_gateway.Json.{Value, get, as_str, as_i64}
use mur_model_gateway.Credentials.{
  Stores, OauthCredential, Read, KeychainError, resolve, resolve_credential, keychain,
  read_credentials_file_credential, credentials_file, default_credentials_path, keychain_fallback,
  parse_oauth_blob, token_of, off_macos,
}

-- The keychain has no credential for the user.
abbrev pub IsMiss : Read → Type 0
IsMiss r = (r ≡ ok none) ⊎ ((e : KeychainError) × (r ≡ err e))

-- Off macOS, where the keychain has no credential and the credentials file exists, the keychain source
-- gives exactly what a source for that file gives, its errors included.
pub resolve-fallback :
    (w : Stores) (path : String)
    → w.is_macos ≡ false
    → IsMiss w.read_keychain
    → default_credentials_path w ≡ some path
    → w.exists path ≡ true
    → resolve w keychain ≡ resolve w (credentials_file path)
unfolding resolve keychain_fallback resolve_credential default_credentials_path
resolve-fallback w path mac (inl k) home there = rw (mac, k, home, there) refl
resolve-fallback w path mac (inr (e, k)) home there = rw (mac, k, home, there) refl

off_macos-no_file :
    (w : Stores)
    → ((path : String) → default_credentials_path w ≡ some path → w.exists path ≡ false)
    → (r : Read) → off_macos w r (default_credentials_path w) ≡ r
off_macos-no_file w h (ok (some c)) = refl
off_macos-no_file w h (ok none) = elim (Option-cases (default_credentials_path w)) [
  | inl e ↦ rw e refl
  | inr (p, e) ↦ rw (e, h p e) refl
]
off_macos-no_file w h (err x) = elim (Option-cases (default_credentials_path w)) [
  | inl e ↦ rw e refl
  | inr (p, e) ↦ rw (e, h p e) refl
]

-- The keychain's own answer stands on macOS, wherever it holds a credential, and where no credentials
-- file exists.
pub resolve-keychain :
    (w : Stores)
    → (w.is_macos ≡ true)
      ⊎ (((c : OauthCredential) × (w.read_keychain ≡ ok (some c)))
          ⊎ ((path : String) → default_credentials_path w ≡ some path → w.exists path ≡ false))
    → resolve_credential w keychain ≡ w.read_keychain
unfolding resolve_credential keychain_fallback read_credentials_file_credential
    default_credentials_path
resolve-keychain w (inl mac) = rw mac refl
resolve-keychain w (inr (inl (c, k))) = elim (Bool-cases w.is_macos) [
  | inl m ↦ rw m refl
  | inr m ↦ rw (m, k) refl
]
resolve-keychain w (inr (inr none_there)) = elim (Bool-cases w.is_macos) [
  | inl m ↦ rw m refl
  | inr m ↦ rw m (off_macos-no_file w none_there w.read_keychain)
]

token_of-found :
    (blob : Value) (t : Option Value) (c : OauthCredential)
    → token_of blob t ≡ ok (some c)
    → ((t >>= as_str) ≡ some c.access_token) × ((get blob "expiresAt" >>= as_i64) ≡ c.expires_at_ms)
token_of-found blob none c h = ground arith
token_of-found blob (some t) c h = elim (Option-cases (as_str t)) [
  | inl e ↦ ground arith
  | inr (s, e) ↦ ground arith
]

found-token_of :
    (blob : Value) (t : Option Value) (c : OauthCredential)
    → (t >>= as_str) ≡ some c.access_token
    → (get blob "expiresAt" >>= as_i64) ≡ c.expires_at_ms
    → token_of blob t ≡ ok (some c)
found-token_of blob none c h k = ground arith
found-token_of blob (some t) c h k = rw (h, k, token_of) refl

-- The text holds this credential.
abbrev pub Holds : (String → Result Value String) → String → OauthCredential → Type 0
Holds from_str raw c =
    (creds : Value) × (blob : Value) × (from_str (trim raw) ≡ ok creds)
    × (get creds "claudeAiOauth" ≡ some blob)
    × ((get blob "accessToken" >>= as_str) ≡ some c.access_token)
    × ((get blob "expiresAt" >>= as_i64) ≡ c.expires_at_ms)

parse_oauth_blob-Holds :
    (from_str : String → Result Value String) (raw : String) (c : OauthCredential)
    → parse_oauth_blob from_str raw ≡ ok (some c)
    → Holds from_str raw c
unfolding parse_oauth_blob
parse_oauth_blob-Holds from_str raw c h = elim (Result-cases (from_str (trim raw))) [
  | inr (e, k) ↦ ground arith
  | inl (v, k) ↦ elim (Option-cases (get v "claudeAiOauth")) [
    | inl n ↦ ground arith
    | inr (b, n) ↦
        let (t, x) = token_of-found b (get b "accessToken") c (rw (k, n, parse_oauth_blob) at h) in
        (v, b, k, n, t, x)
  ]
]

-- Reading a stored blob gives a credential exactly where the trimmed text is JSON whose
-- `claudeAiOauth` has that access token as a string, and then the expiry is its `expiresAt` where that
-- is an i64, or else unknown.
pub parse_oauth_blob-ok_iff :
    (from_str : String → Result Value String) (raw : String) (c : OauthCredential)
    → (parse_oauth_blob from_str raw ≡ ok (some c)) ↔ Holds from_str raw c
unfolding parse_oauth_blob
parse_oauth_blob-ok_iff from_str raw c = (
  parse_oauth_blob-Holds from_str raw c,
  λ (v, b, k, n, t, x). rw (k, n, parse_oauth_blob) (found-token_of b (get b "accessToken") c t x),
)
