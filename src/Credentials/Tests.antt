-- ===== src/Credentials/Tests.antt =====
-- Runs of the credential readers.
use mur_model_gateway.Common.{
  ◌≡◌, refl, true, false, [], ◌∷◌, none, some, String, Result, ok, err, if◌then◌else◌, ◌↔◌,
}
use mur_model_gateway.Common.Text.{str_eq, trim}
use mur_model_gateway.Json.{Value, str, num, object, pos_int, get}
use mur_model_gateway.Common.Integer.{pos}
use mur_model_gateway.Credentials.{
  Stores, OauthCredential, resolve, resolve_credential, keychain, default_credentials_path,
  keychain_fallback, read_credentials_file_credential, parse_oauth_blob, text,
}
use mur_model_gateway.Credentials.Fallback.{Holds, parse_oauth_blob-ok_iff}

abbrev parser : String → Result Value String
parser s =
    if str_eq s "A"
    then ok (object (("auth_mode", str "apikey") ∷ ("OPENAI_API_KEY", str "sk-1") ∷ []))
    else if str_eq s "C"
    then ok (
        object (
          (
            "claudeAiOauth",
            object (("accessToken", str "t1") ∷ ("expiresAt", num (pos_int 9)) ∷ []),
          )
          ∷ []))
    else err "no JSON"

abbrev a_stores : Stores
a_stores = record {
  is_macos = false;
  read_keychain = ok none;
  read_to_string = λ p. if str_eq p "a" then text "A" else text "C";
  exists = λ p. true;
  env = λ v. none;
  home = some "h";
  from_str = parser;
}

abbrev a_credential : OauthCredential
a_credential = record { access_token = "t1"; expires_at_ms = some (pos 9) }

resolved : resolve a_stores keychain ≡ ok (some "t1")
unfolding resolve keychain_fallback resolve_credential default_credentials_path
    read_credentials_file_credential parse_oauth_blob get trim
resolved = refl

parse_oauth_blob-ok_iff_example :
    (parse_oauth_blob parser "C" ≡ ok (some a_credential)) ↔ Holds parser "C" a_credential
parse_oauth_blob-ok_iff_example = parse_oauth_blob-ok_iff parser "C" a_credential
