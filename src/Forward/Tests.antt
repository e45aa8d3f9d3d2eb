-- ===== src/Forward/Tests.antt =====
-- Runs of the decisions of `forward`.
use mur_model_gateway.Common.{
  ℕ, ◌≡◌, refl, true, false, [], ◌∷◌, Option, none, some, String, ok, err,
}
use mur_model_gateway.Common.Text.{str_eq, trim, contains, starts_with}
use mur_model_gateway.Credentials.{
  Stores, static, CodexCredential, oauth, api_key, resolve, not_found,
}
use mur_model_gateway.Route.{anthropic, codex, should_disguise}
use mur_model_gateway.Forward.Front.{client_label}
use mur_model_gateway.Forward.{
  AppState, HeaderMap, visible, header, has_client_credential, extract_oauth_shape_token,
  codex_cred, override_token, copy_headers, token_source_for, never_forwarded, is_hop_by_hop,
  codex_retry_eligible,
}
use mur_model_gateway.Forward.Ownership.{own_credential-kept, codex_retry_eligible-owned}

abbrev a_world : Stores
a_world = record {
  is_macos = false;
  read_keychain = ok none;
  read_to_string = λ p. not_found;
  exists = λ p. false;
  env = λ v. none;
  home = none;
  from_str = λ s. err "no JSON";
}

abbrev a_state : AppState
a_state = record {
  upstream_anthropic = "A";
  upstream_openai = "O";
  upstream_gemini = "G";
  upstream_codex = "C";
  upstream_codex_apikey = "K";
  token_source = static "own";
  token_source_codex = static "codex";
}

abbrev bare : HeaderMap
bare = ("host", visible "h") ∷ ("accept", visible "x") ∷ ("anthropic-beta", visible "b") ∷ []

abbrev keyed : HeaderMap
keyed = ("x-api-key", visible "sk-ant-api03") ∷ bare

copies :
    (copy_headers true false keyed ≡ (("accept", visible "x") ∷ [], "b" ∷ []))
    × (copy_headers false false bare
        ≡ (("accept", visible "x") ∷ ("anthropic-beta", visible "b") ∷ [], []))
unfolding copy_headers never_forwarded is_hop_by_hop str_eq
copies = (refl, refl)

own_credential-kept_example :
    (codex_cred a_world a_state anthropic keyed ≡ none)
    × (override_token a_world a_state anthropic "/v1/messages" keyed ≡ none)
unfolding has_client_credential header str_eq trim extract_oauth_shape_token contains starts_with
own_credential-kept_example =
    own_credential-kept a_world a_state anthropic "/v1/messages" keyed refl refl

overridden : override_token a_world a_state anthropic "/v1/messages" bare ≡ some "own"
unfolding override_token should_disguise extract_oauth_shape_token header str_eq resolve
overridden = refl

abbrev unauthorized : ℕ
unauthorized = 401

codex_retry_eligible-owned_example :
    (unauthorized ≡ 401)
    × (codex ≡ codex)
    × (has_client_credential bare ≡ false)
    × ((token : String) × (id : Option String) × (codex_cred a_world a_state codex bare
          ≡ some (oauth token id)))
unfolding codex_retry_eligible codex_cred has_client_credential header str_eq resolve
    token_source_for
codex_retry_eligible-owned_example =
    codex_retry_eligible-owned a_world a_state codex bare unauthorized refl

abbrev a_key : Option CodexCredential
a_key = some (api_key "sk-1")

label_of_cli :
    client_label (("user-agent", visible "claude-cli/2.1.296 (external, cli)") ∷ []) ≡ "claude-cli"
unfolding client_label
label_of_cli = refl

label_of_none : client_label [] ≡ "none"
unfolding client_label
label_of_none = refl

label_of_blank : client_label (("user-agent", visible "   ") ∷ []) ≡ "none"
unfolding client_label
label_of_blank = refl
