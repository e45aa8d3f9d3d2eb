-- ===== src/Forward/Exchange/Tests.antt =====
-- Runs of an exchange.
use mur_model_gateway.Common.{◌≡◌, ◌≤◌, refl, false, [], ◌∷◌, none, some, length, All, ok, err, ◌*◌}
use mur_model_gateway.Common.Integer.{pos}
use mur_model_gateway.Common.Text.{str_eq, trim, contains, starts_with}
use mur_model_gateway.Credentials.{Stores, env_var, disabled, not_found}
use mur_model_gateway.Forward.Streaming.{chunk}
use mur_model_gateway.Route.{should_translate, is_under, anthropic}
use mur_model_gateway.Forward.{
  AppState, HeaderMap, visible, copy_headers, has_client_credential, extract_oauth_shape_token,
  header,
}
use mur_model_gateway.Forward.Exchange.{
  Outside, Inbound, Reply, exchange, request, replied, reply_headers,
}
use mur_model_gateway.Forward.Exchange.Retries.{exchange-sends, IsSame}
use mur_model_gateway.Forward.Exchange.Passthrough.{exchange-passthrough}

abbrev a_world : Stores
a_world = record {
  is_macos = false;
  read_keychain = ok none;
  read_to_string = λ p. not_found;
  exists = λ p. false;
  env = λ v. some "old";
  home = none;
  from_str = λ s. err "no JSON";
}

abbrev a_state : AppState
a_state = record {
  upstream_anthropic = "A";
  upstream_openai = "O";
  upstream_gemini = "G";
  upstream_codex = "C";
  upstream_codex_apikey = "K";
  token_source = env_var "T";
  token_source_codex = disabled;
}

abbrev rejected_reply : Reply
rejected_reply = record { status = 401; headers = []; body = 7 ∷ [] }

abbrev outside : Outside
outside = record {
  apply_disguise_headers = λ h t b v. some (("authorization", visible t) ∷ h);
  inject_billing_prefix = λ b v. some (1 ∷ b);
  apply_codex_headers = λ h t id. h;
  upstream = λ n sent. some rejected_reply;
  refreshed_access_token = λ p. none;
  readings = λ n. ok (some "new");
  clock = λ n. n * 50;
  stored_now = ok none;
  version = "2";
  now_ms = pos 5;
  pulls = λ b. chunk b ∷ [];
  lossy = λ b. "data";
  from_str = λ s. none;
  to_string = λ v. "{}";
}

abbrev a_request : HeaderMap → Inbound
a_request headers = record {
  provider = anthropic;
  path_only = "/v1/messages";
  headers = headers;
  url = "A/v1/messages";
  body = 3 ∷ [];
  client_model = none;
  client_wants_stream = false;
}

abbrev keyed : HeaderMap
keyed = ("x-api-key", visible "sk-ant-api03") ∷ ("host", visible "h") ∷ []

exchange-sends_example :
    (length (exchange outside a_world a_state (a_request [])).0 ≤ 2)
    × All
        (IsSame outside a_world a_state (a_request []))
        (exchange outside a_world a_state (a_request [])).0
exchange-sends_example = exchange-sends outside a_world a_state (a_request [])

exchange-passthrough_example : exchange outside a_world a_state (a_request keyed) ≡ (
  request outside a_world a_state (a_request keyed) (copy_headers false false keyed).0 (3 ∷ [])
      ∷ [],
  replied 401 (reply_headers [] []) (7 ∷ []),
)
unfolding should_translate is_under has_client_credential header str_eq trim
    extract_oauth_shape_token contains starts_with
exchange-passthrough_example =
    exchange-passthrough outside a_world a_state (a_request keyed) rejected_reply refl refl refl
      refl
