-- ===== src/Forward/Front.antt =====
-- src/lib.rs around `forward`: `client_label`, the guard of a request in flight with `proxy`, and the
-- answer of `health`.
use Prim.Native.Char.{Char, code}
use mur_model_gateway.Common.{
  ℕ, ◌-◌, Bool, true, false, ◌||◌, ◌==◌, Option, none, some, String, if◌then◌else◌, ◌>>=◌, get_or,
  Result, ok, err, [], ◌∷◌, min, ◌^◌,
}
use mur_model_gateway.Common.Text.{push_str, trim, first_split, is_whitespace, is_empty as is_blank}
use mur_model_gateway.Common.Text.Search.{take_chars}
use mur_model_gateway.Json.{Value, bool, str, object}
use mur_model_gateway.Credentials.{
  Stores, TokenSource, disabled, codex, keychain, env_var, credentials_file, static,
  CodexCredential, oauth, api_key, Read, read_credential, resolve_credential,
}
use mur_model_gateway.Route.{Provider, name, detect_provider}
use mur_model_gateway.Forward.{HeaderMap, header, to_str, AppState}

abbrev ends_product : Char → Bool
ends_product c = code c == b'/' || is_whitespace c

abbrev none_if_blank : String → String
none_if_blank s = if is_blank s then "none" else s

unfoldable pub client_label : HeaderMap → String
unfolding header trim first_split is_whitespace take_chars
client_label headers =
    let ua = trim (get_or (header headers "user-agent" >>= to_str) "") in
    none_if_blank (take_chars 32 (first_split ends_product ua))

-- A request that `proxy` handles.
pub record InFlight : Type 0 where
  pub http_method : String
  pub path : String
  pub provider : Provider
  pub started : ℕ
  pub answered : Bool

-- The line that the drop of the guard logs.
pub record WentAway : Type 0 where
  pub http_method : String
  pub path : String
  pub provider : String
  pub waited_ms : ℕ

-- `InFlight::drop`, with what `elapsed` says in milliseconds
unfoldable pub drop_in_flight : InFlight → ℕ → Option WentAway
unfolding name
drop_in_flight g now =
    if g.answered
    then none
    else some record {
      http_method = g.http_method;
      path = g.path;
      provider = name g.provider;
      waited_ms = min (now - g.started) (2 ^ 64 - 1);
    }

-- the guard as `proxy` makes it
abbrev pub in_flight : String → String → ℕ → InFlight
in_flight m path now = record {
  http_method = m;
  path = path;
  provider = detect_provider path;
  started = now;
  answered = false;
}

-- An error as anyhow's `Display` prints it, and with its causes.
pub record Failure : Type 0 where
  pub outermost : String
  pub chain : String

-- What the client gets: what `forward` answers, or a status and a text.
pub data Reply (R : Type 0) : Type 0 where
  from_upstream : R → Reply R
  plain : ℕ → String → Reply R

abbrev pub reply : {R : Type 0} → Result R Failure → Reply R
reply (ok r) = from_upstream r
reply (err e) = plain 502 (push_str "mur-model-gateway: " e.outermost)

-- How the future of `forward` ends: with a result, or dropped when the client hangs up.
pub data Fate (R : Type 0) : Type 0 where
  finished : Result R Failure → Fate R
  hung_up : Fate R

-- `proxy` to the drop of its guard: the reply, if one is made, and the line of the guard
unfoldable pub proxy :
    {R : Type 0} → String → String → ℕ → Fate R → ℕ → Option (Reply R) × Option WentAway
unfolding drop_in_flight detect_provider push_str
proxy m path started (finished r) now =
    (some (reply r), drop_in_flight (record (in_flight m path started) { answered = true }) now)
proxy m path started hung_up now = (none, drop_in_flight (in_flight m path started) now)

abbrev codex_kind : Option CodexCredential → String
codex_kind (some (oauth access account)) = "chatgpt"
codex_kind (some (api_key key)) = "apikey"
codex_kind none = "missing"

abbrev claude_kind : Read → String
claude_kind (ok (some c)) = "oauth"
claude_kind (ok none) = "missing"
claude_kind (err e) = "missing"

module _ (w : Stores) where
  abbrev codex_health : TokenSource → String
  codex_health (codex path) = codex_kind (read_credential w path)
  codex_health keychain = "missing"
  codex_health (env_var v) = "missing"
  codex_health (credentials_file f) = "missing"
  codex_health (static t) = "missing"
  codex_health disabled = "missing"

  -- `health`, on the version of the crate, the two hooks and the switch of the compression
  unfoldable pub health : String → Bool → Bool → Bool → AppState → Value
  unfolding read_credential resolve_credential
  health version codex_hook claude_hook compress s = object (
      ("status", str "ok")
      ∷ ("version", str version)
      ∷ ("codexHook", bool codex_hook)
      ∷ ("claudeHook", bool claude_hook)
      ∷ ("codexCredential", str (codex_health s.token_source_codex))
      ∷ ("claudeCredential", str (claude_kind (resolve_credential w s.token_source)))
      ∷ ("compression", bool compress)
      ∷ [])
