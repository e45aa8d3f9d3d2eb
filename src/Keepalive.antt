-- ===== src/Keepalive.antt =====
-- src/oauth_keepalive.rs: the loop that has Claude Code refresh its credential. A tick of the loop reads
-- the stored expiry and the clock; what it reads is an argument. Times are in milliseconds.
pub mod Spawns
mod Tests
use mur_model_gateway.Common.{
  ℕ, Bool, true, false, not, ◌&&◌, ◌||◌, ◌==◌, List, [], ◌∷◌, ◌++◌, Option, none, some, String,
  if◌then◌else◌, any,
}
use mur_model_gateway.Common.Text.{str_eq, trim}
use mur_model_gateway.Common.Integer.{ℤ, pos, negsuc, leb_ℤ, ltb_ℤ, add_i64, sub_i64}
use mur_model_gateway.Credentials.{
  TokenSource, keychain, credentials_file, codex, env_var, static, disabled, Read,
}
use mur_model_gateway.Common.{ok, err}

abbrev pub lead : ℕ
lead = 120000

abbrev pub failure_backoff : ℕ
failure_backoff = 1800000

abbrev pub opt_outs : List String
opt_outs = "0" ∷ "false" ∷ "off" ∷ "no" ∷ []

-- `enabled_from`; the letters are lowered by the `to_lower` given
unfoldable pub enabled_from : (String → String) → Option String → Bool
unfolding trim
enabled_from to_lower none = true
enabled_from to_lower (some v) = not (any (str_eq (to_lower (trim v))) opt_outs)

unfoldable pub refresh_due : Option ℤ → ℤ → Bool
refresh_due none now = false
refresh_due (some e) now = leb_ℤ (sub_i64 e lead) now

unfoldable pub needs_relogin : Option ℤ → Bool
needs_relogin none = false
needs_relogin (some e) = leb_ℤ e (pos 0)

-- `stored_expiry`
unfoldable pub stored_expiry : Read → Option ℤ
stored_expiry (ok (some c)) = c.expires_at_ms
stored_expiry (ok none) = none
stored_expiry (err e) = none

-- Where the loop runs at all: the variable does not turn it off, the credential is one of Claude
-- Code's own, and its program is found.
unfoldable pub starts : Bool → TokenSource → Option String → Bool
starts enabled keychain (some bin) = enabled
starts enabled (credentials_file path) (some bin) = enabled
starts enabled source bin = false

-- What the loop keeps from tick to tick.
pub record Loop : Type 0 where
  pub backoff_until_ms : ℤ
  pub relogin_warned : Bool

abbrev pub new : Loop
new = record { backoff_until_ms = pos 0; relogin_warned = false }

-- What one tick reads: the expiry before and after a run, and the clock at its four readings.
pub record Tick : Type 0 where
  pub before : Option ℤ
  pub at : ℤ
  pub due_at : ℤ
  pub after : Option ℤ
  pub after_at : ℤ
  pub failed_at : ℤ

pub data Event : Type 0 where
  relogin_warning : Event
  -- a run of claude
  spawned : Tick → Event

abbrev pub equal_ℤ : ℤ → ℤ → Bool
equal_ℤ (pos m) (pos n) = m == n
equal_ℤ (negsuc m) (negsuc n) = m == n
equal_ℤ (pos m) (negsuc n) = false
equal_ℤ (negsuc m) (pos n) = false

abbrev pub equal_expiry : Option ℤ → Option ℤ → Bool
equal_expiry none none = true
equal_expiry (some a) (some b) = equal_ℤ a b
equal_expiry none (some b) = false
equal_expiry (some a) none = false

-- the run, and the backoff after it where it changed nothing
unfoldable pub run_claude : Loop → Tick → Loop × List Event
run_claude s t =
    if not (equal_expiry t.after t.before) && not (refresh_due t.after t.after_at)
    then (s, spawned t ∷ [])
    else (record s { backoff_until_ms = add_i64 t.failed_at failure_backoff }, spawned t ∷ [])

-- one pass of the loop
unfoldable pub tick : Loop → Tick → Loop × List Event
tick s t =
    if needs_relogin t.before
    then (if s.relogin_warned
        then (s, [])
        else (record s { relogin_warned = true }, relogin_warning ∷ []))
    else if ltb_ℤ t.at s.backoff_until_ms || not (refresh_due t.before t.due_at)
    then (record s { relogin_warned = false }, [])
    else run_claude (record s { relogin_warned = false }) t

unfoldable pub run : Loop → List Tick → List Event
run s [] = []
run s (t ∷ ts) = let (s', events) = tick s t in events ++ run s' ts
