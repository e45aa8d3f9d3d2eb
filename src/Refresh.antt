-- ===== src/Refresh.antt =====
-- src/codex.rs, `refreshed_access_token` and `persist_rotation`: a refresh of the Codex token, which is
-- memoised, and the new pair in auth.json. The grant, the JSON parser and the disk's faults are
-- arguments; times are in milliseconds.
pub mod Document
pub mod Others
pub mod Writes
pub mod Flight
mod Tests
use mur_model_gateway.Common.{
  ℕ, Bool, true, false, ◌-◌, List, [], ◌∷◌, Option, none, some, String, if◌then◌else◌, ltb, is_some,
  ◌>>=◌,
}
use mur_model_gateway.Json.{Value, null, bool, num, str, arr, obj, Fields, end, field, find, insert}
use mur_model_gateway.Credentials.{CodexAuth}
use mur_model_gateway.Keychain.{cache_ttl}

pub record RefreshedTokens : Type 0 where
  pub access_token : String
  pub refresh_token : Option String

-- `tokens[key] = value`: null becomes an object, and what is no object panics
abbrev pub set_key : Value → String → Value → Option Value
set_key (obj fs) k v = some (obj (insert k v fs))
set_key null k v = some (obj (field k v end))
set_key _ k v = none

abbrev pub set_refresh : Option String → Value → Option Value
set_refresh none tokens = some tokens
set_refresh (some rt) tokens = set_key tokens "refresh_token" (str rt)

abbrev pub rotate_tokens : RefreshedTokens → Value → Option Value
rotate_tokens new tokens =
    set_key tokens "access_token" (str new.access_token) >>= set_refresh new.refresh_token

-- the document that `persist_rotation` writes
unfoldable pub rotate : Value → RefreshedTokens → Option Value
rotate (obj doc) new =
    find doc "tokens" >>= rotate_tokens new >>= λ tokens. some (obj (insert "tokens" tokens doc))
rotate _ new = none

-- The two files that `persist_rotation` touches: auth.json, and the temporary file beside it.
pub record Disk : Type 0 where
  pub auth : String
  pub tmp : Option String

-- What fails: the creation, the write, of which some part may have reached the disk, the sync, the
-- rename, or the removal of the temporary file, whose error is ignored.
pub record Faults : Type 0 where
  pub create : Bool
  pub write : Option String
  pub sync : Bool
  pub rename : Bool
  pub remove : Bool

-- The drop of the guard on the temporary file.
abbrev pub removed : Bool → Disk → Disk
removed true d = d
removed false d = record d { tmp = none }

abbrev pub written : Disk → String → Disk
written d bytes = record d { tmp = some bytes }

abbrev pub renamed : Disk → String → Disk
renamed d bytes = record d { auth = bytes; tmp = none }

-- The write of the new document: every state of the two files after the first, and whether it succeeded.
unfoldable pub write_rotation : Faults → Disk → String → List Disk × Bool
write_rotation f d bytes =
    let fresh = written d "" in
    let full = written d bytes in
    if is_some d.tmp then ([], false) else if f.create then ([], false) else elim f.write [
      | some part ↦ (fresh ∷ written d part ∷ removed f.remove (written d part) ∷ [], false)
      | none ↦
          if f.sync
          then (fresh ∷ full ∷ removed f.remove full ∷ [], false)
          else if f.rename
          then (fresh ∷ full ∷ removed f.remove full ∷ [], false)
          else (fresh ∷ full ∷ renamed d bytes ∷ [], true)
    ]

-- The memo of the last refresh: when, and the token.
abbrev pub Memo : Type 0
Memo = Option (ℕ × String)

abbrev pub memoised : Memo → ℕ → Option String
memoised none now = none
memoised (some (at, token)) now = if ltb (now - at) cache_ttl then some token else none

-- The grant for a refresh token: the token, the memo, and the refresh token that the grant was called
-- with.
abbrev pub granted_with :
    Memo → ℕ → String → Option RefreshedTokens → Option String × Memo × Option String
granted_with memo now rt none = (none, memo, some rt)
granted_with memo now rt (some new) = (some new.access_token, some (now, new.access_token), some rt)

abbrev pub redeem :
    Memo
    → ℕ
    → (String → Option RefreshedTokens)
    → Option String
    → Option String × Memo × Option String
redeem memo now grant none = (none, memo, none)
redeem memo now grant (some rt) = granted_with memo now rt (grant rt)

-- `refreshed_access_token`, which holds the lock throughout: the token, the memo, and the refresh token
-- that the grant is called with where it is; from what auth.json holds and what a grant answers
unfoldable pub refreshed_access_token :
    Memo
    → ℕ
    → Option CodexAuth
    → (String → Option RefreshedTokens)
    → Option String × Memo × Option String
refreshed_access_token memo now auth grant = elim (memoised memo now) [
  | some token ↦ (some token, memo, none)
  | none ↦ redeem memo now grant (auth >>= λ a. a.refresh_token)
]
