-- ===== src/Refresh/Tests.antt =====
-- Runs of a refresh.
use mur_model_gateway.Common.{true, false, ℕ, ◌≡◌, refl, true, false, [], ◌∷◌, none, some, All}
use mur_model_gateway.Common.Text.{str_eq}
use mur_model_gateway.Json.{Value, object, str, get, find, insert}
use mur_model_gateway.Credentials.{CodexAuth, auth_in}
use mur_model_gateway.Refresh.{RefreshedTokens, rotate, Disk, Faults, write_rotation}
use mur_model_gateway.Refresh.Document.{rotate-auth, rotated_auth}
use mur_model_gateway.Refresh.Others.{rotate-others, token_member}
use mur_model_gateway.Refresh.Writes.{write_rotation-atomic, IsWhole, Ends}
use mur_model_gateway.Refresh.Flight.{Call, asks, Spaced, asks-Spaced}

abbrev a_document : Value
a_document = object (
    ("auth_mode", str "chatgpt")
    ∷ ("tokens", object (("access_token", str "a") ∷ ("refresh_token", str "r") ∷ []))
    ∷ [])

abbrev an_auth : CodexAuth
an_auth = record { access_token = "a"; refresh_token = some "r"; account_id = none }

abbrev new_pair : RefreshedTokens
new_pair = record { access_token = "b"; refresh_token = none }

rotate-auth_example :
    (v : Value) × (rotate a_document new_pair ≡ some v)
    × (auth_in v ≡ some (rotated_auth an_auth new_pair))
unfolding get str_eq
rotate-auth_example = rotate-auth a_document new_pair an_auth refl

abbrev a_rotated : Value
a_rotated = object (
    ("auth_mode", str "chatgpt")
    ∷ ("tokens", object (("access_token", str "b") ∷ ("refresh_token", str "r") ∷ []))
    ∷ [])

rotate-others_example :
    (get a_rotated "auth_mode" ≡ get a_document "auth_mode")
    × (token_member a_rotated "account_id" ≡ token_member a_document "account_id")
unfolding rotate get str_eq find insert
rotate-others_example =
    rotate-others a_document a_rotated new_pair "auth_mode" "account_id" refl refl refl refl

abbrev a_disk : Disk
a_disk = record { auth = "old"; tmp = none }

abbrev no_rename : Faults
no_rename = record { create = false; write = none; sync = false; rename = true; remove = true }

write_rotation-atomic_example :
    All (IsWhole "old" "new") (write_rotation no_rename a_disk "new").0
    × Ends true a_disk "new" (write_rotation no_rename a_disk "new")
write_rotation-atomic_example = write_rotation-atomic no_rename a_disk "new"

abbrev a_call : ℕ → Call
a_call now = record { now = now; auth = some an_auth; grant = λ rt. some new_pair }

-- A grant that fails between two that do not.
abbrev refused_call : ℕ → Call
refused_call now = record { now = now; auth = some an_auth; grant = λ rt. none }

burst :
    asks none (refused_call 4 ∷ a_call 5 ∷ a_call 6 ∷ a_call 60004 ∷ refused_call 60005 ∷ [])
    ≡ (4, false) ∷ (5, true) ∷ (60005, false) ∷ []
unfolding asks
burst = refl

asks-Spaced_example : Spaced none (asks none (a_call 5 ∷ a_call 6 ∷ a_call 60005 ∷ []))
asks-Spaced_example = asks-Spaced none (a_call 5 ∷ a_call 6 ∷ a_call 60005 ∷ [])
