-- ===== src/Refresh/Document.antt =====
-- The document that a rotation writes: it holds the new pair, and all else as before.
use mur_model_gateway.Common.{
  ◌≡◌, refl, true, Option, none, some, String, or_else, ◌>>=◌, Option-cases, Bool-cases, inl, inr,
  arith, bind-some,
}
use mathlib.Core.Option.{some-injective, none-ne-some}
use mur_model_gateway.Common.Text.{str_eq}
use mur_model_gateway.Json.{
  Value, null, bool, num, str, arr, obj, Fields, find, insert, get, as_str,
}
use mur_model_gateway.Json.Laws.{find-insert}
use mur_model_gateway.Credentials.{CodexAuth, auth_in, auth_of, tokens_auth, mode_is}
use mur_model_gateway.Refresh.{RefreshedTokens, rotate_tokens, rotate}

-- The credential that a file holds after a rotation.
abbrev pub rotated_auth : CodexAuth → RefreshedTokens → CodexAuth
rotated_auth a new = record {
  access_token = new.access_token;
  refresh_token = or_else new.refresh_token a.refresh_token;
  account_id = a.account_id;
}

auth_at : Value → String → CodexAuth
auth_at tokens token = record {
  access_token = token;
  refresh_token = get tokens "refresh_token" >>= as_str;
  account_id = get tokens "account_id" >>= as_str;
}

auth_of-some :
    (tokens : Value) (o : Option Value) (a : CodexAuth)
    → auth_of tokens o ≡ some a
    → (token : String) × (auth_at tokens token ≡ a)
unfolding auth_at
auth_of-some tokens none a h = absurd (none-ne-some a h)
auth_of-some tokens (some t) a h = elim (Option-cases (as_str t)) [
  | inl e ↦ absurd (none-ne-some a (rw (e, auth_of) at h))
  | inr (s, e) ↦ (s, some-injective (auth_at tokens s) a (rw (e, auth_of) at h))
]

rotated-obj :
    (acc : String) (rt : Option String) (fs : Fields) (token : String)
    → (t : Value) × (rotate_tokens (record { access_token = acc; refresh_token = rt }) (obj fs)
        ≡ some t)
      × (tokens_auth t
          ≡ some (
              rotated_auth
                (auth_at (obj fs) token)
                (record { access_token = acc; refresh_token = rt })))
unfolding auth_at get str_eq
rotated-obj acc none fs token = (
  obj (insert "access_token" (str acc) fs),
  refl,
  rw
      (
        find-insert "access_token" "access_token" (str acc) fs,
        find-insert "access_token" "refresh_token" (str acc) fs,
        find-insert "access_token" "account_id" (str acc) fs,
        auth_of,
      )
      refl,
)
rotated-obj acc (some rt) fs token = (
  obj (insert "refresh_token" (str rt) (insert "access_token" (str acc) fs)),
  refl,
  rw
      (
        find-insert "refresh_token" "access_token" (str rt) (insert "access_token" (str acc) fs),
        find-insert "access_token" "access_token" (str acc) fs,
        find-insert "refresh_token" "refresh_token" (str rt) (insert "access_token" (str acc) fs),
        find-insert "refresh_token" "account_id" (str rt) (insert "access_token" (str acc) fs),
        find-insert "access_token" "account_id" (str acc) fs,
        auth_of,
      )
      refl,
)

rotate_tokens-auth :
    (new : RefreshedTokens) (tokens : Value) (a : CodexAuth)
    → tokens_auth tokens ≡ some a
    → (t : Value) × (rotate_tokens new tokens ≡ some t)
      × (tokens_auth t ≡ some (rotated_auth a new))
unfolding get
rotate_tokens-auth new (obj fs) a h =
    let (token, same) = auth_of-some (obj fs) (get (obj fs) "access_token") a h in
    rw (← same) (rotated-obj new.access_token new.refresh_token fs token)
rotate_tokens-auth new null a h = absurd (none-ne-some a h)
rotate_tokens-auth new (bool b) a h = absurd (none-ne-some a h)
rotate_tokens-auth new (num n) a h = absurd (none-ne-some a h)
rotate_tokens-auth new (str s) a h = absurd (none-ne-some a h)
rotate_tokens-auth new (arr vs) a h = absurd (none-ne-some a h)

mode_is-some :
    (v : Value) (mode : String) → mode_is v mode ≡ true → (m : Value) × (get v "auth_mode" ≡ some m)
mode_is-some v mode h = elim (Option-cases (get v "auth_mode")) [
  | inl e ↦ ground arith
  | inr (m, e) ↦ (m, e)
]

auth_in-tokens :
    (v : Value) (a : CodexAuth)
    → auth_in v ≡ some a
    → (mode_is v "chatgpt" ≡ true)
      × ((t : Value) × (get v "tokens" ≡ some t) × (tokens_auth t ≡ some a))
auth_in-tokens v a h = elim (Bool-cases (mode_is v "chatgpt")) [
  | inl e ↦ (e, bind-some (get v "tokens") tokens_auth a (rw (e, auth_in) at h))
  | inr e ↦ absurd (none-ne-some a (rw (e, auth_in) at h))
]

rotate-obj :
    (doc : Fields) (new : RefreshedTokens) (a : CodexAuth) (tokens t : Value)
    → mode_is (obj doc) "chatgpt" ≡ true
    → find doc "tokens" ≡ some tokens
    → rotate_tokens new tokens ≡ some t
    → tokens_auth t ≡ some a
    → (rotate (obj doc) new ≡ some (obj (insert "tokens" t doc)))
      × (auth_in (obj (insert "tokens" t doc)) ≡ some a)
unfolding rotate get str_eq
rotate-obj doc new a tokens t mode found turned holds =
    let mode' : mode_is (obj (insert "tokens" t doc)) "chatgpt" ≡ true =
      rw (find-insert "tokens" "auth_mode" t doc, mode_is) mode in
    (rw (found, turned) refl, rw (mode', find-insert "tokens" "tokens" t doc) holds)

-- A rotation of a document that holds an OAuth credential succeeds, and the document that it writes
-- holds the new access token, the new refresh token or else the old one, and the same account.
pub rotate-auth :
    (v : Value) (new : RefreshedTokens) (a : CodexAuth)
    → auth_in v ≡ some a
    → (v' : Value) × (rotate v new ≡ some v') × (auth_in v' ≡ some (rotated_auth a new))
unfolding get
rotate-auth (obj doc) new a h =
    let (mode, (tokens, found, holds)) = auth_in-tokens (obj doc) a h in
    let (t, turned, now) = rotate_tokens-auth new tokens a holds in
    let (out, again) = rotate-obj doc new (rotated_auth a new) tokens t mode found turned now in
    (obj (insert "tokens" t doc), out, again)
rotate-auth null new a h = absurd (none-ne-some a h)
rotate-auth (bool b) new a h = absurd (none-ne-some a h)
rotate-auth (num n) new a h = absurd (none-ne-some a h)
rotate-auth (str s) new a h = absurd (none-ne-some a h)
rotate-auth (arr vs) new a h = absurd (none-ne-some a h)
