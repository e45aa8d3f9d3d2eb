-- ===== src/Refresh/Others.antt =====
-- The rest of auth.json, which a rotation leaves alone.
use mur_model_gateway.Common.{
  ◌≡◌, refl, ap, ◌∙◌, sym, false, Option, none, some, String, ◌>>=◌, bind-some,
}
use mathlib.Core.Option.{some-injective, none-ne-some}
use mur_model_gateway.Common.Text.{str_eq}
use mur_model_gateway.Json.{
  Value, null, bool, num, str, arr, obj, Fields, end, field, find, insert, get,
}
use mur_model_gateway.Json.Laws.{find-insert}
use mur_model_gateway.Refresh.{RefreshedTokens, set_key, set_refresh, rotate_tokens, rotate}

insert-other :
    (k j : String) (v : Value) (fs : Fields)
    → str_eq k j ≡ false
    → find (insert k v fs) j ≡ find fs j
insert-other k j v fs h = rw (find-insert k j v fs, h) refl

set_key-other :
    (tokens : Value) (k : String) (v t : Value) (j : String)
    → str_eq k j ≡ false
    → set_key tokens k v ≡ some t
    → get t j ≡ get tokens j
unfolding get
set_key-other (obj fs) k v t j h e =
    rw (← some-injective (obj (insert k v fs)) t e) (insert-other k j v fs h)
set_key-other null k v t j h e = rw (← some-injective (obj (field k v end)) t e, h, find) refl
set_key-other (bool b) k v t j h e = absurd (none-ne-some t e)
set_key-other (num n) k v t j h e = absurd (none-ne-some t e)
set_key-other (str s) k v t j h e = absurd (none-ne-some t e)
set_key-other (arr vs) k v t j h e = absurd (none-ne-some t e)

set_refresh-other :
    (rt : Option String) (tokens t : Value) (j : String)
    → str_eq "refresh_token" j ≡ false
    → set_refresh rt tokens ≡ some t
    → get t j ≡ get tokens j
set_refresh-other none tokens t j h e = ap (λ x. get x j) (sym (some-injective tokens t e))
set_refresh-other (some rt) tokens t j h e = set_key-other tokens "refresh_token" (str rt) t j h e

rotate_tokens-other :
    (new : RefreshedTokens) (tokens t : Value) (j : String)
    → str_eq "access_token" j ≡ false
    → str_eq "refresh_token" j ≡ false
    → rotate_tokens new tokens ≡ some t
    → get t j ≡ get tokens j
rotate_tokens-other new tokens t j h k e =
    let (u, first, second) =
      bind-some (set_key tokens "access_token" (str new.access_token))
        (set_refresh new.refresh_token) t e in
    set_refresh-other new.refresh_token u t j k second
    ∙ set_key-other tokens "access_token" (str new.access_token) u j h first

-- The member of a document's tokens.
abbrev pub token_member : Value → String → Option Value
token_member v j = get v "tokens" >>= λ tokens. get tokens j

rotate-obj_others :
    (doc : Fields) (new : RefreshedTokens) (tokens t : Value) (k j : String)
    → find doc "tokens" ≡ some tokens
    → rotate_tokens new tokens ≡ some t
    → str_eq "tokens" k ≡ false
    → str_eq "access_token" j ≡ false
    → str_eq "refresh_token" j ≡ false
    → (get (obj (insert "tokens" t doc)) k ≡ get (obj doc) k)
      × (token_member (obj (insert "tokens" t doc)) j ≡ token_member (obj doc) j)
unfolding get str_eq
rotate-obj_others doc new tokens t k j found turned other a r = (
  insert-other "tokens" k t doc other,
  rw (find-insert "tokens" "tokens" t doc, found) (rotate_tokens-other new tokens t j a r turned),
)

-- A rotation leaves every member of the document but `tokens` as it was, and every member of `tokens`
-- but the two that it sets, whether this program knows the member or not.
pub rotate-others :
    (v v' : Value) (new : RefreshedTokens) (k j : String)
    → rotate v new ≡ some v'
    → str_eq "tokens" k ≡ false
    → str_eq "access_token" j ≡ false
    → str_eq "refresh_token" j ≡ false
    → (get v' k ≡ get v k) × (token_member v' j ≡ token_member v j)
unfolding rotate
rotate-others (obj doc) v' new k j e other a r =
    let (t, turned', made) =
      bind-some (find doc "tokens" >>= rotate_tokens new)
        (λ tokens. some (obj (insert "tokens" tokens doc))) v' e in
    let (tokens, found, turned) = bind-some (find doc "tokens") (rotate_tokens new) t turned' in
    rw (← some-injective (obj (insert "tokens" t doc)) v' made)
      (rotate-obj_others doc new tokens t k j found turned other a r)
rotate-others null v' new k j e other a r = absurd (none-ne-some v' e)
rotate-others (bool b) v' new k j e other a r = absurd (none-ne-some v' e)
rotate-others (num n) v' new k j e other a r = absurd (none-ne-some v' e)
rotate-others (str s) v' new k j e other a r = absurd (none-ne-some v' e)
rotate-others (arr vs) v' new k j e other a r = absurd (none-ne-some v' e)
