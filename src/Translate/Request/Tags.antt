-- ===== src/Translate/Request/Tags.antt =====
-- Tests of a text member of a JSON object.
use mur_model_gateway.Common.{◌≡◌, refl, ◌↔◌, true, false, Option, none, some, String, arith, ◌>>=◌}
use mur_model_gateway.Common.Text.{str_eq}
use mur_model_gateway.Common.Text.Prefix.{str_eq_iff}
use mur_model_gateway.Json.{Value, str, get, as_str}
use mur_model_gateway.Translate.Request.{says, equals}

pub equals_iff :
    (o : Option Value) (t : String) → (equals (o >>= as_str) t ≡ true) ↔ (o ≡ some (str t))
equals_iff none t = ground arith
equals_iff (some (str s)) t = ground (arith, str_eq_iff s t)
equals_iff (some v) t = ground arith

pub says_iff : (v : Value) (k t : String) → (says v k t ≡ true) ↔ (get v k ≡ some (str t))
unfolding says
says_iff v k t = equals_iff (get v k) t

equals_disjoint :
    (o : Option String) (s t : String) → str_eq s t ≡ false → equals o s ≡ true → equals o t ≡ false
equals_disjoint none s t d h = refl
equals_disjoint (some r) s t d h = rw ((str_eq_iff r s).0 h) d

-- A member says one text at most.
pub says_disjoint :
    (v : Value) (k s t : String) → str_eq s t ≡ false → says v k s ≡ true → says v k t ≡ false
unfolding says
says_disjoint v k s t d h = equals_disjoint (get v k >>= as_str) s t d h
