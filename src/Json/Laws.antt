-- ===== src/Json/Laws.antt =====
-- Look-ups in JSON maps.
use mur_model_gateway.Common.{◌≡◌, refl, ap, List, [], ◌∷◌, some, String, arith, if◌then◌else◌}
use mur_model_gateway.Common.Text.{str_eq}
use mur_model_gateway.Common.Text.Prefix.{str_eq_iff}
use mur_model_gateway.Json.{Value, Fields, end, field, elems, items, find, insert}

pub find-insert :
    (k j : String) (v : Value) (fs : Fields)
    → find (insert k v fs) j ≡ (if str_eq k j then some v else find fs j)
unfolding find insert
find-insert k j v end = refl
find-insert k j v (field i w fs) =
    ground (arith, str_eq_iff k j, str_eq_iff i k, str_eq_iff i j, find-insert k j v fs)

pub elems-items : (vs : List Value) → elems (items vs) ≡ vs
elems-items [] = refl
elems-items (v ∷ vs) = ap (◌∷◌ v) (elems-items vs)
