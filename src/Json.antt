-- ===== src/Json.antt =====
-- The JSON values that the program builds and reads, as the enum `serde_json::Value` and the look-ups
-- on it. Parsing and printing are serde_json's own and no part of this model: the definitions that
-- need them take them as arguments. A map stands here in the order of its insertions; the program
-- looks it up by keys only.
pub mod Laws
use mur_model_gateway.Common.{
  ℕ, Bool, true, false, List, [], ◌∷◌, Option, none, some, String, if◌then◌else◌, ltb, ◌^◌,
}
use mur_model_gateway.Common.Text.{str_eq}
use mur_model_gateway.Common.Integer.{ℤ, pos, negsuc}

-- u64, i64 below 0 (`neg_int n` is -(n + 1)), or the bits of an f64
pub data Number : Type 0 where
  pos_int neg_int float : ℕ → Number

mutual
  pub data Value : Type 0 where
    null : Value
    bool : Bool → Value
    num : Number → Value
    str : String → Value
    arr : Items → Value
    obj : Fields → Value

  pub data Fields : Type 0 where
    end : Fields
    field : (key : String) (value : Value) (others : Fields) → Fields

  pub data Items : Type 0 where
    nil : Items
    cons : (first : Value) (others : Items) → Items

abbrev pub elems : Items → List Value
elems nil = []
elems (cons v vs) = v ∷ elems vs

abbrev pub items : List Value → Items
items [] = nil
items (v ∷ vs) = cons v (items vs)

-- `Value::Array`
abbrev pub array : List Value → Value
array vs = arr (items vs)

-- a `json!` object with these members
abbrev pub fields : List (String × Value) → Fields
fields [] = end
fields ((k, v) ∷ m) = field k v (fields m)

abbrev pub object : List (String × Value) → Value
object m = obj (fields m)

-- `Map::get`
unfoldable pub find : Fields → String → Option Value
unfolding str_eq
find end k = none
find (field j v fs) k = if str_eq j k then some v else find fs k

-- `Map::insert`: the last value of a key holds
unfoldable pub insert : String → Value → Fields → Fields
unfolding str_eq
insert k v end = field k v end
insert k v (field j w fs) = if str_eq j k then field k v fs else field j w (insert k v fs)

-- `Map::remove`
unfoldable pub remove : String → Fields → Fields
unfolding str_eq
remove k end = end
remove k (field j w fs) = if str_eq j k then remove k fs else field j w (remove k fs)

-- `Value::get` at a key
unfoldable pub get : Value → String → Option Value
unfolding find
get (obj fs) k = find fs k
get null k = none
get (bool b) k = none
get (num n) k = none
get (str s) k = none
get (arr vs) k = none

abbrev pub as_str : Value → Option String
as_str (str s) = some s
as_str _ = none

abbrev pub as_bool : Value → Option Bool
as_bool (bool b) = some b
as_bool _ = none

abbrev pub as_array : Value → Option (List Value)
as_array (arr vs) = some (elems vs)
as_array _ = none

abbrev pub as_object : Value → Option Fields
as_object (obj fs) = some fs
as_object _ = none

abbrev pub number_as_u64 : Number → Option ℕ
number_as_u64 (pos_int n) = some n
number_as_u64 _ = none

-- `as_i64`
abbrev pub number_as_i64 : Number → Option ℤ
number_as_i64 (pos_int n) = if ltb n (2 ^ 63) then some (pos n) else none
number_as_i64 (neg_int n) = some (negsuc n)
number_as_i64 (float n) = none

abbrev pub as_i64 : Value → Option ℤ
as_i64 (num n) = number_as_i64 n
as_i64 _ = none

abbrev pub as_u64 : Value → Option ℕ
as_u64 (num n) = number_as_u64 n
as_u64 _ = none

abbrev pub is_null : Value → Bool
is_null null = true
is_null _ = false
