-- ===== src/Compress/Edits.antt =====
-- Edits of a JSON value in place, as the loops over `get_mut` and `iter_mut` of src/compress.rs make
-- them: an edit takes a state and a value to the value that stands in its place and the next state.
pub mod Guarded
pub mod Laws
use mur_model_gateway.Common.{ℕ, zero, suc, String, if◌then◌else◌, Bool}
use mur_model_gateway.Common.Text.{str_eq}
use mur_model_gateway.Json.{
  Value, null, bool, num, str, arr, obj, Fields, end, field, Items, nil, cons,
}

abbrev pub Edit : Type 0 → Type 0
Edit S = S → Value → Value × S

module _ {S : Type 0} where
  abbrev pub leave : Edit S
  leave s v = (v, s)

  abbrev put_field : String → Value × S → Fields → Fields × S
  put_field k (w, s) fs = (field k w fs, s)

  abbrev pass_field : String → Value → Fields × S → Fields × S
  pass_field k v (fs, s) = (field k v fs, s)

  -- the member of a map at a key, when there is one
  unfoldable pub in_fields : String → Edit S → S → Fields → Fields × S
  unfolding str_eq
  in_fields k f s end = (end, s)
  in_fields k f s (field j v fs) =
      if str_eq j k then put_field j (f s v) fs else pass_field j v (in_fields k f s fs)

  abbrev as_obj : Fields × S → Value × S
  as_obj (fs, s) = (obj fs, s)

  -- `if let Some(v) = value.get_mut(key)`
  unfoldable pub at_field : String → Edit S → Edit S
  unfolding in_fields
  at_field k f s (obj fs) = as_obj (in_fields k f s fs)
  at_field k f s null = (null, s)
  at_field k f s (bool b) = (bool b, s)
  at_field k f s (num n) = (num n, s)
  at_field k f s (str t) = (str t, s)
  at_field k f s (arr vs) = (arr vs, s)

  -- `for v in items.iter_mut()`
  unfoldable pub each_item : Edit S → S → Items → Items × S
  each_item f s nil = (nil, s)
  each_item f s (cons v vs) = let (w, t) = f s v in let (ws, u) = each_item f t vs in (cons w ws, u)

  abbrev as_arr : Items × S → Value × S
  as_arr (vs, s) = (arr vs, s)

  -- that loop over `value.as_array_mut()`
  unfoldable pub each_elem : Edit S → Edit S
  unfolding each_item
  each_elem f s (arr vs) = as_arr (each_item f s vs)
  each_elem f s null = (null, s)
  each_elem f s (bool b) = (bool b, s)
  each_elem f s (num n) = (num n, s)
  each_elem f s (str t) = (str t, s)
  each_elem f s (obj fs) = (obj fs, s)

  abbrev put_item : Items → Value × S → Items × S
  put_item vs (w, s) = (cons w vs, s)

  abbrev pass_item : Value → Items × S → Items × S
  pass_item v (vs, s) = (cons v vs, s)

  unfoldable pub in_items : ℕ → Edit S → S → Items → Items × S
  in_items i f s nil = (nil, s)
  in_items zero f s (cons v vs) = put_item vs (f s v)
  in_items (suc i) f s (cons v vs) = pass_item v (in_items i f s vs)

  -- `if let Some(v) = value.get_mut(index)`
  unfoldable pub at_elem : ℕ → Edit S → Edit S
  unfolding in_items
  at_elem i f s (arr vs) = as_arr (in_items i f s vs)
  at_elem i f s null = (null, s)
  at_elem i f s (bool b) = (bool b, s)
  at_elem i f s (num n) = (num n, s)
  at_elem i f s (str t) = (str t, s)
  at_elem i f s (obj fs) = (obj fs, s)

-- The same places, edited without a state.
abbrev pub over_fields : String → (Value → Value) → Fields → Fields
over_fields k g end = end
over_fields k g (field j v fs) =
    if str_eq j k then field j (g v) fs else field j v (over_fields k g fs)

unfoldable pub over_field : String → (Value → Value) → Value → Value
unfolding str_eq
over_field k g (obj fs) = obj (over_fields k g fs)
over_field k g v = v

abbrev pub over_items : (Value → Value) → Items → Items
over_items g nil = nil
over_items g (cons v vs) = cons (g v) (over_items g vs)

unfoldable pub over_elems : (Value → Value) → Value → Value
over_elems g (arr vs) = arr (over_items g vs)
over_elems g v = v
