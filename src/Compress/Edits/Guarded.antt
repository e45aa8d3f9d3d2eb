-- ===== src/Compress/Edits/Guarded.antt =====
-- Edits of src/compress.rs at places where a test holds.
use mur_model_gateway.Common.{
  ◌≡◌, refl, ◌∙◌, ap, inl, inr, ℕ, zero, suc, ◌+◌, arith, Bool, true, List, [], ◌∷◌, String,
  Bool-cases, if◌then◌else◌, get_or, ◌>>=◌,
}
use mur_model_gateway.Common.Text.{str_eq}
use mur_model_gateway.Json.{
  Value, null, bool, num, str, arr, obj, Fields, end, field, Items, nil, cons, elems, get, find,
  as_array,
}
use mur_model_gateway.Compress.Edits.{
  Edit, in_fields, at_field, in_items, at_elem, over_fields, over_field, over_items, over_elems,
}
use mur_model_gateway.Compress.Rewrite.Blocks.{elems_at}

-- The test holds of the member at a key, where there is one.
abbrev pub fields_hold : String → (Value → Bool) → Fields → Bool
fields_hold k c end = true
fields_hold k c (field j v fs) = if str_eq j k then c v else fields_hold k c fs

unfoldable pub field_holds : String → (Value → Bool) → Value → Bool
unfolding str_eq
field_holds k c (obj fs) = fields_hold k c fs
field_holds k c v = true

-- The test holds of the element at an index, where there is one.
abbrev pub items_hold : ℕ → (Value → Bool) → Items → Bool
items_hold i c nil = true
items_hold zero c (cons v vs) = c v
items_hold (suc i) c (cons v vs) = items_hold i c vs

unfoldable pub elem_holds : ℕ → (Value → Bool) → Value → Bool
elem_holds i c (arr vs) = items_hold i c vs
elem_holds i c v = true

abbrev pub list_holds : ℕ → (Value → Bool) → List Value → Bool
list_holds i c [] = true
list_holds zero c (v ∷ vs) = c v
list_holds (suc i) c (v ∷ vs) = list_holds i c vs

-- Where the test holds, the edit leaves a value that `e` shows as the value before.
abbrev pub Guarded : {S : Type 0} → (Value → Value) → (Value → Bool) → Edit S → Type 0
Guarded {S} e c f = (s : S) (v : Value) → c v ≡ true → e (f s v).0 ≡ e v

-- What `e` shows of a value decides the test.
abbrev pub Shows : (Value → Value) → (Value → Bool) → Type 0
Shows e c = (v : Value) → c (e v) ≡ c v

module _ {S : Type 0} (e : Value → Value) (c : Value → Bool) (f : Edit S) (h : Guarded e c f) where
  in_fields-Guarded :
      (k : String) (s : S) (fs : Fields)
      → fields_hold k c fs ≡ true
      → over_fields k e (in_fields k f s fs).0 ≡ over_fields k e fs
  unfolding in_fields
  in_fields-Guarded k s end t = refl
  in_fields-Guarded k s (field j v fs) t = elim (Bool-cases (str_eq j k)) [
    | inl d ↦ rw (d) (rw (d) (ap (λ w. field j w fs) (h s v (rw (d) at t))))
    | inr d ↦ rw (d) (rw (d) (ap (field j v) (in_fields-Guarded k s fs (rw (d) at t))))
  ]

  pub at_field-Guarded : (k : String) → Guarded (over_field k e) (field_holds k c) (at_field k f)
  unfolding at_field over_field field_holds
  at_field-Guarded k s (obj fs) t = ap obj (in_fields-Guarded k s fs t)
  at_field-Guarded k s null t = refl
  at_field-Guarded k s (bool b) t = refl
  at_field-Guarded k s (num n) t = refl
  at_field-Guarded k s (str u) t = refl
  at_field-Guarded k s (arr vs) t = refl

  in_items-Guarded :
      (i : ℕ) (s : S) (vs : Items)
      → items_hold i c vs ≡ true
      → over_items e (in_items i f s vs).0 ≡ over_items e vs
  unfolding in_items
  in_items-Guarded i s nil t = refl
  in_items-Guarded zero s (cons v vs) t = ap (λ w. cons w (over_items e vs)) (h s v t)
  in_items-Guarded (suc i) s (cons v vs) t = ap (cons (e v)) (in_items-Guarded i s vs t)

  pub at_elem-Guarded : (i : ℕ) → Guarded (over_elems e) (elem_holds i c) (at_elem i f)
  unfolding at_elem over_elems elem_holds
  at_elem-Guarded i s (arr vs) t = ap arr (in_items-Guarded i s vs t)
  at_elem-Guarded i s null t = refl
  at_elem-Guarded i s (bool b) t = refl
  at_elem-Guarded i s (num n) t = refl
  at_elem-Guarded i s (str u) t = refl
  at_elem-Guarded i s (obj fs) t = refl

module _ (e : Value → Value) (c : Value → Bool) (h : Shows e c) where
  fields_hold-Shows :
      (k : String) (fs : Fields) → fields_hold k c (over_fields k e fs) ≡ fields_hold k c fs
  fields_hold-Shows k end = refl
  fields_hold-Shows k (field j v fs) = elim (Bool-cases (str_eq j k)) [
    | inl d ↦ rw (d) (rw (d) (h v))
    | inr d ↦ rw (d) (rw (d) (fields_hold-Shows k fs))
  ]

  pub field_holds-Shows : (k : String) → Shows (over_field k e) (field_holds k c)
  unfolding over_field field_holds
  field_holds-Shows k (obj fs) = fields_hold-Shows k fs
  field_holds-Shows k null = refl
  field_holds-Shows k (bool b) = refl
  field_holds-Shows k (num n) = refl
  field_holds-Shows k (str u) = refl
  field_holds-Shows k (arr vs) = refl

  items_hold-Shows : (i : ℕ) (vs : Items) → items_hold i c (over_items e vs) ≡ items_hold i c vs
  items_hold-Shows i nil = refl
  items_hold-Shows zero (cons v vs) = h v
  items_hold-Shows (suc i) (cons v vs) = items_hold-Shows i vs

  pub elem_holds-Shows : (i : ℕ) → Shows (over_elems e) (elem_holds i c)
  unfolding over_elems elem_holds
  elem_holds-Shows i (arr vs) = items_hold-Shows i vs
  elem_holds-Shows i null = refl
  elem_holds-Shows i (bool b) = refl
  elem_holds-Shows i (num n) = refl
  elem_holds-Shows i (str u) = refl
  elem_holds-Shows i (obj fs) = refl

items_hold-list :
    (i : ℕ) (c : Value → Bool) (vs : Items) → list_holds i c (elems vs) ≡ items_hold i c vs
items_hold-list i c nil = refl
items_hold-list zero c (cons v vs) = refl
items_hold-list (suc i) c (cons v vs) = items_hold-list i c vs

elem_holds-list :
    (i : ℕ) (c : Value → Bool) (v : Value)
    → list_holds i c (get_or (as_array v) []) ≡ elem_holds i c v
unfolding elem_holds
elem_holds-list i c (arr vs) = items_hold-list i c vs
elem_holds-list i c null = refl
elem_holds-list i c (bool b) = refl
elem_holds-list i c (num n) = refl
elem_holds-list i c (str u) = refl
elem_holds-list i c (obj fs) = refl

fields_hold-list :
    (k : String) (i : ℕ) (c : Value → Bool) (fs : Fields)
    → list_holds i c (get_or (find fs k >>= as_array) []) ≡ fields_hold k (elem_holds i c) fs
unfolding find
fields_hold-list k i c end = refl
fields_hold-list k i c (field j v fs) = elim (Bool-cases (str_eq j k)) [
  | inl d ↦ rw (d) (elem_holds-list i c v)
  | inr d ↦ rw (d) (fields_hold-list k i c fs)
]

-- The test on an element of the list at a key.
pub elems_at-holds :
    (k : String) (i : ℕ) (c : Value → Bool) (v : Value)
    → list_holds i c (elems_at k v) ≡ field_holds k (elem_holds i c) v
unfolding elems_at get field_holds
elems_at-holds k i c (obj fs) = fields_hold-list k i c fs
elems_at-holds k i c null = refl
elems_at-holds k i c (bool b) = refl
elems_at-holds k i c (num n) = refl
elems_at-holds k i c (str u) = refl
elems_at-holds k i c (arr vs) = refl

-- The elements of a list stand from an index on in a place where `q` tells the test of each.
abbrev pub Tells : List Value → ℕ → (ℕ → (Value → Bool) → Bool) → Type 0
Tells vs i q = (n k : ℕ) (c : Value → Bool) → k ≡ n + i → list_holds n c vs ≡ q k c

pub Tells-head :
    (v : Value) (vs : List Value) (i : ℕ) (q : ℕ → (Value → Bool) → Bool) (c : Value → Bool)
    → Tells (v ∷ vs) i q
    → c v ≡ q i c
Tells-head v vs i q c h = h 0 i c (omega arith)

pub Tells-tail :
    (v : Value) (vs : List Value) (i : ℕ) (q : ℕ → (Value → Bool) → Bool)
    → Tells (v ∷ vs) i q
    → Tells vs (i + 1) q
Tells-tail v vs i q h n k c e = h (suc n) k c (omega arith)

pub elems_at-Tells :
    (k : String) (v : Value) → Tells (elems_at k v) 0 (λ n c. field_holds k (elem_holds n c) v)
elems_at-Tells k v n j c e =
    let same : n ≡ j = omega arith in
    elems_at-holds k n c v ∙ ap (λ i. field_holds k (elem_holds i c) v) same
