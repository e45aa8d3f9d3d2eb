-- ===== src/Compress/Edits/Laws.antt =====
-- What an edit of src/compress.rs does at one place carries over to the places around it.
use mur_model_gateway.Common.{
  ◌≡◌, refl, ◌∙◌, ap, ap₂, ◌⊎◌, inl, inr, ℕ, zero, suc, Bool, true, String, Bool-cases,
}
use mur_model_gateway.Common.Text.{str_eq}
use mur_model_gateway.Json.{
  Value, null, bool, num, str, arr, obj, Fields, end, field, Items, nil, cons,
}
use mur_model_gateway.Compress.Edits.{
  Edit, in_fields, at_field, each_item, each_elem, in_items, at_elem, over_fields, over_field,
  over_items, over_elems,
}

-- From a state with `I`, the edit leaves a value that `a` shows as `b` shows the value before, and a
-- state with `I`.
abbrev pub Agrees :
    {S : Type 0} → (S → Type 0) → (Value → Value) → (Value → Value) → Edit S → Type 0
Agrees {S} I a b f = (s : S) (v : Value) → I s → (a (f s v).0 ≡ b v) × I (f s v).1

module _ {S : Type 0} (I : S → Type 0) (a b : Value → Value) (f : Edit S) (h : Agrees I a b f) where
  in_fields-Agrees :
      (k : String) (s : S) (fs : Fields)
      → I s
      → (over_fields k a (in_fields k f s fs).0 ≡ over_fields k b fs) × I (in_fields k f s fs).1
  unfolding in_fields
  in_fields-Agrees k s end i = (refl, i)
  in_fields-Agrees k s (field j v fs) i = elim (Bool-cases (str_eq j k)) [
    | inl e ↦ let (p, q) = h s v i in (rw (e) (rw (e) (ap (λ w. field j w fs) p)), rw (e) q)
    | inr e ↦
        let (p, q) = in_fields-Agrees k s fs i in (rw (e) (rw (e) (ap (field j v) p)), rw (e) q)
  ]

  pub at_field-Agrees : (k : String) → Agrees I (over_field k a) (over_field k b) (at_field k f)
  unfolding at_field over_field
  at_field-Agrees k s (obj fs) i = let (p, q) = in_fields-Agrees k s fs i in (ap obj p, q)
  at_field-Agrees k s null i = (refl, i)
  at_field-Agrees k s (bool b) i = (refl, i)
  at_field-Agrees k s (num n) i = (refl, i)
  at_field-Agrees k s (str t) i = (refl, i)
  at_field-Agrees k s (arr vs) i = (refl, i)

  pub each_item-Agrees :
      (s : S) (vs : Items)
      → I s
      → (over_items a (each_item f s vs).0 ≡ over_items b vs) × I (each_item f s vs).1
  unfolding each_item
  each_item-Agrees s nil i = (refl, i)
  each_item-Agrees s (cons v vs) i =
      let (p, q) = h s v i in let (ps, qs) = each_item-Agrees (f s v).1 vs q in (ap₂ cons p ps, qs)

  pub each_elem-Agrees : Agrees I (over_elems a) (over_elems b) (each_elem f)
  unfolding each_elem over_elems
  each_elem-Agrees s (arr vs) i = let (p, q) = each_item-Agrees s vs i in (ap arr p, q)
  each_elem-Agrees s null i = (refl, i)
  each_elem-Agrees s (bool b) i = (refl, i)
  each_elem-Agrees s (num n) i = (refl, i)
  each_elem-Agrees s (str t) i = (refl, i)
  each_elem-Agrees s (obj fs) i = (refl, i)

-- One item edited, of items that a function shows alike before and after.
module _ {S : Type 0} (I : S → Type 0) (a : Value → Value) (f : Edit S) (h : Agrees I a a f) where
  in_items-Agrees :
      (n : ℕ) (s : S) (vs : Items)
      → I s
      → (over_items a (in_items n f s vs).0 ≡ over_items a vs) × I (in_items n f s vs).1
  unfolding in_items
  in_items-Agrees n s nil i = (refl, i)
  in_items-Agrees zero s (cons v vs) i =
      let (p, q) = h s v i in (ap (λ w. cons w (over_items a vs)) p, q)
  in_items-Agrees (suc n) s (cons v vs) i =
      let (p, q) = in_items-Agrees n s vs i in (ap (cons (a v)) p, q)

  pub at_elem-Agrees : (n : ℕ) → Agrees I (over_elems a) (over_elems a) (at_elem n f)
  unfolding at_elem over_elems
  at_elem-Agrees n s (arr vs) i = let (p, q) = in_items-Agrees n s vs i in (ap arr p, q)
  at_elem-Agrees n s null i = (refl, i)
  at_elem-Agrees n s (bool b) i = (refl, i)
  at_elem-Agrees n s (num m) i = (refl, i)
  at_elem-Agrees n s (str t) i = (refl, i)
  at_elem-Agrees n s (obj fs) i = (refl, i)

-- The edit keeps the flag of a change that is set, and sets it where it leaves another value.
abbrev pub Flagged : {A S : Type 0} → (S → Bool) → A → S → A × S → Type 0
Flagged changed v s r = (changed s ≡ true → changed r.1 ≡ true) × ((r.0 ≡ v) ⊎ (changed r.1 ≡ true))

pub Flagged-inside :
    {A B S : Type 0} (changed : S → Bool) (g : A → B) (v : A) (s : S) (r : A × S)
    → Flagged changed v s r
    → Flagged changed (g v) s (g r.0, r.1)
Flagged-inside changed g v s r (keep, inl e) = (keep, inl (ap g e))
Flagged-inside changed g v s r (keep, inr e) = (keep, inr e)

pub Flagged-leave : {A S : Type 0} (changed : S → Bool) (v : A) (s : S) → Flagged changed v s (v, s)
Flagged-leave changed v s = (λ h. h, inl refl)

Flagged-cons :
    {S : Type 0} (changed : S → Bool) (v w : Value) (vs ws : Items) (s t u : S)
    → Flagged changed v s (w, t)
    → Flagged changed vs t (ws, u)
    → Flagged changed (cons v vs) s (cons w ws, u)
Flagged-cons changed v w vs ws s t u (k, inl e) (l, inl d) = (λ c. l (k c), inl (ap₂ cons e d))
Flagged-cons changed v w vs ws s t u (k, inr e) (l, d) = (λ c. l (k c), inr (l e))
Flagged-cons changed v w vs ws s t u (k, e) (l, inr d) = (λ c. l (k c), inr d)

module _ {S : Type 0} (changed : S → Bool) (f : Edit S)
    (h : (s : S) (v : Value) → Flagged changed v s (f s v)) where
  pub in_fields-Flagged :
      (k : String) (s : S) (fs : Fields) → Flagged changed fs s (in_fields k f s fs)
  unfolding in_fields
  in_fields-Flagged k s end = Flagged-leave changed end s
  in_fields-Flagged k s (field j v fs) = elim (Bool-cases (str_eq j k)) [
    | inl e ↦ rw (e) (Flagged-inside changed (λ w. field j w fs) v s (f s v) (h s v))
    | inr e ↦
        rw (e)
          (Flagged-inside changed (field j v) fs s (in_fields k f s fs) (in_fields-Flagged k s fs))
  ]

  pub at_field-Flagged : (k : String) (s : S) (v : Value) → Flagged changed v s (at_field k f s v)
  unfolding at_field
  at_field-Flagged k s (obj fs) =
      Flagged-inside changed obj fs s (in_fields k f s fs) (in_fields-Flagged k s fs)
  at_field-Flagged k s null = Flagged-leave changed _ s
  at_field-Flagged k s (bool b) = Flagged-leave changed _ s
  at_field-Flagged k s (num n) = Flagged-leave changed _ s
  at_field-Flagged k s (str t) = Flagged-leave changed _ s
  at_field-Flagged k s (arr vs) = Flagged-leave changed _ s

  pub each_item-Flagged : (s : S) (vs : Items) → Flagged changed vs s (each_item f s vs)
  unfolding each_item
  each_item-Flagged s nil = Flagged-leave changed nil s
  each_item-Flagged s (cons v vs) =
      Flagged-cons changed v _ vs _ s (f s v).1 _ (h s v) (each_item-Flagged (f s v).1 vs)

  pub each_elem-Flagged : (s : S) (v : Value) → Flagged changed v s (each_elem f s v)
  unfolding each_elem
  each_elem-Flagged s (arr vs) =
      Flagged-inside changed arr vs s (each_item f s vs) (each_item-Flagged s vs)
  each_elem-Flagged s null = Flagged-leave changed _ s
  each_elem-Flagged s (bool b) = Flagged-leave changed _ s
  each_elem-Flagged s (num n) = Flagged-leave changed _ s
  each_elem-Flagged s (str t) = Flagged-leave changed _ s
  each_elem-Flagged s (obj fs) = Flagged-leave changed _ s

  in_items-Flagged : (n : ℕ) (s : S) (vs : Items) → Flagged changed vs s (in_items n f s vs)
  unfolding in_items
  in_items-Flagged n s nil = Flagged-leave changed nil s
  in_items-Flagged zero s (cons v vs) = Flagged-inside changed (λ w. cons w vs) v s (f s v) (h s v)
  in_items-Flagged (suc n) s (cons v vs) =
      Flagged-inside changed (cons v) vs s (in_items n f s vs) (in_items-Flagged n s vs)

  pub at_elem-Flagged : (n : ℕ) (s : S) (v : Value) → Flagged changed v s (at_elem n f s v)
  unfolding at_elem
  at_elem-Flagged n s (arr vs) =
      Flagged-inside changed arr vs s (in_items n f s vs) (in_items-Flagged n s vs)
  at_elem-Flagged n s null = Flagged-leave changed _ s
  at_elem-Flagged n s (bool b) = Flagged-leave changed _ s
  at_elem-Flagged n s (num m) = Flagged-leave changed _ s
  at_elem-Flagged n s (str t) = Flagged-leave changed _ s
  at_elem-Flagged n s (obj fs) = Flagged-leave changed _ s

-- One edit after another.
pub Flagged-then :
    {A S : Type 0} (changed : S → Bool) (v w : A) (s t : S) (r : A × S)
    → Flagged changed v s (w, t)
    → Flagged changed w t r
    → Flagged changed v s r
Flagged-then changed v w s t r (k, inl e) (l, inl d) = (λ c. l (k c), inl (d ∙ e))
Flagged-then changed v w s t r (k, inr e) (l, d) = (λ c. l (k c), inr (l e))
Flagged-then changed v w s t r (k, e) (l, inr d) = (λ c. l (k c), inr d)
