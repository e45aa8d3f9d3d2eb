-- ===== src/Compress/Rewrite/Located.antt =====
-- The loop over the locators in src/compress.rs puts its stubs at the tool results that were found,
-- whose test still holds when their turn comes.
use mur_model_gateway.Common.{
  ◌≡◌, refl, sym, ◌∙◌, ap, inl, inr, Bool, true, false, List, [], ◌∷◌, ◌++◌, String, Bool-cases,
  if◌then◌else◌, Option, none, some,
}
use mur_model_gateway.Common.Text.{str_eq}
use mur_model_gateway.Json.{Value, null, bool, num, str, arr, obj, Fields, end, field}
use mur_model_gateway.Compress.Edits.{Edit, in_fields, at_field, over_field, over_fields}
use mur_model_gateway.Compress.Edits.Guarded.{Guarded, Shows}
use mur_model_gateway.Compress.Engine.{External, Run, stale_stub}
use mur_model_gateway.Compress.Stale.{StaleReason, StaleCandidate}
use mur_model_gateway.Compress.Rewrite.Blocks.{collapse, has_text, place, put_stub}
use mur_model_gateway.Compress.Rewrite.Payload.{Anything, has_text-at_field}
use mur_model_gateway.Compress.Edits.Laws.{at_field-Agrees}

abbrev pub nothing : Value → Value
nothing v = null

-- A value without its content, where it is a tool result: its text at a key is the one that says so.
abbrev pub without_content : String → String → Value → Value
without_content j t b = if has_text j t b then over_field "content" nothing b else b

-- The test of each locator holds of the body.
abbrev pub AllHold : {L : Type 0} → (L → Value → Bool) → List (L × StaleCandidate) → Value → Type 0
AllHold c [] root = Unit
AllHold c (x ∷ xs) root = (c x.0 root ≡ true) × AllHold c xs root

pub AllHold-append :
    {L : Type 0} (c : L → Value → Bool) (xs ys : List (L × StaleCandidate)) (root : Value)
    → AllHold c xs root
    → AllHold c ys root
    → AllHold c (xs ++ ys) root
AllHold-append c [] ys root h k = k
AllHold-append c (x ∷ xs) ys root (e, h) k = (e, AllHold-append c xs ys root h k)

pub AllHold-place :
    {L : Type 0} (c : L → Value → Bool) (l : L) (o : Option StaleCandidate)
    (xs : List (L × StaleCandidate)) (root : Value)
    → ((b : StaleCandidate) → o ≡ some b → c l root ≡ true)
    → AllHold c xs root
    → AllHold c (place l o xs) root
AllHold-place c l none xs root h k = k
AllHold-place c l (some b) xs root h k = (h b refl, k)

module _ {W C D : Type 0} (ext : External W C D) {L : Type 0} (e : Value → Value)
    (c : L → Value → Bool) (put : L → String → Edit (Run W C D)) (sh : (l : L) → Shows e (c l))
    (g : (l : L) (s : String) → Guarded e (c l) (put l s)) where
  AllHold-shown :
      (xs : List (L × StaleCandidate)) (v w : Value) → e w ≡ e v → AllHold c xs v → AllHold c xs w
  AllHold-shown [] v w p h = h
  AllHold-shown ((l, b) ∷ xs) v w p (t, h) =
      (sym (sh l w) ∙ ap (c l) p ∙ sh l v ∙ t, AllHold-shown xs v w p h)

  pub collapse-Guarded :
      (xs : List (L × StaleCandidate)) (rs : List (Option StaleReason)) (r : Run W C D)
      (root : Value)
      → AllHold c xs root
      → e (collapse ext put xs rs r root).0 ≡ e root
  unfolding collapse
  collapse-Guarded [] rs r v h = refl
  collapse-Guarded (x ∷ xs) [] r v h = refl
  collapse-Guarded ((l, b) ∷ xs) (none ∷ rs) r v (t, h) = collapse-Guarded xs rs r v h
  collapse-Guarded ((l, b) ∷ xs) (some reason ∷ rs) r v (t, h) =
      let (stub, r1) = stale_stub ext reason b.text r in
      let p = g l stub r1 v t in
      collapse-Guarded xs rs (put l stub r1 v).1 (put l stub r1 v).0
        (AllHold-shown xs v (put l stub r1 v).0 p h)
      ∙ p

-- An edit without a state, as an edit with one.
abbrev alone : (Value → Value) → Edit Unit
alone f s v = (f v, s)

over_fields-alone :
    (k : String) (f : Value → Value) (fs : Fields)
    → (in_fields k (alone f) tt fs).0 ≡ over_fields k f fs
unfolding in_fields
over_fields-alone k f end = refl
over_fields-alone k f (field i v fs) = elim (Bool-cases (str_eq i k)) [
  | inl e ↦ rw (e) refl
  | inr e ↦ rw (e) (ap (field i v) (over_fields-alone k f fs))
]

over_field-alone :
    (k : String) (f : Value → Value) (v : Value) → (at_field k (alone f) tt v).0 ≡ over_field k f v
unfolding at_field over_field
over_field-alone k f (obj fs) = ap obj (over_fields-alone k f fs)
over_field-alone k f null = refl
over_field-alone k f (bool b) = refl
over_field-alone k f (num n) = refl
over_field-alone k f (str s) = refl
over_field-alone k f (arr vs) = refl

pub has_text-over_field :
    (k j t : String) (f : Value → Value) (v : Value)
    → str_eq k j ≡ false
    → has_text j t (over_field k f v) ≡ has_text j t v
has_text-over_field k j t f v h =
    ap (has_text j t) (sym (over_field-alone k f v)) ∙ has_text-at_field k j t (alone f) tt v h

module _ (j t : String) (h : str_eq "content" j ≡ false) where
  pub without_content-Shows : Shows (without_content j t) (has_text j t)
  without_content-Shows b = elim (Bool-cases (has_text j t b)) [
    | inl e ↦ rw (e) (has_text-over_field "content" j t nothing b h ∙ e)
    | inr e ↦ rw (e) e
  ]

  pub put_stub-Guarded :
      {W C D : Type 0} (s : String)
      → Guarded {S = Run W C D}
          (without_content j t)
          (has_text j t)
          (at_field "content" (put_stub s))
  put_stub-Guarded s r b e =
      let still = has_text-at_field "content" j t (put_stub s) r b h ∙ e in
      rw (e, still)
        (at_field-Agrees Anything nothing nothing (put_stub s) (λ r v i. (refl, i)) "content" r b
          tt).0
