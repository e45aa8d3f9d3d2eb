-- ===== src/Compress/Rewrite/Payload.antt =====
-- The edits of one payload in src/compress.rs change its texts only.
use mur_model_gateway.Common.{
  ◌≡◌, refl, ◌∙◌, ap, inl, inr, ℕ, Bool, false, String, if◌then◌else◌, Bool-cases, List, [], ◌∷◌,
  Option, none, some,
}
use mur_model_gateway.Common.Text.{str_eq}
use mur_model_gateway.Common.Text.Prefix.{str_eq_iff}
use mur_model_gateway.Json.{Value, null, bool, num, str, arr, obj, Fields, end, field, find, get}
use mur_model_gateway.Compress.Edits.{Edit, in_fields, at_field, over_field, over_items}
use mur_model_gateway.Compress.Edits.Laws.{Agrees, at_field-Agrees, each_item-Agrees}
use mur_model_gateway.Compress.Engine.{External, Run, stale_stub}
use mur_model_gateway.Compress.Stale.{StaleReason, StaleCandidate}
use mur_model_gateway.Compress.Rewrite.Blocks.{
  has_text, edit_text, edit_item, edit_payload, collapse, two_passes, note_if, note_stale,
}

-- a state of which nothing is asked
abbrev pub Anything : {S : Type 0} → S → Type 0
Anything s = Unit

abbrev pub erase_text : Value → Value
erase_text (str s) = str ""
erase_text v = v

abbrev pub erase_item : Value → Value
erase_item item = if has_text "type" "text" item then over_field "text" erase_text item else item

-- a payload without its texts
abbrev pub erase_payload : Value → Value
erase_payload (str s) = str ""
erase_payload (arr vs) = arr (over_items erase_item vs)
erase_payload v = v

find-in_fields :
    {S : Type 0} (k j : String) (f : Edit S) (s : S) (fs : Fields)
    → str_eq k j ≡ false
    → find (in_fields k f s fs).0 j ≡ find fs j
unfolding find in_fields
find-in_fields k j f s end h = refl
find-in_fields k j f s (field i v fs) h = elim (Bool-cases (str_eq i k)) [
  | inl e ↦ let other = ap (λ x. str_eq x j) ((str_eq_iff i k).0 e) ∙ h in rw (e, other) refl
  | inr e ↦
      rw (e)
        (ap (λ (o : Option Value). if str_eq i j then some v else o) (find-in_fields k j f s fs h))
]

-- An edit at one key leaves the others.
pub get-at_field :
    {S : Type 0} (k j : String) (f : Edit S) (s : S) (v : Value)
    → str_eq k j ≡ false
    → get (at_field k f s v).0 j ≡ get v j
unfolding at_field get
get-at_field k j f s (obj fs) h = find-in_fields k j f s fs h
get-at_field k j f s null h = refl
get-at_field k j f s (bool b) h = refl
get-at_field k j f s (num n) h = refl
get-at_field k j f s (str u) h = refl
get-at_field k j f s (arr vs) h = refl

pub has_text-at_field :
    {S : Type 0} (k j t : String) (f : Edit S) (s : S) (v : Value)
    → str_eq k j ≡ false
    → has_text j t (at_field k f s v).0 ≡ has_text j t v
unfolding has_text
has_text-at_field k j t f s v h = rw (get-at_field k j f s v h, has_text) refl

differ : str_eq "text" "type" ≡ false
unfolding str_eq
differ = refl

module _ {W C D : Type 0} (ext : External W C D) (min_tokens : ℕ) where
  edit_text-erase : Agrees Anything erase_text erase_text (edit_text ext min_tokens)
  unfolding edit_text
  edit_text-erase r (str s) i = (refl, i)
  edit_text-erase r null i = (refl, i)
  edit_text-erase r (bool b) i = (refl, i)
  edit_text-erase r (num n) i = (refl, i)
  edit_text-erase r (arr vs) i = (refl, i)
  edit_text-erase r (obj fs) i = (refl, i)

  edit_item-erase : Agrees Anything erase_item erase_item (edit_item ext min_tokens)
  unfolding edit_item
  edit_item-erase r item i = elim (Bool-cases (has_text "type" "text" item)) [
    | inl e ↦
        let (p, q) =
          at_field-Agrees Anything erase_text erase_text (edit_text ext min_tokens) edit_text-erase
            "text" r item i in
        let still =
          has_text-at_field "text" "type" "text" (edit_text ext min_tokens) r item differ ∙ e in
        rw (e, still) (p, q)
    | inr e ↦ rw (e, e) (refl, i)
  ]

  pub edit_payload-erase : Agrees Anything erase_payload erase_payload (edit_payload ext min_tokens)
  unfolding edit_payload edit_text
  edit_payload-erase r (arr vs) i =
      let (p, q) =
        each_item-Agrees Anything erase_item erase_item (edit_item ext min_tokens) edit_item-erase r
          vs i in
      (ap arr p, q)
  edit_payload-erase r (str s) i = (refl, i)
  edit_payload-erase r null i = (refl, i)
  edit_payload-erase r (bool b) i = (refl, i)
  edit_payload-erase r (num n) i = (refl, i)
  edit_payload-erase r (obj fs) i = (refl, i)

-- The stubs leave what each of them leaves.
module _ {W C D : Type 0} (ext : External W C D) {L : Type 0} (a : Value → Value)
    (put : L → String → Edit (Run W C D))
    (h : (l : L) (s : String) → Agrees Anything a a (put l s)) where
  pub collapse-Agrees :
      (xs : List (L × StaleCandidate)) (rs : List (Option StaleReason))
      → Agrees Anything a a (collapse ext put xs rs)
  unfolding collapse
  collapse-Agrees [] rs r v i = (refl, i)
  collapse-Agrees (x ∷ xs) [] r v i = (refl, i)
  collapse-Agrees ((l, c) ∷ xs) (none ∷ rs) r v i = collapse-Agrees xs rs r v i
  collapse-Agrees ((l, c) ∷ xs) (some reason ∷ rs) r v i =
      let (stub, r1) = stale_stub ext reason c.text r in
      let (p, q) = h l stub r1 v i in
      let (ps, qs) = collapse-Agrees xs rs (put l stub r1 v).1 (put l stub r1 v).0 i in (ps ∙ p, qs)

module _ {W C D : Type 0} (ext : External W C D) (a : Value → Value) (traced : Bool)
    (first : Edit (Run W C D)) (second : Value → Edit (Run W C D)) (f : Agrees Anything a a first)
    (g : (v : Value) → Agrees Anything a a (second v)) where
  pub two_passes-Agrees :
      (r : Run W C D) (root : Value) → a (two_passes ext traced first second r root).0 ≡ a root
  unfolding two_passes
  two_passes-Agrees r root =
      let q = first (note_if ext traced root r) root in
      (g q.0 (note_stale ext q.1) q.0 tt).0 ∙ (f (note_if ext traced root r) root tt).0
