-- ===== src/Common/Text/Prefix.antt =====
-- Equality, prefixes and joining of texts.
use Prim.Native.Char.{Char, code}
use Prim.Native.String.{String, [], ◌∷◌}
use mathlib.Core.Path.{◌≡◌, refl, ap, ap₂}
use mathlib.Core.Logic.{◌↔◌, inl, inr}
use mathlib.Core.Bool.{true, and-eq-true_iff}
use mathlib.Core.Option.{some, some-injective, none-ne-some}
use text.Mathlib.TextEquality.{Char-path}
use mur_model_gateway.Common.Basics.{◌==◌, ==_iff, Bool-cases}
use mur_model_gateway.Common.Text.{str_eq, push_str, strip_prefix, starts_with}

code_refl : (c : Char) → (code c == code c) ≡ true
code_refl c = (==_iff (code c) (code c)).1 refl

pub str_eq_refl : (s : String) → str_eq s s ≡ true
unfolding str_eq
str_eq_refl [] = refl
str_eq_refl (c ∷ s) = rw (code_refl c) (str_eq_refl s)

str_eq_sound : (s t : String) → str_eq s t ≡ true → s ≡ t
unfolding str_eq
str_eq_sound [] [] h = refl
str_eq_sound [] (d ∷ t) h = cc
str_eq_sound (c ∷ s) [] h = cc
str_eq_sound (c ∷ s) (d ∷ t) h =
    let (same, rest) = (and-eq-true_iff _ _).0 h in
    ap₂ ◌∷◌ (Char-path c d ((==_iff _ _).0 same)) (str_eq_sound s t rest)

pub str_eq_iff : (s t : String) → (str_eq s t ≡ true) ↔ (s ≡ t)
str_eq_iff s t = (str_eq_sound s t, λ e. rw e (str_eq_refl t))

pub push_str-nil : (s : String) → push_str s [] ≡ s
unfolding push_str
push_str-nil [] = refl
push_str-nil (c ∷ s) = ap (◌∷◌ c) (push_str-nil s)

pub push_str_assoc : (s t u : String) → push_str (push_str s t) u ≡ push_str s (push_str t u)
unfolding push_str
push_str_assoc [] t u = refl
push_str_assoc (c ∷ s) t u = ap (◌∷◌ c) (push_str_assoc s t u)

-- A prefix splits a text.
pub starts_with-split : (s p : String) → starts_with s p ≡ true → (r : String) × (s ≡ push_str p r)
unfolding starts_with push_str
starts_with-split s [] h = (s, refl)
starts_with-split [] (d ∷ p) h = cc
starts_with-split (c ∷ s) (d ∷ p) h =
    let (same, rest) = (and-eq-true_iff _ _).0 h in
    let (r, e) = starts_with-split s p rest in (r, ap₂ ◌∷◌ (Char-path c d ((==_iff _ _).0 same)) e)

pub starts_with-push_str : (p r : String) → starts_with (push_str p r) p ≡ true
unfolding starts_with push_str
starts_with-push_str [] r = refl
starts_with-push_str (c ∷ p) r = rw (code_refl c) (starts_with-push_str p r)

pub strip_prefix-push_str : (p r : String) → strip_prefix (push_str p r) p ≡ some r
unfolding strip_prefix push_str
strip_prefix-push_str [] r = refl
strip_prefix-push_str (c ∷ p) r = rw (code_refl c) (strip_prefix-push_str p r)

pub strip_prefix-some : (s p r : String) → strip_prefix s p ≡ some r → s ≡ push_str p r
unfolding strip_prefix push_str
strip_prefix-some s [] r h = some-injective _ _ h
strip_prefix-some [] (d ∷ p) r h = cc
strip_prefix-some (c ∷ s) (d ∷ p) r h = elim (Bool-cases (code c == code d)) [
  | inl e ↦ ap₂ ◌∷◌ (Char-path c d ((==_iff _ _).0 e)) (strip_prefix-some s p r (rw (e) at h))
  | inr e ↦ absurd (none-ne-some r (rw (e) at h))
]
