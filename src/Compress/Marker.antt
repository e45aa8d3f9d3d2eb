-- ===== src/Compress/Marker.antt =====
-- What `has_retrieve_marker` of src/compress.rs finds.
use Prim.Native.Char.{Char, code}
use Prim.Native.String.{[], ◌∷◌}
use mur_model_gateway.Common.{
  ◌≡◌, refl, sym, ◌∙◌, ap, ap₂, inl, inr, ℕ, zero, suc, ◌<◌, Bool, true, false, ◌||◌, ◌&&◌, ◌==◌,
  leb, Bool-cases, if◌then◌else◌, Option, none, some, String, or_else, arith, Option-cases,
}
use mathlib.Core.Option.{none-ne-some, some-injective}
use mur_model_gateway.Common.Text.{push_str, strip_prefix}
use mur_model_gateway.Common.Text.Prefix.{strip_prefix-some}
use mur_model_gateway.Common.Text.Search.{after_first, char_count, leading_hex, is_ascii_hexdigit}
use mur_model_gateway.Compress.{is_hash, marker_loop, has_retrieve_marker}

-- The text begins with so many hexadecimal digits.
abbrev pub digits : ℕ → String → Bool
digits zero s = true
digits (suc n) [] = false
digits (suc n) (c ∷ s) = is_ascii_hexdigit c && digits n s

-- what follows a quote
abbrev pub quoted : String → String
quoted [] = []
quoted (c ∷ s) = if code c == 34 then s else []

-- Sixteen hexadecimal digits, or a quote and then sixteen of them.
abbrev pub sixteen : String → Bool
sixteen tail = digits 16 tail || digits 16 (quoted tail)

abbrev pub sixteen_behind : Option String → Bool
sixteen_behind none = false
sixteen_behind (some tail) = sixteen tail

-- A `hash=` stands at some place of the text, with sixteen digits behind it or behind a quote that
-- follows it.
unfoldable pub hash_somewhere : String → Bool
unfolding strip_prefix
hash_somewhere [] = false
hash_somewhere (c ∷ s) = sixteen_behind (strip_prefix (c ∷ s) "hash=") || hash_somewhere s

leading_hex-digits : (n : ℕ) (s : String) → leb n (leading_hex s) ≡ digits n s
unfolding leading_hex
leading_hex-digits zero s = ground arith
leading_hex-digits (suc n) [] = ground arith
leading_hex-digits (suc n) (c ∷ s) = elim (Bool-cases (is_ascii_hexdigit c)) [
  | inl e ↦ rw (e) (leb_suc n (leading_hex s) ∙ leading_hex-digits n s)
  | inr e ↦ rw (e) (ground arith)
]
  where
    leb_suc : (a b : ℕ) → leb (suc a) (suc b) ≡ leb a b
    leb_suc a b = ground arith

first_or : (o rest : Option String) → (elim o [ none ↦ rest | some t ↦ some t ]) ≡ or_else o rest
first_or none rest = refl
first_or (some t) rest = refl

after_first-cons :
    (c : Char) (s p : String)
    → after_first (c ∷ s) p ≡ or_else (strip_prefix (c ∷ s) p) (after_first s p)
unfolding after_first
after_first-cons c s p = first_or (strip_prefix (c ∷ s) p) (after_first s p)

after_first-none : (s : String) → after_first s "hash=" ≡ none → hash_somewhere s ≡ false
unfolding hash_somewhere
after_first-none [] h = refl
after_first-none (c ∷ s) h = elim (Option-cases (strip_prefix (c ∷ s) "hash=")) [
  | inl e ↦ rw (e) (after_first-none s (rw (after_first-cons c s "hash=", e) at h))
  | inr (t, e) ↦ absurd (none-ne-some t (sym (rw (after_first-cons c s "hash=", e) at h)))
]

skip :
    (c : Char) (s : String)
    → strip_prefix (c ∷ s) "hash=" ≡ none
    → hash_somewhere (c ∷ s) ≡ hash_somewhere s
unfolding hash_somewhere
skip c s e = rw (e) refl

longer : (c : Char) (s t : String) → char_count t < char_count s → char_count t < char_count (c ∷ s)
unfolding char_count
longer c s t l = omega arith

-- No second `hash=` begins inside of one.
hash_somewhere-push_str :
    (t : String) → hash_somewhere (push_str "hash=" t) ≡ (sixteen t || hash_somewhere t)
unfolding hash_somewhere push_str strip_prefix
hash_somewhere-push_str t = refl

char_count-push_str : (t : String) → char_count t < char_count (push_str "hash=" t)
unfolding char_count push_str
char_count-push_str t = omega arith

after_first-some :
    (s t : String)
    → after_first s "hash=" ≡ some t
    → (hash_somewhere s ≡ (sixteen t || hash_somewhere t)) × (char_count t < char_count s)
after_first-some [] t h = absurd (none-ne-some t (unfold after_first strip_prefix in h))
after_first-some (c ∷ s) t h = elim (Option-cases (strip_prefix (c ∷ s) "hash=")) [
  | inl e ↦
      let (same, shorter) = after_first-some s t (rw (after_first-cons c s "hash=", e) at h) in
      (skip c s e ∙ same, longer c s t shorter)
  | inr (u, e) ↦
      let u_is_t = some-injective _ _ (rw (after_first-cons c s "hash=", e) at h) in
      let whole = strip_prefix-some (c ∷ s) "hash=" t (e ∙ ap some u_is_t) in
      rw (whole) (hash_somewhere-push_str t, char_count-push_str t)
]

quote_no_digit : (c : Char) → (code c == 34) ≡ true → is_ascii_hexdigit c ≡ false
quote_no_digit c h = ground arith

or_false : (b : Bool) → b ≡ (b || false)
or_false true = refl
or_false false = refl

is_hash-sixteen : (tail : String) → is_hash tail ≡ sixteen tail
unfolding is_hash strip_prefix leading_hex
is_hash-sixteen [] = refl
is_hash-sixteen (c ∷ s) = elim (Bool-cases (code c == 34)) [
  | inl e ↦ rw (e) (rw (quote_no_digit c e) (leading_hex-digits 16 s))
  | inr e ↦ rw (e) (leading_hex-digits 16 (c ∷ s) ∙ or_false (digits 16 (c ∷ s)))
]

marker_loop-somewhere :
    (fuel : ℕ) (s : String) → char_count s < fuel → marker_loop fuel s ≡ hash_somewhere s
unfolding marker_loop
marker_loop-somewhere zero s l = absurd (omega (arith, l))
marker_loop-somewhere (suc fuel) s l = elim (Option-cases (after_first s "hash=")) [
  | inl e ↦ rw (e, marker_loop) (sym (after_first-none s e))
  | inr (t, e) ↦
      let (same, shorter) = after_first-some s t e in
      rw (e, marker_loop)
        (ap₂ ◌||◌ (is_hash-sixteen t) (marker_loop-somewhere fuel t (omega arith)) ∙ sym same)
]

-- The loop over the places of `hash=` has rounds enough, and it returns true exactly where a `hash=`
-- stands at some place of the text with sixteen hexadecimal digits behind it, a quote between or not.
pub has_retrieve_marker-somewhere : (s : String) → has_retrieve_marker s ≡ hash_somewhere s
unfolding has_retrieve_marker
has_retrieve_marker-somewhere s = marker_loop-somewhere (suc (char_count s)) s (omega arith)
