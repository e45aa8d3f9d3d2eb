-- ===== src/Version/Fresh.antt =====
-- What `VersionCache::get` of src/cc_version.rs answers.
use mur_model_gateway.Common.{
  ◌≡◌, refl, sym, ap, subst, ◌⊎◌, inl, inr, ℕ, ◌+◌, ◌-◌, ◌<◌, Bool, true, false, not, Bool-cases,
  List, [], ◌∷◌, ◌++◌, Option, none, some, String, arith, ltb, ltb→lt, if◌then◌else◌, ◌>>=◌, get_or,
}
use mathlib.Core.Option.{none-ne-some, some-injective}
use mur_model_gateway.Common.Text.{is_empty}
use mur_model_gateway.Common.Text.Search.{split_whitespace, all_chars, any_char, is_ascii_digit}
use mur_model_gateway.Version.{
  fallback_version, cache_ttl, detect_from_claude, VersionCache, new, version_char, next,
  parse_version, Output, detect_cc_version, Call, detected, get_version, answers,
}

-- Digits, dots and dashes, with a digit among them.
abbrev pub IsVersion : String → Type 0
IsVersion v = (all_chars version_char v ≡ true) × (any_char is_ascii_digit v ≡ true)

parse_first :
    (first : String) (a b c : Bool) (v : String)
    → all_chars version_char first ≡ b
    → any_char is_ascii_digit first ≡ c
    → (if a then none else if not b then none else if not c then none else some first) ≡ some v
    → IsVersion v
parse_first first true b c v p q h = absurd (none-ne-some _ h)
parse_first first false false c v p q h = absurd (none-ne-some _ h)
parse_first first false true false v p q h = absurd (none-ne-some _ h)
parse_first first false true true v p q h = subst IsVersion (some-injective _ _ h) (p, q)

parse_next :
    (o : Option String) (v : String)
    → (o >>= (λ first.
        if is_empty first
        then none
        else if not (all_chars version_char first)
        then none
        else if not (any_char is_ascii_digit first)
        then none
        else some first))
      ≡ some v
    → IsVersion v
parse_next none v h = absurd (none-ne-some _ h)
parse_next (some first) v h =
    parse_first first (is_empty first) (all_chars version_char first)
      (any_char is_ascii_digit first) v refl refl h

pub parse_version-IsVersion : (raw v : String) → parse_version raw ≡ some v → IsVersion v
unfolding parse_version
parse_version-IsVersion raw v h = parse_next (next (split_whitespace raw)) v h

ran-IsVersion :
    (success : Bool) (stdout : Option String) (v : String)
    → (if not success then none else stdout >>= parse_version) ≡ some v
    → IsVersion v
ran-IsVersion false o v h = absurd (none-ne-some _ h)
ran-IsVersion true none v h = absurd (none-ne-some _ h)
ran-IsVersion true (some raw) v h = parse_version-IsVersion raw v h

output-IsVersion :
    (o : Option Output) (v : String)
    → (o >>= (λ output. if not output.success then none else output.stdout >>= parse_version))
      ≡ some v
    → IsVersion v
output-IsVersion none v h = absurd (none-ne-some _ h)
output-IsVersion (some out) v h = ran-IsVersion out.success out.stdout v h

get_or-IsVersion :
    (o : Option String)
    → ((v : String) → o ≡ some v → IsVersion v)
    → IsVersion (get_or o fallback_version)
unfolding all_chars any_char
get_or-IsVersion none h = (refl, refl)
get_or-IsVersion (some v) h = h v refl

detected-IsVersion : (c : Call) → IsVersion (detected c)
unfolding detect_cc_version
detected-IsVersion c =
    get_or-IsVersion (detect_cc_version c.bin c.run) (output-IsVersion (c.bin >>= c.run))

-- The text is what one of the calls detected, and was stored at that time.
abbrev DetectedBy : List Call → String → ℕ → Type 0
DetectedBy earlier v t =
    (d : Call) × (xs : List Call) × (ys : List Call) × (earlier ≡ xs ++ d ∷ ys)
    × (v ≡ detected d)
    × (t ≡ d.stored)

-- A version, which the call detected itself or one before it did that stored it less than 300 seconds
-- ago.
abbrev pub Fresh : List Call → Call → String → Type 0
Fresh earlier c v =
    IsVersion v × ((v ≡ detected c) ⊎ ((t : ℕ) × DetectedBy earlier v t × (c.now < t + cache_ttl)))

-- Each of the calls has one answer, a fresh one.
abbrev pub AllFresh : List Call → List Call → List String → Type 0
AllFresh earlier [] [] = Unit
AllFresh earlier [] (v ∷ vs) = ⊥
AllFresh earlier (c ∷ cs) [] = ⊥
AllFresh earlier (c ∷ cs) (v ∷ vs) = Fresh earlier c v × AllFresh (c ∷ earlier) cs vs

abbrev Stored : List Call → Option (String × ℕ) → Type 0
Stored earlier none = Unit
Stored earlier (some (v, t)) = DetectedBy earlier v t

Stored-later :
    (c : Call) (earlier : List Call) (slot : Option (String × ℕ))
    → Stored earlier slot
    → Stored (c ∷ earlier) slot
Stored-later c earlier none h = tt
Stored-later c earlier (some (v, t)) (d, xs, ys, p, q, r) =
    (d, c ∷ xs, ys, ap (λ zs. c ∷ zs) p, q, r)

in_time : (now t : ℕ) → ltb (now - t) cache_ttl ≡ true → now < t + cache_ttl
in_time now t h = let k = ltb→lt (now - t) cache_ttl h in omega arith

abbrev detecting : Option (String × ℕ) → VersionCache
detecting slot = record { strategy = detect_from_claude; cached = slot }

DetectedBy-IsVersion :
    (earlier : List Call) (v : String) (t : ℕ) → DetectedBy earlier v t → IsVersion v
DetectedBy-IsVersion earlier v t (d, xs, ys, p, q, r) =
    subst IsVersion (sym q) (detected-IsVersion d)

answers_from :
    (earlier : List Call) (slot : Option (String × ℕ)) (cs : List Call)
    → Stored earlier slot
    → AllFresh earlier cs (answers (detecting slot) cs)
unfolding answers get_version
answers_from earlier slot [] h = tt
answers_from earlier none (c ∷ cs) h = (
  (detected-IsVersion c, inl refl),
  answers_from (c ∷ earlier) (some (detected c, c.stored)) cs (c, [], earlier, refl, refl, refl),
)
answers_from earlier (some (v, t)) (c ∷ cs) h = elim (Bool-cases (ltb (c.now - t) cache_ttl)) [
  | inl e ↦ rw (e) (
    (DetectedBy-IsVersion earlier v t h, inr (t, h, in_time c.now t e)),
    answers_from (c ∷ earlier) (some (v, t)) cs (Stored-later c earlier (some (v, t)) h),
  )
  | inr e ↦ rw (e) (
    (detected-IsVersion c, inl refl),
    answers_from (c ∷ earlier) (some (detected c, c.stored)) cs (c, [], earlier, refl, refl, refl),
  )
]

-- A cache that detects answers each of a sequence of calls with a version, a text of digits, dots and
-- dashes that has a digit. It is what that call detected, the fallback where its detection failed, or
-- what one of the calls before it did, stored less than 300 seconds before the call.
pub answers-AllFresh : (cs : List Call) → AllFresh [] cs (answers (new detect_from_claude) cs)
answers-AllFresh cs = answers_from [] none cs tt
