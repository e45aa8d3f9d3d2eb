-- ===== src/CacheTrace/Diff/Tells.antt =====
-- What `seq_diff` of src/cache_trace.rs says of the two lists of hashes.
use mur_model_gateway.Common.{
  ◌≡◌, ◌≢◌, refl, sym, ap, ap₂, subst, ◌∙◌, inl, inr, ℕ, zero, suc, ◌≤◌, ◌<◌, Bool, true, false,
  not, List, [], ◌∷◌, Option, none, some, min, arith, if◌then◌else◌, ◌==◌, ==_iff, leb, ltb, length,
  get_elem?, Bool-cases,
}
use mathlib.Core.Option.{none-ne-some, some-injective}
use mur_model_gateway.CacheTrace.{take}
use mur_model_gateway.CacheTrace.Diff.{
  new, SeqDiff, same, at, beyond, count, next, first_mismatch, hash_eq, seq_diff_from, seq_diff,
}

-- The lists have different hashes at the index and the same ones in front of it.
abbrev pub Differ : ℕ → List ℕ → List ℕ → Type 0
Differ i xs ys =
    (x : ℕ) × (y : ℕ) × (get_elem? xs i ≡ some x)
    × (get_elem? ys i ≡ some y)
    × (x ≢ y)
    × (take i xs ≡ take i ys)

-- What each answer says, of lists of which `cap` hashes are kept.
abbrev pub Tells : ℕ → List ℕ → List ℕ → SeqDiff → Type 0
Tells cap xs ys same = (length xs ≡ length ys) × (take cap xs ≡ take cap ys)
Tells cap xs ys (at i) = Differ i (take cap xs) (take cap ys)
Tells cap xs ys beyond = (cap ≤ length xs) × (cap ≤ length ys) × (take cap xs ≡ take cap ys)
Tells cap xs ys (count shared more) =
    (shared < cap)
    × (shared ≡ min (length xs) (length ys))
    × (take shared xs ≡ take shared ys)
    × (more ≡ ltb (length xs) (length ys))
    × (length xs ≢ length ys)

take-all : (n : ℕ) (xs : List ℕ) → length xs ≤ n → take n xs ≡ xs
take-all zero [] l = refl
take-all zero (x ∷ xs) l = absurd (omega (arith, l))
take-all (suc n) [] l = refl
take-all (suc n) (x ∷ xs) l = ap (◌∷◌ x) (take-all n xs (omega arith))

-- What is kept is the first `cap` hashes, also where these are all.
head-take : (xs : List ℕ) (cap : ℕ) → (new xs cap).head ≡ take cap xs
unfolding new
head-take xs cap = elim (Bool-cases (leb (length xs) cap)) [
  | inl e ↦ rw (e) (sym (take-all cap xs (ground arith)))
  | inr e ↦ rw (e) refl
]

next-some : (o : Option ℕ) (i : ℕ) → next o ≡ some i → (j : ℕ) × (o ≡ some j) × (suc j ≡ i)
next-some none i h = absurd (none-ne-some i h)
next-some (some j) i h = (j, refl, some-injective _ _ h)

next-none : (o : Option ℕ) → next o ≡ none → o ≡ none
next-none none h = refl
next-none (some j) h = absurd (none-ne-some _ (sym h))

==-false : (x y : ℕ) → (x == y) ≡ false → x ≢ y
==-false x y h e = ground arith

Differ-cons :
    (x y i : ℕ) (xs ys : List ℕ) → x ≡ y → Differ i xs ys → Differ (suc i) (x ∷ xs) (y ∷ ys)
Differ-cons x y i xs ys e (a, b, p, q, ne, front) = (a, b, p, q, ne, ap₂ ◌∷◌ e front)

first_mismatch-Differ : (xs ys : List ℕ) (i : ℕ) → first_mismatch xs ys ≡ some i → Differ i xs ys
unfolding first_mismatch
first_mismatch-Differ [] ys i h = absurd (none-ne-some i h)
first_mismatch-Differ (x ∷ xs) [] i h = absurd (none-ne-some i h)
first_mismatch-Differ (x ∷ xs) (y ∷ ys) i h = elim (Bool-cases (x == y)) [
  | inl e ↦
      let (j, found, k) = next-some (first_mismatch xs ys) i (rw (e) at h) in
      subst (λ n. Differ n (x ∷ xs) (y ∷ ys)) k
        (Differ-cons x y j xs ys ((==_iff x y).0 e) (first_mismatch-Differ xs ys j found))
  | inr e ↦
      subst (λ n. Differ n (x ∷ xs) (y ∷ ys)) (some-injective 0 i (rw (e) at h))
        (x, y, refl, refl, ==-false x y e, refl)
]

first_mismatch-none :
    (xs ys : List ℕ) (k : ℕ)
    → first_mismatch xs ys ≡ none
    → k ≤ length xs
    → k ≤ length ys
    → take k xs ≡ take k ys
unfolding first_mismatch
first_mismatch-none xs ys zero h l m = refl
first_mismatch-none [] ys (suc k) h l m = absurd (omega (arith, l))
first_mismatch-none (x ∷ xs) [] (suc k) h l m = absurd (omega (arith, m))
first_mismatch-none (x ∷ xs) (y ∷ ys) (suc k) h l m = elim (Bool-cases (x == y)) [
  | inl e ↦ ap₂ ◌∷◌ ((==_iff x y).0 e) (
      first_mismatch-none xs ys k (next-none (first_mismatch xs ys) (rw (e) at h)) (omega arith)
        (omega arith))
  | inr e ↦ absurd (none-ne-some 0 (sym (rw (e) at h)))
]

take-take : (k n : ℕ) (xs : List ℕ) → k ≤ n → take k (take n xs) ≡ take k xs
take-take zero n xs l = refl
take-take (suc k) zero xs l = absurd (omega (arith, l))
take-take (suc k) (suc n) [] l = refl
take-take (suc k) (suc n) (x ∷ xs) l = ap (◌∷◌ x) (take-take k n xs (omega arith))

length-take : (k n : ℕ) (xs : List ℕ) → k ≤ n → k ≤ length xs → k ≤ length (take n xs)
length-take k zero xs l m = omega arith
length-take k (suc n) [] l m = omega arith
length-take zero (suc n) (x ∷ xs) l m = omega arith
length-take (suc k) (suc n) (x ∷ xs) l m =
    omega (arith, length-take k n xs (omega arith) (omega arith))

-- A fact about each answer is a fact about the answer that the three tests pick.
pick :
    (P : SeqDiff → Type 0) (a b c : Bool) (shared : ℕ) (more : Bool)
    → (a ≡ true → c ≡ true → P same)
    → (a ≡ true → c ≡ false → P beyond)
    → (a ≡ false → b ≡ true → P beyond)
    → (a ≡ false → b ≡ false → P (count shared more))
    → P (if not a then if b then beyond else count shared more else if c then same else beyond)
pick P true b true shared more p q r s = p refl refl
pick P true b false shared more p q r s = q refl refl
pick P false true c shared more p q r s = r refl refl
pick P false false c shared more p q r s = s refl refl

module _ (cap : ℕ) (xs ys : List ℕ) where
  abbrev kept_mismatch : Option ℕ
  kept_mismatch = first_mismatch (take cap xs) (take cap ys)

  -- Without a mismatch the lists agree as far as they are kept and both go.
  agree :
      kept_mismatch ≡ none
      → (k : ℕ) → k ≤ cap
      → k ≤ length xs
      → k ≤ length ys
      → take k xs ≡ take k ys
  agree h k l m n =
      sym (take-take k cap xs l)
      ∙ first_mismatch-none (take cap xs) (take cap ys) k h (length-take k cap xs l m)
          (length-take k cap ys l n)
      ∙ take-take k cap ys l

  agree_same : kept_mismatch ≡ none → length xs ≡ length ys → take cap xs ≡ take cap ys
  agree_same h e = elim (Bool-cases (leb cap (length xs))) [
    | inl l ↦ agree h cap (omega arith) (ground arith) (ground arith)
    | inr l ↦
        let whole = agree h (length xs) (ground arith) (omega arith) (omega arith) in
        let lists : xs ≡ ys =
          sym (take-all (length xs) xs (omega arith))
          ∙ whole
          ∙ take-all (length xs) ys (omega arith) in
        ap (take cap) lists
  ]

  hash_eq-short :
      hash_eq (new xs cap).tail (new ys cap).tail ≡ false → length xs ≡ length ys → cap ≤ length xs
  unfolding new
  hash_eq-short h e = elim (Bool-cases (leb (length xs) cap)) [
    | inl d ↦ let clash : true ≡ false = rw (d, sym e, d) at h in cc
    | inr d ↦ ground arith
  ]

  answer-Tells :
      (o : Option ℕ)
      → kept_mismatch ≡ o
      → Tells cap xs ys (seq_diff_from o (new xs cap) (new ys cap) cap)
  unfolding new
  answer-Tells (some i) h = first_mismatch-Differ (take cap xs) (take cap ys) i h
  answer-Tells none h =
      pick (Tells cap xs ys) (length xs == length ys) (leb cap (min (length xs) (length ys)))
        (hash_eq (new xs cap).tail (new ys cap).tail) _ _
        (λ a c. let e = (==_iff _ _).0 a in (e, agree_same h e))
        (λ a c.
          let e = (==_iff _ _).0 a in let l = hash_eq-short c e in (l, omega arith, agree_same h e))
        (λ a b.
          let l : cap ≤ min (length xs) (length ys) = ground arith in
          (omega arith, omega arith, agree h cap (omega arith) (omega arith) (omega arith)))
        (λ a b.
          let l : min (length xs) (length ys) < cap = ground arith in
          (
            l,
            refl,
            agree h (min (length xs) (length ys)) (omega arith) (omega arith) (omega arith),
            refl,
            ==-false (length xs) (length ys) a,
          ))

-- What the comparison of two requests' hashes says is so, of lists of any length, of which the first
-- `cap` hashes are kept. `same`: the lists are as long and agree in what is kept. `at`: this is the
-- first index at which what is kept differs. `beyond`: both lists reach the cap and agree up to it.
-- `count`: one list goes on where the other, which is below the cap, ends, and they agree up to there;
-- the sign says which list is longer.
pub seq_diff-Tells :
    (cap : ℕ) (xs ys : List ℕ) → Tells cap xs ys (seq_diff (new xs cap) (new ys cap) cap)
unfolding seq_diff
seq_diff-Tells cap xs ys =
    answer-Tells cap xs ys (first_mismatch (new xs cap).head (new ys cap).head)
      (sym (ap₂ first_mismatch (head-take xs cap) (head-take ys cap)))
