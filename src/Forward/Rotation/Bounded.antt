-- ===== src/Forward/Rotation/Bounded.antt =====
-- The wait ends, and never answers with the rejected token.
use mur_model_gateway.Common.{
  ℕ, zero, suc, ◌+◌, ◌*◌, ◌≤◌, ◌<◌, sym, subst, ◌==◌, ==_iff, ◌≡◌, refl, true, false, min, none,
  some, String, leb, Bool-cases, Option, Option-cases, inl, inr, ok, err, arith, is_some, ap, ◌∙◌,
}
use mathlib.Core.Option.{none-ne-some, some-injective}
use mur_model_gateway.Common.Text.{str_eq}
use mur_model_gateway.Forward.Rotation.{
  Reading, replacement, poll_loop, wait_for_rotation, rotation_poll, rotation_wait,
}

-- A poll is slept for until a poll interval after the one before, or the deadline if that is sooner.
abbrev pub Sleeps : (ℕ → ℕ) → ℕ → Type 0
Sleeps clock deadline = (n : ℕ) → min (clock n + rotation_poll) deadline ≤ clock (suc n)

poll_loop-ends :
    (readings : ℕ → Reading) (clock : ℕ → ℕ) (rejected : String) (deadline fuel n : ℕ)
    → Sleeps clock deadline
    → deadline ≤ clock n + fuel * rotation_poll
    → is_some (poll_loop readings clock rejected deadline (suc fuel) n) ≡ true
unfolding poll_loop
poll_loop-ends readings clock rejected deadline zero n sleeps h =
    elim (Option-cases (replacement rejected (readings n))) [
      | inr (t, e) ↦ rw (e, poll_loop, is_some) refl
      | inl e ↦ rw (e, poll_loop, is_some) (ground arith)
    ]
poll_loop-ends readings clock rejected deadline (suc fuel) n sleeps h =
    let step = sleeps n in
    elim (Option-cases (replacement rejected (readings n))) [
      | inr (t, e) ↦ rw (e, poll_loop, is_some) refl
      | inl e ↦ elim (Bool-cases (leb deadline (clock n))) [
        | inl late ↦ rw (e, late, poll_loop, is_some) refl
        | inr early ↦
            rw (e, early, poll_loop, is_some)
              (poll_loop-ends readings clock rejected deadline fuel (suc n) sleeps (ground arith))
      ]
    ]

replacement-fresh :
    (rejected : String) (r : Reading) (t : String)
    → replacement rejected r ≡ some t
    → (r ≡ ok (some t)) × (str_eq t rejected ≡ false)
unfolding replacement
replacement-fresh rejected (ok (some u)) t h = elim (Bool-cases (str_eq u rejected)) [
  | inl e ↦ ground arith
  | inr e ↦ let same : some u ≡ some t = rw e at h in fresh (some-injective u t same) e
]
  where
    found : String → Reading
    found s = ok (some s)

    fresh : u ≡ t → str_eq u rejected ≡ false → (found u ≡ found t) × (str_eq t rejected ≡ false)
    fresh p e = (ap found p, rw p at e)
replacement-fresh rejected (ok none) t h = ground arith
replacement-fresh rejected (err e) t h = ground arith

-- The polls from one on to before another read no stored token but the rejected one.
abbrev pub Quiet : (ℕ → Reading) → String → ℕ → ℕ → Type 0
Quiet readings rejected from until =
    (m : ℕ) (t : String)
    → from ≤ m
    → m < until
    → readings m ≡ ok (some t)
    → str_eq t rejected ≡ true

-- How polls from one on to before another end: with the token that the first of them to read another
-- than the rejected one reads, or, where the deadline is past at one of them and none has, with none.
abbrev pub Answers : (ℕ → Reading) → (ℕ → ℕ) → String → ℕ → ℕ → ℕ → Option (Option String) → Type 0
Answers readings clock rejected deadline from until (some (some t)) =
    (n : ℕ) × (from ≤ n)
    × (n < until)
    × (readings n ≡ ok (some t))
    × (str_eq t rejected ≡ false)
    × Quiet readings rejected from n
Answers readings clock rejected deadline from until (some none) =
    (n : ℕ) × (from ≤ n) × (n < until) × (deadline ≤ clock n) × Quiet readings rejected from (suc n)
Answers readings clock rejected deadline from until none = false ≡ true

module _ (readings : ℕ → Reading) (clock : ℕ → ℕ) (rejected : String) (deadline : ℕ) where
  nothing-rejected :
      (r : Reading) (t : String)
      → replacement rejected r ≡ none
      → r ≡ ok (some t)
      → str_eq t rejected ≡ true
  unfolding replacement
  nothing-rejected r t h e = elim (Bool-cases (str_eq t rejected)) [
    | inl same ↦ same
    | inr other ↦ absurd (none-ne-some t (sym (rw (e, other, replacement) at h)))
  ]

  Quiet-cons :
      (n until : ℕ)
      → replacement rejected (readings n) ≡ none
      → Quiet readings rejected (suc n) until
      → Quiet readings rejected n until
  Quiet-cons n until h q m t low high e = elim (Bool-cases (n == m)) [
    | inl same ↦ nothing-rejected (readings n) t h (ap readings ((==_iff n m).0 same) ∙ e)
    | inr other ↦ q m t (ground arith) high e
  ]

  Quiet-empty : (n : ℕ) → Quiet readings rejected n n
  Quiet-empty n m t low high e = absurd (omega (arith, low, high))

  Answers-later :
      (n until : ℕ) (o : Option (Option String))
      → replacement rejected (readings n) ≡ none
      → Answers readings clock rejected deadline (suc n) until o
      → Answers readings clock rejected deadline n until o
  Answers-later n until (some (some t)) h (m, low, high, read, other, q) =
      (m, omega arith, high, read, other, Quiet-cons n m h q)
  Answers-later n until (some none) h (m, low, high, late, q) =
      (m, omega arith, high, late, Quiet-cons n (suc m) h q)
  Answers-later n until none h k = k

  poll_loop-Answers :
      (fuel n : ℕ) (o : Option (Option String))
      → poll_loop readings clock rejected deadline fuel n ≡ o
      → is_some o ≡ true
      → Answers readings clock rejected deadline n (n + fuel) o
  unfolding poll_loop
  poll_loop-Answers zero n none e k = k
  poll_loop-Answers zero n (some a) e k = absurd (none-ne-some a e)
  poll_loop-Answers (suc fuel) n o e k = elim (Option-cases (replacement rejected (readings n))) [
    | inr (u, found) ↦
        let (read, other) = replacement-fresh rejected (readings n) u found in
        subst (Answers readings clock rejected deadline n (n + suc fuel))
          (rw (found, poll_loop) at e) (n, omega arith, omega arith, read, other, Quiet-empty n)
    | inl nothing ↦ elim (Bool-cases (leb deadline (clock n))) [
      | inl late ↦
          subst (Answers readings clock rejected deadline n (n + suc fuel))
            (rw (nothing, late, poll_loop) at e)
            (
              n,
              omega arith,
              omega arith,
              ground arith,
              Quiet-cons n (suc n) nothing (Quiet-empty (suc n)),
            )
      | inr early ↦
          let same : suc n + fuel ≡ n + suc fuel = omega arith in
          Answers-later n (n + suc fuel) o nothing (
            subst (λ until. Answers readings clock rejected deadline (suc n) until o) same
              (poll_loop-Answers fuel (suc n) o (rw (nothing, early, poll_loop) at e) k))
    ]
  ]

-- If every sleep lasts to the next poll or the deadline, the wait ends within its eleven polls. It
-- answers with the token of the first of them that read one other than the rejected token; or, where at
-- one of them the deadline of half a second is past and no poll up to that one has read such a token,
-- with none.
pub wait_for_rotation-ends :
    (readings : ℕ → Reading) (clock : ℕ → ℕ) (start : ℕ) (rejected : String)
    → start ≤ clock 0
    → Sleeps clock (start + 500)
    → Answers readings clock rejected
        (start + 500)
        0
        11
        (wait_for_rotation readings clock start rejected)
unfolding wait_for_rotation
wait_for_rotation-ends readings clock start rejected h sleeps =
    let deadline = start + rotation_wait in
    poll_loop-Answers readings clock rejected deadline 11 0
      (poll_loop readings clock rejected deadline 11 0) refl
      (poll_loop-ends readings clock rejected deadline 10 0 sleeps (omega (arith, h)))
