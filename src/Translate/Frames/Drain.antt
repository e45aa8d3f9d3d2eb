-- ===== src/Translate/Frames/Drain.antt =====
-- The drain loop ends by its own test, and takes a buffer in parts.
use Prim.Native.Char.{code}
use mur_model_gateway.Common.{
  ℕ, zero, suc, ◌≤◌, ◌<◌, ◌≡◌, refl, ◌∙◌, ◌&&◌, ◌==◌, false, List, [], ◌++◌, append_assoc, Option,
  none, some, String, arith, Bool-cases, Option-cases, inl, inr,
}
use mur_model_gateway.Common.Text.{push_str}
use mur_model_gateway.Json.{Value}
use mur_model_gateway.Translate.Frames.{size, cut, frame, drain}

-- A blank line that is there stays there when more text arrives.
cut-push_str :
    (a b f r : String) → cut a ≡ some (f, r) → cut (push_str a b) ≡ some (f, push_str r b)
unfolding cut push_str
cut-push_str String.[] b f r h = cc
cut-push_str (String.◌∷◌ c String.[]) b f r h = cc
cut-push_str (String.◌∷◌ c (String.◌∷◌ d s)) b f r h = elim (Option-cases (cut (String.◌∷◌ d s))) [
  | inl e ↦ ground arith
  | inr ((g, q), e) ↦ ground (arith, cut-push_str (String.◌∷◌ d s) b g q e)
]

-- Draining a frame makes the buffer smaller.
cut-size : (a f r : String) → cut a ≡ some (f, r) → size r < size a
unfolding cut
cut-size String.[] f r h = cc
cut-size (String.◌∷◌ c String.[]) f r h = cc
cut-size (String.◌∷◌ c (String.◌∷◌ d s)) f r h = elim (Option-cases (cut (String.◌∷◌ d s))) [
  | inl e ↦ ground arith
  | inr ((g, q), e) ↦ ground (arith, cut-size (String.◌∷◌ d s) g q e)
]

-- No carriage return stands in the text.
abbrev pub NoCr : String → Type 0
NoCr String.[] = Unit
NoCr (String.◌∷◌ c s) = ((code c == b'\r') ≡ false) × NoCr s

cut-NoCr : (a f r : String) → cut a ≡ some (f, r) → NoCr a → NoCr r
unfolding cut
cut-NoCr String.[] f r h k = cc
cut-NoCr (String.◌∷◌ c String.[]) f r h k = cc
cut-NoCr (String.◌∷◌ c (String.◌∷◌ d s)) f r h (p, q) = elim (Option-cases (cut (String.◌∷◌ d s))) [
  | inl e ↦ let same : s ≡ r = ground arith in rw (← same) q.1
  | inr ((g, t), e) ↦ elim (Bool-cases (code c == b'\n' && code d == b'\n')) [
    | inl blank ↦ let same : s ≡ r = ground arith in rw (← same) q.1
    | inr other ↦ cut-NoCr (String.◌∷◌ d s) g r (ground arith) q
  ]
]

module _ (from_str : String → Option Value) where
  -- Any fuel that covers the buffer gives the same frames and the same rest.
  drain-fuel :
      (f g : ℕ) (s : String) → size s ≤ f → size s ≤ g → drain from_str f s ≡ drain from_str g s
  unfolding drain
  drain-fuel zero zero s p q = refl
  drain-fuel zero (suc g) s p q = elim (Option-cases (cut s)) [
    | inl e ↦ rw (e, drain)
    | inr ((x, r), e) ↦ absurd (omega (arith, cut-size s x r e))
  ]
  drain-fuel (suc f) zero s p q = elim (Option-cases (cut s)) [
    | inl e ↦ rw (e, drain)
    | inr ((x, r), e) ↦ absurd (omega (arith, cut-size s x r e))
  ]
  drain-fuel (suc f) (suc g) s p q = elim (Option-cases (cut s)) [
    | inl e ↦ rw (e, drain)
    | inr ((x, r), e) ↦ rw (
      e,
      drain,
      drain-fuel f g r (omega (arith, cut-size s x r e)) (omega (arith, cut-size s x r e)),
    )
  ]

  -- The loop with the fuel that covers its buffer.
  abbrev pub drain_all : String → List (String × Value) × String
  drain_all s = drain from_str (size s) s

  pub drain_all-none : (s : String) → cut s ≡ none → drain_all s ≡ ([], s)
  unfolding drain
  drain_all-none s e =
      drain-fuel (size s) (suc (size s)) s (omega arith) (omega arith) ∙ rw (e, drain)

  drain_all-some :
      (s x r : String)
      → cut s ≡ some (x, r)
      → drain_all s ≡ (let (frames, left) = drain_all r in (frame from_str x ++ frames, left))
  unfolding drain
  drain_all-some s x r e =
      drain-fuel (size s) (suc (size s)) s (omega arith) (omega arith)
      ∙ rw
          (e, drain, drain-fuel (size s) (size r) r (omega (arith, cut-size s x r e)) (omega arith))

  -- No blank line is left in the buffer.
  pub drain-left : (n : ℕ) (s : String) → size s ≤ n → cut (drain_all s).1 ≡ none
  drain-left zero s h = elim (Option-cases (cut s)) [
    | inl e ↦ rw (drain_all-none s e) e
    | inr ((x, r), e) ↦ absurd (omega (arith, cut-size s x r e))
  ]
  drain-left (suc n) s h = elim (Option-cases (cut s)) [
    | inl e ↦ rw (drain_all-none s e) e
    | inr ((x, r), e) ↦
        rw (drain_all-some s x r e) (drain-left n r (omega (arith, cut-size s x r e)))
  ]

  pub drain-NoCr : (n : ℕ) (s : String) → size s ≤ n → NoCr s → NoCr (drain_all s).1
  drain-NoCr zero s h k = elim (Option-cases (cut s)) [
    | inl e ↦ rw (drain_all-none s e) k
    | inr ((x, r), e) ↦ absurd (omega (arith, cut-size s x r e))
  ]
  drain-NoCr (suc n) s h k = elim (Option-cases (cut s)) [
    | inl e ↦ rw (drain_all-none s e) k
    | inr ((x, r), e) ↦
        rw (drain_all-some s x r e)
          (drain-NoCr n r (omega (arith, cut-size s x r e)) (cut-NoCr s x r e k))
  ]

  -- What was drained before more text arrived needs not be drained again.
  pub drain_all-push_str :
      (n : ℕ) (a b : String)
      → size a ≤ n
      → drain_all (push_str a b) ≡ (
          let (frames, left) = drain_all a in
          let (more, left') = drain_all (push_str left b) in (frames ++ more, left'))
  drain_all-push_str zero a b h = elim (Option-cases (cut a)) [
    | inl e ↦ rw (drain_all-none a e)
    | inr ((x, r), e) ↦ absurd (omega (arith, cut-size a x r e))
  ]
  drain_all-push_str (suc n) a b h = elim (Option-cases (cut a)) [
    | inl e ↦ rw (drain_all-none a e)
    | inr ((x, r), e) ↦
        rw
          (
            drain_all-some a x r e,
            drain_all-some (push_str a b) x (push_str r b) (cut-push_str a b x r e),
            drain_all-push_str n r b (omega (arith, cut-size a x r e)),
          )
          (rw append_assoc)
  ]
