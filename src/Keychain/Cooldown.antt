-- ===== src/Keychain/Cooldown.antt =====
-- `claim_rejection_slot` over a sequence of rejections.
use mur_model_gateway.Common.{
  ℕ, ◌≤◌, ◌-◌, ◌≡◌, false, List, [], ◌∷◌, Option, none, some, if◌then◌else◌, ltb, Bool-cases, inl,
  inr, arith,
}
use mur_model_gateway.Keychain.{claim_rejection_slot}

-- The moments at which a sequence of claims is granted.
unfoldable pub granted : ℕ → Option ℕ → List ℕ → List ℕ
granted cooldown last [] = []
granted cooldown last (t ∷ ts) =
    let (is_granted, last') = claim_rejection_slot last cooldown t in
    let rest = granted cooldown last' ts in if is_granted then t ∷ rest else rest

-- Each moment is later than the one before by the cooldown at least.
abbrev pub AfterCooldown : ℕ → Option ℕ → List ℕ → Type 0
AfterCooldown cooldown last [] = Unit
AfterCooldown cooldown none (t ∷ ts) = AfterCooldown cooldown (some t) ts
AfterCooldown cooldown (some s) (t ∷ ts) = (cooldown ≤ t - s) × AfterCooldown cooldown (some t) ts

ltb-ge : (a b : ℕ) → ltb a b ≡ false → b ≤ a
ltb-ge a b h = ground arith

-- However often claims come, two that are granted in turn lie the cooldown apart at least.
pub granted-AfterCooldown :
    (cooldown : ℕ) (last : Option ℕ) (ts : List ℕ)
    → AfterCooldown cooldown last (granted cooldown last ts)
unfolding granted claim_rejection_slot
granted-AfterCooldown cooldown last [] = tt
granted-AfterCooldown cooldown none (t ∷ ts) = granted-AfterCooldown cooldown (some t) ts
granted-AfterCooldown cooldown (some s) (t ∷ ts) = elim (Bool-cases (ltb (t - s) cooldown)) [
  | inl e ↦ rw e (granted-AfterCooldown cooldown (some s) ts)
  | inr e ↦ rw e (ltb-ge (t - s) cooldown e, granted-AfterCooldown cooldown (some t) ts)
]
