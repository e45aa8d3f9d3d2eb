-- ===== src/Permits/Cap.antt =====
-- No permit is lost, and none is made.
use mur_model_gateway.Common.{
  ℕ, suc, ◌+◌, ◌≡◌, refl, Bool, true, false, List, ◌∷◌, ◌++◌, if◌then◌else◌, count, count-append,
  Bool-cases, inl, inr, arith, ap, ◌∙◌,
}
use mur_model_gateway.Route.{Provider, anthropic, open_ai, gemini, codex}
use mur_model_gateway.Permits.{
  ProviderSemaphores, new, for_provider, set_free, State, start, Step, acquired, refused, returned,
  streaming, ended, Reach, initial, then_step,
}

abbrev pub same : Provider → Provider → Bool
same anthropic anthropic = true
same open_ai open_ai = true
same gemini gemini = true
same codex codex = true
same _ _ = false

for_provider-set_free :
    (s : ProviderSemaphores) (p q : Provider) (n : ℕ)
    → for_provider (set_free s p n) q ≡ (if same q p then n else for_provider s q)
unfolding for_provider set_free
for_provider-set_free s anthropic anthropic n = refl
for_provider-set_free s anthropic open_ai n = refl
for_provider-set_free s anthropic gemini n = refl
for_provider-set_free s anthropic codex n = refl
for_provider-set_free s open_ai anthropic n = refl
for_provider-set_free s open_ai open_ai n = refl
for_provider-set_free s open_ai gemini n = refl
for_provider-set_free s open_ai codex n = refl
for_provider-set_free s gemini anthropic n = refl
for_provider-set_free s gemini open_ai n = refl
for_provider-set_free s gemini gemini n = refl
for_provider-set_free s gemini codex n = refl
for_provider-set_free s codex anthropic n = refl
for_provider-set_free s codex open_ai n = refl
for_provider-set_free s codex gemini n = refl
for_provider-set_free s codex codex n = refl

same_sound : (q p : Provider) → same q p ≡ true → q ≡ p
same_sound anthropic anthropic h = refl
same_sound open_ai open_ai h = refl
same_sound gemini gemini h = refl
same_sound codex codex h = refl
same_sound q p h = ground arith

-- The requests to a provider that are open: in `forward`, or in a response body.
abbrev pub open_requests : Provider → State → ℕ
open_requests q s = count (same q) s.handlers + count (same q) s.streams

count-middle :
    (q p : Provider) (before after : List Provider)
    → count (same q) (before ++ p ∷ after)
      ≡ (if same q p then 1 else 0) + count (same q) (before ++ after)
count-middle q p before after =
    omega (arith, count-append (same q) before (p ∷ after), count-append (same q) before after)

IsBalanced : ℕ → Provider → State → Type 0
IsBalanced n q s = for_provider s.sems q + open_requests q s ≡ n

-- How the free permits of one provider change, and how many of its requests a list loses.
set_free-sum :
    (s : ProviderSemaphores) (p q : Provider) (n : ℕ)
    → for_provider (set_free s p n) q + (if same q p then for_provider s p else 0)
      ≡ for_provider s q + (if same q p then n else 0)
set_free-sum s p q n = elim (Bool-cases (same q p)) [
  | inl e ↦
      let alike = ap (for_provider s) (same_sound q p e) in
      rw (for_provider-set_free s p q n, e) (omega (arith, alike))
  | inr e ↦ rw (for_provider-set_free s p q n, e) refl
]

count-removed :
    (q p : Provider) (all before after : List Provider)
    → all ≡ before ++ p ∷ after
    → count (same q) all ≡ (if same q p then 1 else 0) + count (same q) (before ++ after)
count-removed q p all before after h = ap (count (same q)) h ∙ count-middle q p before after

Step-IsBalanced :
    (n : ℕ) (q : Provider) (s t : State) → Step s t → IsBalanced n q s → IsBalanced n q t
unfolding IsBalanced
Step-IsBalanced n q s t (acquired _ p k free) h =
    let f = set_free-sum s.sems p q k in
    elim (Bool-cases (same q p)) [ inl e ↦ ground arith | inr e ↦ ground arith ]
Step-IsBalanced n q s t (refused _ p none_free) h = h
Step-IsBalanced n q s t (returned _ p before after held) h =
    let f = set_free-sum s.sems p q (suc (for_provider s.sems p)) in
    let c = count-removed q p s.handlers before after held in
    elim (Bool-cases (same q p)) [ inl e ↦ ground arith | inr e ↦ ground arith ]
Step-IsBalanced n q s t (streaming _ p before after held) h =
    let c = count-removed q p s.handlers before after held in omega arith
Step-IsBalanced n q s t (ended _ p before after held) h =
    let f = set_free-sum s.sems p q (suc (for_provider s.sems p)) in
    let c = count-removed q p s.streams before after held in
    elim (Bool-cases (same q p)) [ inl e ↦ ground arith | inr e ↦ ground arith ]

start-IsBalanced : (n : ℕ) (q : Provider) → IsBalanced n q (start n)
unfolding IsBalanced new for_provider
start-IsBalanced n anthropic = omega arith
start-IsBalanced n open_ai = omega arith
start-IsBalanced n gemini = omega arith
start-IsBalanced n codex = omega arith

Reach-IsBalanced : (n : ℕ) (q : Provider) (s : State) → Reach n s → IsBalanced n q s
Reach-IsBalanced n q _ initial = start-IsBalanced n q
Reach-IsBalanced n q _ (then_step s t r st) = Step-IsBalanced n q s t st (Reach-IsBalanced n q s r)

-- After any sequence of steps, the free permits of each provider and its open requests, those whose
-- response body still streams included, add up to the cap: no more requests are open than the cap
-- allows, and a permit is free whenever fewer are.
pub Reach-capped :
    (n : ℕ) (q : Provider) (s : State) → Reach n s → for_provider s.sems q + open_requests q s ≡ n
unfolding IsBalanced
Reach-capped n q s r = Reach-IsBalanced n q s r
