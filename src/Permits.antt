-- ===== src/Permits.antt =====
-- src/lib.rs, `ProviderSemaphores`, and what `forward` and `hold_permit_through` do with a permit: the
-- requests that are open at once, as a step relation.
pub mod Cap
mod Tests
use mur_model_gateway.Common.{ℕ, zero, suc, ◌+◌, ◌≡◌, List, [], ◌∷◌, ◌++◌}
use mur_model_gateway.Route.{Provider, anthropic, open_ai, gemini, codex}

-- The permits that are free.
pub record ProviderSemaphores : Type 0 where
  pub cap : ℕ
  pub anthropic_free : ℕ
  pub openai_free : ℕ
  pub gemini_free : ℕ
  pub codex_free : ℕ

-- `ProviderSemaphores::new`
unfoldable pub new : ℕ → ProviderSemaphores
new n = record { cap = n; anthropic_free = n; openai_free = n; gemini_free = n; codex_free = n }

unfoldable pub for_provider : ProviderSemaphores → Provider → ℕ
for_provider s anthropic = s.anthropic_free
for_provider s open_ai = s.openai_free
for_provider s gemini = s.gemini_free
for_provider s codex = s.codex_free

unfoldable pub set_free : ProviderSemaphores → Provider → ℕ → ProviderSemaphores
set_free s anthropic n = record s { anthropic_free = n }
set_free s open_ai n = record s { openai_free = n }
set_free s gemini n = record s { gemini_free = n }
set_free s codex n = record s { codex_free = n }

-- The drop of a permit.
abbrev pub released : ProviderSemaphores → Provider → ProviderSemaphores
released s p = set_free s p (suc (for_provider s p))

-- The permits that calls of `forward` hold, and those that response bodies hold.
pub record State : Type 0 where
  pub sems : ProviderSemaphores
  pub handlers : List Provider
  pub streams : List Provider

abbrev pub start : ℕ → State
start n = record { sems = new n; handlers = []; streams = [] }

pub data Step : State → State → Type 0 where
  -- a permit is free in time
  acquired :
      (s : State) (p : Provider) (n : ℕ)
      → for_provider s.sems p ≡ suc n
      → Step s
          (record { sems = set_free s.sems p n; handlers = p ∷ s.handlers; streams = s.streams })
  -- none is, and the answer is 429
  refused : (s : State) (p : Provider) → for_provider s.sems p ≡ 0 → Step s s
  -- `forward` returns without a body that holds the permit, or its future is dropped
  returned :
      (s : State) (p : Provider) (before after : List Provider)
      → s.handlers ≡ before ++ p ∷ after
      → Step s
          (record { sems = released s.sems p; handlers = before ++ after; streams = s.streams })
  -- the permit moves into the body of the response
  streaming :
      (s : State) (p : Provider) (before after : List Provider)
      → s.handlers ≡ before ++ p ∷ after
      → Step s (record { sems = s.sems; handlers = before ++ after; streams = p ∷ s.streams })
  -- the body ends, fails or is dropped
  ended :
      (s : State) (p : Provider) (before after : List Provider)
      → s.streams ≡ before ++ p ∷ after
      → Step s
          (record { sems = released s.sems p; handlers = s.handlers; streams = before ++ after })

pub data Reach (n : ℕ) : State → Type 0 where
  initial : Reach n (start n)
  then_step : (s t : State) → Reach n s → Step s t → Reach n t
