-- ===== src/Forward/Rotation.antt =====
-- src/anthropic_retry.rs, `wait_for_rotation`: the bounded wait for a credential that its owner
-- replaces. What each poll reads and the clock at each poll are arguments; times are in milliseconds.
pub mod Bounded
mod Tests
use mur_model_gateway.Common.{
  ℕ, zero, suc, Bool, true, false, not, ◌+◌, min, Option, none, some, String, if◌then◌else◌, leb,
  Result, ok, err,
}
use mur_model_gateway.Common.Text.{str_eq}
use mur_model_gateway.Credentials.{KeychainError}

abbrev pub rotation_wait : ℕ
rotation_wait = 500

abbrev pub rotation_poll : ℕ
rotation_poll = 50

abbrev pub Reading : Type 0
Reading = Result (Option String) KeychainError

-- A stored token that is not the rejected one.
unfoldable pub replacement : String → Reading → Option String
replacement rejected (ok (some stored)) = if str_eq stored rejected then none else some stored
replacement rejected (ok none) = none
replacement rejected (err e) = none

-- The loop from the n-th poll on, on fuel: out of fuel is `none`, an end is `some` of the answer.
unfoldable pub poll_loop : (ℕ → Reading) → (ℕ → ℕ) → String → ℕ → ℕ → ℕ → Option (Option String)
poll_loop readings clock rejected deadline zero n = none
poll_loop readings clock rejected deadline (suc fuel) n =
    let later = poll_loop readings clock rejected deadline fuel (suc n) in
    elim (replacement rejected (readings n)) [
      | some stored ↦ some (some stored)
      | none ↦ if leb deadline (clock n) then some none else later
    ]

-- One poll a poll interval, and one at each end of the wait.
unfoldable pub wait_for_rotation : (ℕ → Reading) → (ℕ → ℕ) → ℕ → String → Option (Option String)
wait_for_rotation readings clock start rejected =
    poll_loop readings clock rejected (start + rotation_wait) 11 0
