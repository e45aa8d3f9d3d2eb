-- ===== src/Keepalive/Tests.antt =====
-- Runs of the keepalive loop.
use mur_model_gateway.Common.{◌≡◌, refl, [], ◌∷◌, some, ℕ}
use mur_model_gateway.Common.Integer.{pos}
use mur_model_gateway.Keepalive.{
  new, Tick, Event, spawned, tick, run, run_claude, refresh_due, needs_relogin,
}
use mur_model_gateway.Keepalive.Spawns.{run-AllDue, AllDue}

abbrev a_tick : ℕ → ℕ → Tick
a_tick expiry now = record {
  before = some (pos expiry);
  at = pos now;
  due_at = pos now;
  after = some (pos expiry);
  after_at = pos now;
  failed_at = pos now;
}

abbrev failed : ℕ → ℕ → Event
failed expiry now = spawned (a_tick expiry now)

runs :
    run new (
      a_tick 500000 300000
      ∷ a_tick 500000 400000
      ∷ a_tick 500000 700000
      ∷ a_tick 500000 2200000
      ∷ [])
    ≡ failed 500000 400000 ∷ failed 500000 2200000 ∷ []
unfolding run tick run_claude refresh_due needs_relogin
runs = refl

run-AllDue_example : AllDue (pos 0) (run new (a_tick 500000 400000 ∷ a_tick 500000 700000 ∷ []))
run-AllDue_example = run-AllDue new (a_tick 500000 400000 ∷ a_tick 500000 700000 ∷ [])
