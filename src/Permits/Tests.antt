-- ===== src/Permits/Tests.antt =====
-- A run of requests under a cap.
use mur_model_gateway.Common.{ℕ, ◌≡◌, ◌+◌, refl, [], ◌∷◌}
use mur_model_gateway.Route.{anthropic}
use mur_model_gateway.Permits.{
  State, new, for_provider, set_free, start, acquired, streaming, Reach, initial, then_step,
}
use mur_model_gateway.Permits.Cap.{Reach-capped, open_requests}

abbrev cap : ℕ
cap = 1

abbrev one : State
one = record { sems = set_free (new 1) anthropic 0; handlers = anthropic ∷ []; streams = [] }

abbrev streamed : State
streamed = record { sems = set_free (new 1) anthropic 0; handlers = []; streams = anthropic ∷ [] }

reached : Reach 1 streamed
unfolding new for_provider
reached =
    then_step one streamed (then_step (start 1) one initial (acquired (start 1) anthropic 0 refl))
      (streaming one anthropic [] [] refl)

Reach-capped_example : for_provider streamed.sems anthropic + open_requests anthropic streamed ≡ cap
Reach-capped_example = Reach-capped cap anthropic streamed reached
