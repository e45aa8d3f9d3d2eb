-- ===== src/Usage/Tests.antt =====
-- The tap of src/lib.rs on a short stream.
use mur_model_gateway.Common.{
  ◌≡◌, refl, ℕ, ◌≤◌, true, List, [], ◌∷◌, Option, none, some, String, count,
}
use mur_model_gateway.Json.{Value, num, pos_int, str, object}
use mur_model_gateway.Usage.Tap.{Polled, chunk, waiting, ended, new, run, handed}
use mur_model_gateway.Usage.Tap.Observes.{is_completed, Fits, run-observes}

abbrev parsed : String → Option Value
parsed s = some (
    object (
      ("type", str "message_start")
      ∷ ("message", object (("usage", object (("input_tokens", num (pos_int 7)) ∷ [])) ∷ []))
      ∷ []))

abbrev no_bytes : List ℕ → Option Value
no_bytes b = none

abbrev data_line : List ℕ → String
data_line b = "data: {}"

abbrev polls : List Polled
polls = chunk (100 ∷ []) ∷ waiting ∷ chunk (10 ∷ []) ∷ chunk (100 ∷ 10 ∷ []) ∷ ended ∷ []

reported : count is_completed (run parsed no_bytes data_line (new true true) polls).1 ≡ 1
unfolding run
reported = refl

run-observes_example :
    (handed parsed no_bytes data_line (new true true) polls ≡ polls)
    × Fits (run parsed no_bytes data_line (new true true) polls).0
    × (count is_completed (run parsed no_bytes data_line (new true true) polls).1 ≤ 1)
run-observes_example = run-observes parsed no_bytes data_line true true polls
