-- ===== src/Route/Tests.antt =====
-- Runs of the routing functions.
use mur_model_gateway.Common.{◌≡◌, refl}
use mur_model_gateway.Route.{
  detect_provider, anthropic, open_ai, gemini, codex, codex_target_path, is_under, should_route,
  should_translate,
}
use mur_model_gateway.Route.Bases.{files, detect_provider-owner}

routes :
    (detect_provider "/v1/messages/count_tokens" ≡ anthropic)
    × (detect_provider "/v1/embeddings?x" ≡ open_ai)
    × (detect_provider "/v1beta/models/g" ≡ gemini)
    × (detect_provider "/codex/v1/chat/completions" ≡ codex)
    × (detect_provider "/v1/models" ≡ anthropic)
    × (codex_target_path "/v1/responses/x?a=1" ≡ "/responses/x?a=1")
    × (codex_target_path "/codex/v1/chat/completions?a" ≡ "/responses")
unfolding detect_provider should_route should_translate is_under codex_target_path
routes = (refl, refl, refl, refl, refl, refl, refl)

detect_provider-owner_example : detect_provider "/v1/files/f1" ≡ open_ai
unfolding is_under
detect_provider-owner_example = detect_provider-owner files "/v1/files/f1" refl
