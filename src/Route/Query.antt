-- ===== src/Route/Query.antt =====
-- Routing does not depend on the query string.
use Prim.Native.Char.{Char, code}
use Prim.Native.String.{[], ◌∷◌}
use mur_model_gateway.Common.{◌≡◌, refl, Bool, true, not, ◌&&◌, ◌==◌, String, arith}
use mur_model_gateway.Common.Text.{push_str}
use mur_model_gateway.Route.{is_under, should_route, should_translate, detect_provider}

-- no `?` stands in the text
abbrev pub no_query : String → Bool
no_query [] = true
no_query (c ∷ s) = not (code c == b'?') && no_query s

is_under-cons :
    (c d : Char) (b p : String) → is_under (c ∷ b) (d ∷ p) ≡ (code d == code c && is_under b p)
unfolding is_under
is_under-cons c d b p = ground arith

-- A query after a path without one leaves the test for an endpoint as it is.
is_under-query :
    (b p q : String)
    → no_query b ≡ true
    → no_query p ≡ true
    → is_under b (push_str p (push_str "?" q)) ≡ is_under b p
is_under-query [] [] q hb hp = unfold is_under push_str in refl
is_under-query [] (d ∷ p) q hb hp = unfold is_under push_str in ground arith
is_under-query (c ∷ b) [] q hb hp = unfold is_under push_str in ground arith
is_under-query (c ∷ b) (d ∷ p) q hb hp =
    ground (arith, is_under-query b p q, tail, is_under-cons c d b p)
  where
    tail :
        is_under (c ∷ b) (push_str (d ∷ p) (push_str "?" q))
        ≡ (code d == code c && is_under b (push_str p (push_str "?" q)))
    tail = unfold push_str in is_under-cons c d b (push_str p (push_str "?" q))

-- A request goes to the same provider with its query as without.
pub detect_provider-query :
    (path query : String)
    → no_query path ≡ true
    → detect_provider (push_str path (push_str "?" query)) ≡ detect_provider path
unfolding detect_provider should_route should_translate
detect_provider-query path query h = rw (
  is_under-query "/v1/messages" path query refl h,
  is_under-query "/v1/chat/completions" path query refl h,
  is_under-query "/v1/embeddings" path query refl h,
  is_under-query "/v1/images" path query refl h,
  is_under-query "/v1/files" path query refl h,
  is_under-query "/v1/threads" path query refl h,
  is_under-query "/v1/assistants" path query refl h,
  is_under-query "/v1beta/models" path query refl h,
  is_under-query "/v1/responses" path query refl h,
  is_under-query "/codex/v1/chat/completions" path query refl h,
)
