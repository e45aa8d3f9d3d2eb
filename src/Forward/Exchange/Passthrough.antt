-- ===== src/Forward/Exchange/Passthrough.antt =====
-- The exchange of a client that brings its own credential.
use mur_model_gateway.Common.{
  ℕ, ◌≡◌, refl, ap, ◌∙◌, true, false, List, [], ◌∷◌, none, some, is_some,
}
use mur_model_gateway.Credentials.{Stores}
use mur_model_gateway.Route.{should_translate}
use mur_model_gateway.Forward.{
  AppState, copy_headers, has_client_credential, extract_oauth_shape_token,
}
use mur_model_gateway.Forward.Ownership.{own_credential-kept}
use mur_model_gateway.Forward.Exchange.{
  Outside, Inbound, Sent, Reply, Ending, own_token, own_codex, final_body, first_request, send,
  after_first, exchange, request, replied, reply_headers, ending, delivered,
}
use mur_model_gateway.Forward.Exchange.Retries.{codex_retry-none, after_codex-unowned}

module _ (o : Outside) (w : Stores) (s : AppState) (q : Inbound) where
  first_request-own :
      own_token o w s q ≡ none
      → own_codex o w s q ≡ none
      → first_request o w s q ≡ some (request o w s q (copy_headers false false q.headers).0 q.body)
  unfolding first_request final_body
  first_request-own t c = rw (t, c, first_request, final_body, is_some) refl

  delivered-plain :
      (r : Reply)
      → should_translate q.path_only ≡ false
      → delivered o w s q r ≡ replied r.status (reply_headers [] r.headers) r.body
  unfolding delivered
  delivered-plain r plain = rw (plain, delivered) refl

  abbrev without_sends : Ending → List Sent × Ending
  without_sends e = ([], e)

  after_first-own :
      (r : Reply)
      → should_translate q.path_only ≡ false
      → own_token o w s q ≡ none
      → own_codex o w s q ≡ none
      → after_first o w s q r ≡ ([], replied r.status (reply_headers [] r.headers) r.body)
  unfolding after_first ending
  after_first-own r plain t c =
      rw (codex_retry-none o w s q r c, after_first)
        (after_codex-unowned o w s q r t ∙ ap without_sends (delivered-plain r plain))

  sent-replied :
      (n : ℕ) (sent : Sent) (r : Reply) (next : Reply → List Sent × Ending)
      → o.upstream n sent ≡ some r
      → send o w s q n (some sent) next ≡ (sent ∷ (next r).0, (next r).1)
  unfolding send
  sent-replied n sent r next h = rw (h, send) refl

  -- On any path but the one that is translated for Codex, a client that brings a credential of its own,
  -- which is not blank and has not the shape of an OAuth token, is passed through: one request goes
  -- upstream, with the client's headers less the ones that are never forwarded, and with the body that
  -- the exchange starts with unchanged; and where the upstream answers it, the ending is the answer's
  -- status and body unchanged, a 401 too.
  pub exchange-passthrough :
      (r : Reply)
      → should_translate q.path_only ≡ false
      → has_client_credential q.headers ≡ true
      → extract_oauth_shape_token q.headers ≡ none
      → o.upstream 0 (request o w s q (copy_headers false false q.headers).0 q.body) ≡ some r
      → exchange o w s q ≡ (
        request o w s q (copy_headers false false q.headers).0 q.body ∷ [],
        replied r.status (reply_headers [] r.headers) r.body,
      )
  unfolding exchange
  exchange-passthrough r plain own shape answer =
      let (c, t) = own_credential-kept w s q.provider q.path_only q.headers own shape in
      let sent = request o w s q (copy_headers false false q.headers).0 q.body in
      ap (λ x. send o w s q 0 x (after_first o w s q)) (first_request-own t c)
      ∙ sent-replied 0 sent r (after_first o w s q) answer
      ∙ ap (λ x. (sent ∷ x.0, x.1)) (after_first-own r plain t c)
