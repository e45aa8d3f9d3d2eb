-- ===== src/Forward/Exchange/Retries.antt =====
-- What one exchange of `forward` sends: the first attempt and at most one retry of the same request.
use mur_model_gateway.Common.{
  ℕ, suc, ◌≡◌, ◌≤◌, refl, ap, ◌∙◌, sym, false, List, [], Option, none, some, String, is_some, ◌>>=◌,
  length, All, Bool-cases, Option-cases, inl, inr, arith, bind-some,
}
use mathlib.Core.Option.{some-injective, none-ne-some}
use mur_model_gateway.Common.Integer.{ℤ}
use mur_model_gateway.Credentials.{Stores, CodexCredential, account_id}
use mur_model_gateway.Route.{Provider}
use mur_model_gateway.Forward.{
  AppState, HeaderMap, codex_cred, copy_headers, copy_codex_retry, copy_anthropic_retry,
  codex_retry_eligible,
}
use mur_model_gateway.Forward.Ownership.{override_token-codex_cred}
use mur_model_gateway.Forward.Exchange.{
  Outside, Inbound, Sent, Reply, Ending, Bytes, own_token, own_codex, final_body, first_request,
  codex_retry, anthropic_expiry, rotated, anthropic_retry, ending, send, after_codex, after_expiry,
  after_first, exchange, request, disguised, with_codex, codex_path,
}

module _ (o : Outside) (w : Stores) (s : AppState) (q : Inbound) where
  -- A request of this exchange: to the same place, with the body of the first attempt.
  abbrev pub IsSame : Sent → Type 0
  IsSame sent = (sent.url ≡ q.url) × (final_body o w s q (own_token o w s q) ≡ some sent.body)

  not_eligible :
      (provider : Provider) (status : ℕ) (cred : Option CodexCredential)
      → cred ≡ none
      → codex_retry_eligible provider status cred ≡ false
  unfolding codex_retry_eligible
  not_eligible provider status cred h = rw h refl

  pub codex_retry-none :
      (r : Reply) → codex_cred w s q.provider q.headers ≡ none → codex_retry o w s q r ≡ none
  unfolding codex_retry
  codex_retry-none r h =
      rw (not_eligible q.provider r.status (own_codex o w s q) h, codex_retry) refl

  codex_retry-unowned :
      (r : Reply) (again : Sent) → codex_retry o w s q r ≡ some again → own_token o w s q ≡ none
  codex_retry-unowned r again h =
      elim (override_token-codex_cred w s q.provider q.path_only q.headers) [
        | inl e ↦ e
        | inr e ↦ let k = codex_retry-none r e in ground arith
      ]

  anthropic_expiry-none : (r : Reply) → own_token o w s q ≡ none → anthropic_expiry o w s q r ≡ none
  unfolding anthropic_expiry
  anthropic_expiry-none r h = rw (h, anthropic_expiry, is_some) refl

  after_expiry-none : (r : Reply) → after_expiry o w s q none r ≡ ([], ending o w s q none false r)
  unfolding after_expiry rotated
  after_expiry-none r = refl

  pub after_codex-unowned :
      (r : Reply)
      → own_token o w s q ≡ none
      → after_codex o w s q r ≡ ([], ending o w s q none false r)
  unfolding after_codex
  after_codex-unowned r h =
      ap (λ e. after_expiry o w s q e r) (anthropic_expiry-none r h) ∙ after_expiry-none r

  -- The requests that a step sends: this many at most, each the same one.
  abbrev Sends : ℕ → List Sent × Ending → Type 0
  Sends n x = (length x.0 ≤ n) × All IsSame x.0

  send-Sends :
      (n k : ℕ) (sent : Option Sent) (next : Reply → List Sent × Ending)
      → ((again : Sent) → sent ≡ some again → IsSame again)
      → ((r : Reply) → Sends k (next r))
      → Sends (suc k) (send o w s q n sent next)
  unfolding send
  send-Sends n k none next same h = (omega arith, tt)
  send-Sends n k (some sent) next same h = elim (Option-cases (o.upstream n sent)) [
    | inl e ↦ rw (e, send) (omega arith, (same sent refl, tt))
    | inr (r, e) ↦ let (few, all) = h r in rw (e, send) (omega (arith, few), (same sent refl, all))
  ]

  of_request :
      (headers : HeaderMap) (body : Bytes) (sent : Sent)
      → final_body o w s q (own_token o w s q) ≡ some body
      → some (request o w s q headers body) ≡ some sent
      → IsSame sent
  of_request headers body sent b h =
      let same = some-injective (request o w s q headers body) sent h in
      (sym (ap (λ x. x.url) same), b ∙ ap (λ x. some x.body) same)

  built {ℓ} :
      {A : Type ℓ} (m : Option A) (f : A → HeaderMap) (body : Bytes) (sent : Sent)
      → final_body o w s q (own_token o w s q) ≡ some body
      → (m >>= λ a. some (request o w s q (f a) body)) ≡ some sent
      → IsSame sent
  built none f body sent b h = absurd (none-ne-some sent h)
  built (some a) f body sent b h = of_request (f a) body sent b h

  abbrev copied : HeaderMap × List String
  copied = copy_headers (is_some (own_token o w s q)) (is_some (own_codex o w s q)) q.headers

  first_request-IsSame : (sent : Sent) → first_request o w s q ≡ some sent → IsSame sent
  unfolding first_request
  first_request-IsSame sent h =
      let (body, b, k) = bind-some (final_body o w s q (own_token o w s q)) _ sent h in
      built (disguised o w s q (own_token o w s q) copied.0 copied.1)
        (with_codex o w s q (own_codex o w s q)) body sent b k

  anthropic_retry-IsSame :
      (fresh : String) (sent : Sent) → anthropic_retry o w s q fresh ≡ some sent → IsSame sent
  unfolding anthropic_retry
  anthropic_retry-IsSame fresh sent h =
      let (body, b, k) = bind-some (final_body o w s q (own_token o w s q)) _ sent h in
      built (disguised o w s q (some fresh) (copy_anthropic_retry q.headers) copied.1) (λ x. x) body
        sent b k

  codex_retry-IsSame : (r : Reply) (sent : Sent) → codex_retry o w s q r ≡ some sent → IsSame sent
  unfolding codex_retry final_body
  codex_retry-IsSame r sent h =
      elim (Bool-cases (codex_retry_eligible q.provider r.status (own_codex o w s q))) [
        | inr e ↦
            let k : none ≡ some sent = rw (e, codex_retry) at h in absurd (none-ne-some sent k)
        | inl e ↦
            built (codex_path s.token_source_codex >>= o.refreshed_access_token)
              (λ fresh.
                o.apply_codex_headers (copy_codex_retry q.headers) fresh
                  (own_codex o w s q >>= account_id))
              q.body sent (ap (final_body o w s q) (codex_retry-unowned r sent h))
              (rw (e, codex_retry) at h)
      ]

  after_expiry-Sends :
      (expiry : Option (Option ℤ)) (r : Reply) → Sends 1 (after_expiry o w s q expiry r)
  unfolding after_expiry
  after_expiry-Sends expiry r = elim (Option-cases (rotated o w s q expiry (own_token o w s q))) [
    | inl e ↦ rw (e, after_expiry) (omega arith, tt)
    | inr (fresh, e) ↦
        rw (e, after_expiry)
          (send-Sends 2 0 (anthropic_retry o w s q fresh) _ (anthropic_retry-IsSame fresh)
            (λ r'. (omega arith, tt)))
  ]

  after_codex-Sends : (r : Reply) → Sends 1 (after_codex o w s q r)
  unfolding after_codex
  after_codex-Sends r = after_expiry-Sends (anthropic_expiry o w s q r) r

  after_first-Sends : (r : Reply) → Sends 1 (after_first o w s q r)
  unfolding after_first
  after_first-Sends r = elim (Option-cases (codex_retry o w s q r)) [
    | inl e ↦ rw (e, after_first) (after_codex-Sends r)
    | inr (again, e) ↦
        rw (e, after_first)
          (send-Sends 1 0 (some again) (after_codex o w s q) (λ x k. codex_retry-IsSame r x (e ∙ k))
            (λ r'. rw (after_codex-unowned r' (codex_retry-unowned r again e)) (omega arith, tt)))
  ]

  -- Whatever the upstream, the stores and the clock do, an exchange sends two requests at most, and each
  -- of them goes to the same place with the same body, which is the one of the first attempt.
  pub exchange-sends : (length (exchange o w s q).0 ≤ 2) × All IsSame (exchange o w s q).0
  unfolding exchange
  exchange-sends =
      send-Sends 0 1 (first_request o w s q) (after_first o w s q) first_request-IsSame
        after_first-Sends
