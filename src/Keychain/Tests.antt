-- ===== src/Keychain/Tests.antt =====
-- Runs of the keychain cache.
use mur_model_gateway.Common.{
  ◌≡◌, ◌<◌, ◌+◌, ◌-◌, refl, true, false, [], ◌∷◌, none, some, ok, inl, arith,
}
use mur_model_gateway.Common.Integer.{pos}
use mur_model_gateway.Credentials.{OauthCredential, Read}
use mur_model_gateway.Keychain.{
  Entry, served, fetches, waits, first_look, after_wait, stored, credential_freshness,
  claim_rejection_slot,
}
use mur_model_gateway.Keychain.Serving.{Serves-unexpired}
use mur_model_gateway.Keychain.Callers.{
  Callers, idle, Reach, initial, then_step, look, Reach-single_flight,
}
use mur_model_gateway.Keychain.Cooldown.{granted}

abbrev a_credential : OauthCredential
a_credential = record { access_token = "t"; expires_at_ms = some (pos 1000000) }

abbrev a_read : Read
a_read = ok (some a_credential)

abbrev an_entry : Entry
an_entry = stored (ok (some a_credential)) 5 (pos 400000)

looks :
    (first_look (some an_entry) 300004 true 300004 ≡ served (ok (some a_credential)))
    × (first_look (some an_entry) 300005 true 300005 ≡ served (ok (some a_credential)))
    × (first_look (some an_entry) 300005 false 300005 ≡ fetches)
    × (first_look (some an_entry) 600005 true 600005 ≡ waits)
    × (after_wait (some an_entry) 300005 ≡ fetches)
unfolding first_look after_wait stored credential_freshness
looks = (refl, refl, refl, refl, refl)

Serves-unexpired_example : (a_read ≡ a_read) × (400000 + (300005 - 5) < 1000000)
unfolding first_look stored credential_freshness
Serves-unexpired_example =
    Serves-unexpired a_credential 5 400000 1000000 300005 a_read refl (omega arith)
      (inl (true, refl))

grants : granted 60000 none (1 ∷ 2 ∷ 60001 ∷ 70000 ∷ 120001 ∷ []) ≡ 1 ∷ 60001 ∷ 120001 ∷ []
unfolding granted claim_rejection_slot
grants = refl

abbrev reading : Callers
reading = record { slot = none; locked = true; fetching = 1; waiting = 1 }

reached : Reach reading
unfolding first_look
reached =
    then_step (record { slot = none; locked = true; fetching = 1; waiting = 0 }) reading
      (then_step idle (record { slot = none; locked = true; fetching = 1; waiting = 0 }) initial
        (look idle none 3 3))
      (look (record { slot = none; locked = true; fetching = 1; waiting = 0 }) none 4 4)

Reach-single_flight_example : reading.fetching ≡ 1
Reach-single_flight_example = Reach-single_flight reading reached
