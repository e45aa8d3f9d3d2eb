-- ===== src/Keychain/Serving.antt =====
-- `cached` serves no credential past its expiry.
use mur_model_gateway.Common.{
  ℕ, ◌≤◌, ◌<◌, ◌+◌, ◌-◌, ◌≡◌, sym, Bool, some, ltb, Bool-cases, inl, inr, ◌⊎◌, ok, arith,
}
use mur_model_gateway.Common.Integer.{pos}
use mur_model_gateway.Credentials.{Read, OauthCredential}
use mur_model_gateway.Keychain.{
  Entry, served, first_look, after_wait, contended, stored, cache_ttl, credential_freshness,
  freshness_for,
}
use mur_model_gateway.Keychain.Times.{credential_freshness-IsBounded}

-- A caller is served this at that moment, at its first look, while another refreshes, or after a wait.
abbrev pub Serves : Entry → ℕ → Read → Type 0
Serves e t r =
    ((busy : Bool) × (first_look (some e) t busy t ≡ served r)) ⊎ (after_wait (some e) t ≡ served r)

Young : Entry → ℕ → Read → Type 0
Young e t r = (t - e.at < e.freshness.usable_for) × (e.res ≡ r)

after_wait-Young :
    (e : Entry) (t : ℕ) (r : Read)
    → e.freshness.refresh_after ≤ e.freshness.usable_for
    → after_wait (some e) t ≡ served r
    → Young e t r
unfolding after_wait Young
after_wait-Young e t r b h = elim (Bool-cases (ltb (t - e.at) e.freshness.refresh_after)) [
  | inl y ↦ (ground arith, ground arith)
  | inr y ↦ ground arith
]

contended-Young : (e : Entry) (t : ℕ) (r : Read) → contended (some e) t ≡ served r → Young e t r
unfolding Young
contended-Young e t r h = elim (Bool-cases (ltb (t - e.at) e.freshness.usable_for)) [
  | inl y ↦ (ground arith, ground arith)
  | inr y ↦ ground arith
]

first_look-Young :
    (e : Entry) (t : ℕ) (busy : Bool) (r : Read)
    → e.freshness.refresh_after ≤ e.freshness.usable_for
    → first_look (some e) t busy t ≡ served r
    → Young e t r
unfolding first_look after_wait
first_look-Young e t busy r b h = elim (Bool-cases (ltb (t - e.at) e.freshness.refresh_after)) [
  | inl y ↦ after_wait-Young e t r b (rw (y, after_wait) (rw y at h))
  | inr y ↦ elim (Bool-cases busy) [
    | inl z ↦ contended-Young e t r (rw (y, z) at h)
    | inr z ↦ ground arith
  ]
]

freshness_for-live : (n : ℕ) → cache_ttl ≤ n → (freshness_for n).usable_for ≤ n
freshness_for-live n h = ground arith

Serves-Young :
    (e : Entry) (t : ℕ) (r : Read)
    → e.freshness.refresh_after ≤ e.freshness.usable_for
    → Serves e t r
    → Young e t r
Serves-Young e t r b (inl (busy, h)) = first_look-Young e t busy r b h
Serves-Young e t r b (inr h) = after_wait-Young e t r b h

-- A credential that has a minute left at least when it is stored is never served, at any look and
-- whoever refreshes meanwhile, at a moment when it has expired; and what is served is that credential.
pub Serves-unexpired :
    (c : OauthCredential) (at wall expires t : ℕ) (r : Read)
    → c.expires_at_ms ≡ some (pos expires)
    → wall + cache_ttl ≤ expires
    → Serves (stored (ok (some c)) at (pos wall)) t r
    → (r ≡ ok (some c)) × (wall + (t - at) < expires)
unfolding stored credential_freshness Young
Serves-unexpired c at wall expires t r x live h =
    let (young, same) =
      Serves-Young (stored (ok (some c)) at (pos wall)) t r
        (credential_freshness-IsBounded (ok (some c)) (pos wall)).1 h in
    let young' : t - at < (freshness_for (expires - wall)).usable_for = rw x at young in
    let l = freshness_for-live (expires - wall) (omega arith) in
    (sym same, omega (arith, young', l))
