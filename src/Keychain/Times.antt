-- ===== src/Keychain/Times.antt =====
-- The bounds of `credential_freshness`.
use mur_model_gateway.Common.{ℕ, ◌≤◌, Option, none, some, ok, err, arith}
use mur_model_gateway.Common.Integer.{ℤ}
use mur_model_gateway.Credentials.{Read}
use mur_model_gateway.Keychain.{
  Freshness, credential_freshness, cache_ttl, max_cache_ttl, freshness_for, expiry_freshness,
  remaining_ms,
}

-- An entry's times: refreshed no sooner than the floor, servable no longer than the cap.
abbrev pub IsBounded : Freshness → Type 0
IsBounded f =
    (cache_ttl ≤ f.refresh_after)
    × (f.refresh_after ≤ f.usable_for)
    × (f.usable_for ≤ max_cache_ttl)

freshness_for-IsBounded : (n : ℕ) → IsBounded (freshness_for n)
freshness_for-IsBounded n = (ground arith, ground arith, ground arith)

-- Whatever the keychain answered, one read is served for a minute at least before another is made, is
-- never due for a refresh later than it stops being servable, and is served for eight hours at most.
pub credential_freshness-IsBounded :
    (res : Read) (now : ℤ) → IsBounded (credential_freshness res now)
unfolding credential_freshness
credential_freshness-IsBounded (err e) now = (ground arith, ground arith, ground arith)
credential_freshness-IsBounded (ok none) now = (ground arith, ground arith, ground arith)
credential_freshness-IsBounded (ok (some c)) now = of c.expires_at_ms
  where
    of : (e : Option ℤ) → IsBounded (expiry_freshness e now)
    of none = (ground arith, ground arith, ground arith)
    of (some e) = freshness_for-IsBounded (remaining_ms e now)
