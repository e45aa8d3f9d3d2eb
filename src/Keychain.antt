-- ===== src/Keychain.antt =====
-- src/keychain.rs, `cached` and what it caches by: how long one keychain read is served, who reads the
-- keychain anew, and the cooldown on rejections. Times are in milliseconds, of the monotonic clock for
-- the age of an entry and of the wall clock for an expiry.
pub mod Callers
pub mod Times
pub mod Serving
pub mod Cooldown
mod Tests
use mur_model_gateway.Common.{
  ℕ, Bool, true, false, ◌+◌, ◌-◌, ◌^◌, min, List, [], ◌∷◌, Option, none, some, if◌then◌else◌, ltb,
  leb, Result, ok, err,
}
use mur_model_gateway.Common.Integer.{ℤ, pos, negsuc}
use mur_model_gateway.Credentials.{OauthCredential, KeychainError, Read}

abbrev pub cache_ttl : ℕ
cache_ttl = 60000

abbrev pub max_cache_ttl : ℕ
max_cache_ttl = 28800000

abbrev pub expiry_margin : ℕ
expiry_margin = 300000

abbrev pub rejection_cooldown : ℕ
rejection_cooldown = 60000

abbrev pub max : ℕ → ℕ → ℕ
max a b = if leb a b then b else a

abbrev pub clamp : ℕ → ℕ → ℕ → ℕ
clamp low high n = min (max n low) high

pub record Freshness : Type 0 where
  pub refresh_after : ℕ
  pub usable_for : ℕ

-- `Freshness::fixed`
abbrev pub fixed : ℕ → Freshness
fixed d = record { refresh_after = d; usable_for = d }

-- `expires_at_ms.saturating_sub(now_ms).max(0)`
abbrev pub remaining_ms : ℤ → ℤ → ℕ
remaining_ms (pos e) (pos n) = e - n
remaining_ms (pos e) (negsuc n) = min (e + n + 1) (2 ^ 63 - 1)
remaining_ms (negsuc e) (pos n) = 0
remaining_ms (negsuc e) (negsuc n) = n - e

abbrev pub freshness_for : ℕ → Freshness
freshness_for remaining =
    let refresh_after = clamp cache_ttl max_cache_ttl (remaining - expiry_margin) in
    record {
      refresh_after = refresh_after;
      usable_for = max (min remaining max_cache_ttl) refresh_after;
    }

abbrev pub expiry_freshness : Option ℤ → ℤ → Freshness
expiry_freshness (some e) now = freshness_for (remaining_ms e now)
expiry_freshness none now = fixed cache_ttl

unfoldable pub credential_freshness : Read → ℤ → Freshness
credential_freshness (ok (some cred)) now = expiry_freshness cred.expires_at_ms now
credential_freshness (ok none) now = fixed cache_ttl
credential_freshness (err e) now = fixed cache_ttl

-- An entry of the cache: when it was stored, for how long it serves, and what was read.
pub record Entry : Type 0 where
  pub at : ℕ
  pub freshness : Freshness
  pub res : Read

-- What a caller of `cached` does next.
pub data Outcome : Type 0 where
  served : Read → Outcome
  fetches : Outcome
  waits : Outcome

-- The look after the lock is taken: the refresher may have stored a value meanwhile.
unfoldable pub after_wait : Option Entry → ℕ → Outcome
after_wait none now = fetches
after_wait (some e) now =
    if ltb (now - e.at) e.freshness.refresh_after then served e.res else fetches

-- What a caller that finds the lock taken does with its snapshot.
abbrev pub contended : Option Entry → ℕ → Outcome
contended none now = waits
contended (some e) now = if ltb (now - e.at) e.freshness.usable_for then served e.res else waits

-- The first look at the snapshot, and the second where another caller holds the refresh lock.
unfoldable pub first_look : Option Entry → ℕ → Bool → ℕ → Outcome
first_look none now busy later = if busy then contended none later else fetches
first_look (some e) now busy later =
    if ltb (now - e.at) e.freshness.refresh_after
    then served e.res
    else if busy
    then contended (some e) later
    else fetches

-- What the fetching caller stores.
unfoldable pub stored : Read → ℕ → ℤ → Entry
stored res now wall = record { at = now; freshness = credential_freshness res wall; res = res }

-- `claim_rejection_slot`: whether the claim is granted, and the slot after it
unfoldable pub claim_rejection_slot : Option ℕ → ℕ → ℕ → Bool × Option ℕ
claim_rejection_slot none cooldown now = (true, some now)
claim_rejection_slot (some at) cooldown now =
    if ltb (now - at) cooldown then (false, some at) else (true, some now)

-- `invalidate_after_rejection`: the answer, the slot and the cache
unfoldable pub invalidate_after_rejection :
    Option ℕ → Option Entry → ℕ → Bool × Option ℕ × Option Entry
unfolding claim_rejection_slot
invalidate_after_rejection last cache now =
    let (granted, last') = claim_rejection_slot last rejection_cooldown now in
    (granted, last', if granted then none else cache)
