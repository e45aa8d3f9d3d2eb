-- ===== src/Version.antt =====
-- src/cc_version.rs: the version of Claude Code that the billing header claims, and how long one
-- detection of it serves. Times are in nanoseconds of the monotonic clock.
pub mod Lookup
pub mod Fresh
mod Tests
use mur_model_gateway.Common.{
  ℕ, ◌+◌, ◌-◌, Bool, true, false, ◌||◌, not, List, [], ◌∷◌, Option, none, some, String,
  if◌then◌else◌, ltb, ◌==◌, ◌>>=◌, get_or,
}
use Prim.Native.Char.{Char, code}
use mur_model_gateway.Common.Text.{is_empty}
use mur_model_gateway.Common.Text.Search.{split_whitespace, is_ascii_digit, all_chars, any_char}

abbrev pub fallback_version : String
fallback_version = "2.1.126"

-- 300 seconds
abbrev pub cache_ttl : ℕ
cache_ttl = 300000000000

pub data VersionStrategy : Type 0 where
  detect_from_claude : VersionStrategy
  static : String → VersionStrategy
  fallback_only : VersionStrategy

-- The strategy, and the version that was detected last with the time when it was stored.
pub record VersionCache : Type 0 where
  pub strategy : VersionStrategy
  pub cached : Option (String × ℕ)

-- `VersionCache::new`
abbrev pub new : VersionStrategy → VersionCache
new s = record { strategy = s; cached = none }

-- a digit, a dot or a dash
abbrev pub version_char : Char → Bool
version_char c = is_ascii_digit c || code c == b'.' || code c == b'-'

abbrev pub next : List String → Option String
next [] = none
next (w ∷ ws) = some w

unfoldable pub parse_version : String → Option String
unfolding split_whitespace all_chars any_char
parse_version raw = next (split_whitespace raw) >>= (λ first.
    if is_empty first
    then none
    else if not (all_chars version_char first)
    then none
    else if not (any_char is_ascii_digit first)
    then none
    else some first)

-- What a process leaves: whether it ended with success, and its output where that is UTF-8.
pub record Output : Type 0 where
  pub success : Bool
  pub stdout : Option String

-- `detect_cc_version`, on what `which_claude` finds and what `claude --version` does
unfoldable pub detect_cc_version : Option String → (String → Option Output) → Option String
unfolding parse_version
detect_cc_version bin run =
    bin >>= run >>= (λ output. if not output.success then none else output.stdout >>= parse_version)

-- One call of `VersionCache::get`: the time when it looks, what it finds when it detects, and the time
-- when it has stored that.
pub record Call : Type 0 where
  pub now : ℕ
  pub bin : Option String
  pub run : String → Option Output
  pub stored : ℕ

abbrev pub detected : Call → String
detected c = get_or (detect_cc_version c.bin c.run) fallback_version

-- the part of `VersionCache::get` after a miss
abbrev pub detect_and_store : VersionCache → Call → String × VersionCache
detect_and_store cache c = (detected c, record cache { cached = some (detected c, c.stored) })

abbrev pub look : VersionCache → Option (String × ℕ) → Call → String × VersionCache
look cache none c = detect_and_store cache c
look cache (some (v, t)) c =
    if ltb (c.now - t) cache_ttl then (v, cache) else detect_and_store cache c

abbrev pub resolve_version : VersionCache → VersionStrategy → Call → String × VersionCache
resolve_version cache (static v) c = (v, cache)
resolve_version cache fallback_only c = (fallback_version, cache)
resolve_version cache detect_from_claude c = look cache cache.cached c

-- `VersionCache::get`
unfoldable pub get_version : VersionCache → Call → String × VersionCache
unfolding detect_cc_version
get_version cache c = resolve_version cache cache.strategy c

-- The answers to calls, one after the other.
unfoldable pub answers : VersionCache → List Call → List String
unfolding get_version
answers cache [] = []
answers cache (c ∷ cs) = let (v, after) = get_version cache c in v ∷ answers after cs
