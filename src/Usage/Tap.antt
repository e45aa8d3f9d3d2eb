-- ===== src/Usage/Tap.antt =====
-- src/lib.rs (`UsageTap`): the observer of an Anthropic answer's body. What it calls of the guard of
-- the `cache trace` line is the list of its calls; the item that was polled is handed on as it is.
pub mod Observes
use mur_model_gateway.Common.{
  ◌≡◌, refl, sym, ap, ◌∙◌, inl, inr, ℕ, ◌+◌, ◌≤◌, Bool, true, false, not, ◌&&◌, List, [], ◌∷◌, ◌++◌,
  Option, none, some, String, if◌then◌else◌, ltb, length, length-append, count, count-append,
  Bool-cases, Option-cases, arith, ◌>>=◌,
}
use mur_model_gateway.Json.{Value}
use mur_model_gateway.CacheTrace.Guard.{Call, begun, completed, on_status, abandon}
use mur_model_gateway.Usage.{
  UpstreamUsage, from_container, SseScan, pending, found, absent, usage_from_sse,
}

abbrev pub sse_cap : ℕ
sse_cap = 65536

abbrev pub json_cap : ℕ
json_cap = 4194304

pub record UsageTap : Type 0 where
  pub buf : List ℕ
  pub streaming : Bool
  pub done : Bool

-- `UsageTap::new`
abbrev pub new : Bool → Bool → UsageTap
new enabled streaming = record { buf = []; streaming = streaming; done = not enabled }

-- `UsageTap::finish`
abbrev pub finish : UsageTap → UsageTap
finish t = record t { buf = []; done = true }

abbrev pub cap_of : UsageTap → ℕ
cap_of t = if t.streaming then sse_cap else json_cap

-- what the inner stream gives
pub data Polled : Type 0 where
  chunk : (bytes : List ℕ) → Polled
  failed : Polled
  ended : Polled
  waiting : Polled

module _ (parse_text : String → Option Value) (parse_bytes : List ℕ → Option Value)
    (lossy : List ℕ → String) where
  abbrev scanned : UsageTap → SseScan → UsageTap × List Call
  scanned t pending = (t, [])
  scanned t (found u) = (finish t, completed (some u) ∷ [])
  scanned t absent = (finish t, [])

  abbrev scan : UsageTap → UsageTap × List Call
  scan t = if t.streaming then scanned t (usage_from_sse parse_text lossy t.buf) else (t, [])

  -- a chunk that fits the buffer, or does not
  abbrev buffer : UsageTap → List ℕ → UsageTap × List Call
  buffer t bytes =
      if ltb (cap_of t) (length t.buf + length bytes)
      then (finish t, [])
      else scan (record t { buf = t.buf ++ bytes })

  -- `observe`
  unfoldable pub observe : UsageTap → List ℕ → UsageTap × List Call
  unfolding usage_from_sse
  observe t bytes = let (next, calls) = buffer t bytes in (next, begun ∷ calls)

  abbrev report : Option UpstreamUsage → List Call
  report none = []
  report (some u) = completed (some u) ∷ []

  -- `eof`
  unfoldable pub eof : UsageTap → UsageTap × List Call
  unfolding from_container
  eof t = (finish t, if t.streaming then [] else report (parse_bytes t.buf >>= from_container))

  abbrev attend : UsageTap → Polled → UsageTap × List Call
  attend t (chunk bytes) = observe t bytes
  attend t failed = (finish t, [])
  attend t ended = eof t
  attend t waiting = (t, [])

  -- `poll_next`: what was polled, the tap after it and what it calls
  unfoldable pub poll_next : UsageTap → Polled → Polled × UsageTap × List Call
  unfolding observe eof
  poll_next t polled =
      let (next, calls) = if t.done then (t, []) else attend t polled in (polled, next, calls)

  -- the tap and its calls over the polls of a body
  unfoldable pub run : UsageTap → List Polled → UsageTap × List Call
  unfolding poll_next
  run t [] = (t, [])
  run t (p ∷ ps) =
      let (item, next, calls) = poll_next t p in
      let (end_, more) = run next ps in (end_, calls ++ more)

  -- what is handed on over the polls
  unfoldable pub handed : UsageTap → List Polled → List Polled
  unfolding poll_next
  handed t [] = []
  handed t (p ∷ ps) = let (item, next, calls) = poll_next t p in item ∷ handed next ps
