-- ===== src/CacheTrace/Guard.antt =====
-- src/cache_trace.rs (`SendTrace`, `InflightGuard`): the guard of one request. What a call of the
-- guard does outside of it is its events: the tables settled with an outcome, and the line written.
pub mod Once
use mur_model_gateway.Common.{
  ℕ, ◌+◌, ◌/◌, ◌%◌, ◌&&◌, not, zero, suc, Bool, true, false, List, [], ◌∷◌, ◌++◌, map, Option, none,
  some, String, if◌then◌else◌, leb, ltb, ◌>>=◌, get_or, get_elem?,
}
use mur_model_gateway.Common.Integer.{ℤ}
use mur_model_gateway.Common.Text.{push_str, join}
use mur_model_gateway.Common.Decimal.{decimal, decimal_ℤ}
use mur_model_gateway.Usage.{UpstreamUsage}
use mur_model_gateway.CacheTrace.{Analysis, Ttl, ttl_text}

pub record SendTrace : Type 0 where
  pub client : String
  pub compress_on : Bool
  pub analysis : Analysis
  pub diverged : String
  pub prefix_seen_ago_ms : Option ℕ
  pub prefix_ttl_left_ms : Option ℤ
  pub tools_seen_ago_ms : Option ℕ
  pub tools_ttl_left_ms : Option ℤ
  pub inflight_same_prefix : ℕ
  pub inflight_same_tools : ℕ

-- model, context and blocks: `PrefixKey`, `ToolsKey`
abbrev pub Key : Type 0
Key = String × ℕ × ℕ

pub record InflightGuard : Type 0 where
  pub seq : ℕ
  pub prefix : Option (Key × ℕ)
  pub tools : Option (Key × ℕ)
  pub trace : SendTrace
  pub status : Option ℕ
  pub streaming : Bool
  pub started : Bool
  pub emitted : Bool

pub data Event : Type 0 where
  settled : (success : Bool) → Event
  wrote : (usage : Option UpstreamUsage) (line : String) → Event

abbrev hex_digit : ℕ → String
hex_digit n =
    get_or
      (get_elem?
        ("0" ∷ "1" ∷ "2" ∷ "3" ∷ "4" ∷ "5" ∷ "6" ∷ "7" ∷ "8" ∷ "9" ∷ "a" ∷ "b" ∷ "c" ∷ "d" ∷ "e"
          ∷ "f" ∷ [])
        n)
      "f"

-- so many digits of a number in front of a text
abbrev hex_digits : ℕ → ℕ → String → String
hex_digits zero n acc = acc
hex_digits (suc k) n acc = hex_digits k (n / 16) (push_str (hex_digit (n % 16)) acc)

unfoldable pub hex : ℕ → String
unfolding push_str
hex h = hex_digits 16 h ""

abbrev opt : {A : Type 0} → (A → String) → Option A → String
opt shown none = "-"
opt shown (some a) = shown a

-- `join`
abbrev commas : List String → String
commas [] = "-"
commas (s ∷ ss) = join "," (s ∷ ss)

abbrev part : String → String → String
part k v = push_str k (push_str "=" v)

abbrev truth : Bool → String
truth true = "true"
truth false = "false"

abbrev bit : Bool → String
bit true = "1"
bit false = "0"

abbrev usage_parts : Option UpstreamUsage → List String
usage_parts none =
    part "input" "-"
    ∷ part "read" "-"
    ∷ part "creation" "-"
    ∷ part "creation_5m" "-"
    ∷ part "creation_1h" "-"
    ∷ []
usage_parts (some u) =
    part "input" (decimal u.input_tokens)
    ∷ part "read" (decimal u.cache_read_input_tokens)
    ∷ part "creation" (decimal u.cache_creation_input_tokens)
    ∷ part "creation_5m" (opt decimal u.ephemeral_5m)
    ∷ part "creation_1h" (opt decimal u.ephemeral_1h)
    ∷ []

abbrev analysis_parts : Analysis → List String
analysis_parts a =
    part "tools_count" (decimal a.tools_count)
    ∷ part "system_blocks" (decimal a.system_blocks)
    ∷ part "msgs" (decimal a.msgs)
    ∷ part "tools_bytes" (decimal a.tools_bytes)
    ∷ part "system_bytes" (decimal a.system_bytes)
    ∷ part "bp_bytes" (commas (map decimal a.bp_bytes))
    ∷ part "prefix_bytes" (decimal a.prefix_bytes)
    ∷ part "span_bytes" (opt decimal a.span_bytes)
    ∷ part "ctx_fp" (hex a.ctx_fp)
    ∷ part "tools_fp" (hex a.tools_fp)
    ∷ part "system_fp" (hex a.system_fp)
    ∷ part "prefix_fp" (hex a.prefix_fp)
    ∷ part "bp" a.bp
    ∷ part "bp_ttls" (commas (map ttl_text a.bp_ttls))
    ∷ part "ttl" (opt ttl_text a.ttl)
    ∷ part "ttl_max" (opt ttl_text a.ttl_max)
    ∷ []

abbrev recency_parts : SendTrace → List String
recency_parts t =
    part "diverged" t.diverged
    ∷ part "prefix_seen_ago_ms" (opt decimal t.prefix_seen_ago_ms)
    ∷ part "prefix_ttl_left_ms" (opt decimal_ℤ t.prefix_ttl_left_ms)
    ∷ part "tools_seen_ago_ms" (opt decimal t.tools_seen_ago_ms)
    ∷ part "tools_ttl_left_ms" (opt decimal_ℤ t.tools_ttl_left_ms)
    ∷ part "inflight_same_prefix" (decimal t.inflight_same_prefix)
    ∷ part "inflight_same_tools" (decimal t.inflight_same_tools)
    ∷ []

-- `InflightGuard::line`
unfoldable pub line : InflightGuard → Option UpstreamUsage → String
unfolding join push_str hex
line g usage =
    let t = g.trace in
    let model = get_or (usage >>= (λ (u : UpstreamUsage). u.model)) t.analysis.model in
    let req_id = get_or (usage >>= (λ (u : UpstreamUsage). u.id)) "-" in
    join " " (
      (part "client" t.client
        ∷ part "model" model
        ∷ part "req_id" req_id
        ∷ part "status" (opt decimal g.status)
        ∷ part "streaming" (truth g.streaming)
        ∷ part "compress_on" (bit t.compress_on)
        ∷ [])
      ++ (analysis_parts t.analysis ++ (usage_parts usage ++ recency_parts t)))

-- `finish`: the tables are settled once
unfoldable pub finish : Bool → InflightGuard → InflightGuard × List Event
finish success g =
    if g.started then (g, []) else (record g { started = true }, settled success ∷ [])

abbrev pub is_success : ℕ → Bool
is_success status = leb 200 status && ltb status 300

unfoldable pub set_status : ℕ → Bool → InflightGuard → InflightGuard × List Event
unfolding finish
set_status status streaming g =
    let next = record g { status = some status; streaming = streaming } in
    if not (is_success status)
    then finish false next
    else if not streaming
    then finish true next
    else (next, [])

-- `complete`: the line is written once
unfoldable pub complete : Option UpstreamUsage → InflightGuard → InflightGuard × List Event
unfolding line
complete usage g =
    if g.emitted then (g, []) else (record g { emitted = true }, wrote usage (line g usage) ∷ [])

-- What the handler and the tap of the body call.
pub data Call : Type 0 where
  on_status : (status : ℕ) (streaming : Bool) → Call
  begun : Call
  abandon : Call
  completed : (usage : Option UpstreamUsage) → Call

unfoldable pub call : Call → InflightGuard → InflightGuard × List Event
unfolding set_status finish complete
call (on_status status streaming) g = set_status status streaming g
call begun g = finish true g
call abandon g = finish false g
call (completed usage) g = complete usage g

-- `drop`
unfoldable pub drop : InflightGuard → InflightGuard × List Event
unfolding finish complete
drop g =
    let (g1, es) = if g.started then (g, []) else finish false g in
    let (g2, fs) = if g1.emitted then (g1, []) else complete none g1 in (g2, es ++ fs)

-- The events of a guard that is called so and then dropped.
unfoldable pub life : List Call → InflightGuard → List Event
unfolding call drop
life [] g = (drop g).1
life (c ∷ cs) g = let (next, es) = call c g in es ++ life cs next
