-- ===== src/CacheTrace/Send.antt =====
-- src/cache_trace.rs (`Inner`, `Tracker::settle`, `on_send`): the three tables of the tracker and what
-- a send does to them. Each call holds the one lock for as long as it touches the tables, so that the
-- tables take part here as the state of the calls.
pub mod Life
use mur_model_gateway.Common.{
  ℕ, ◌+◌, ◌%◌, ◌^◌, ◌==◌, Bool, true, false, not, List, [], ◌∷◌, Option, none, some, String,
  if◌then◌else◌, leb, get_or,
}
use mur_model_gateway.CacheTrace.{Analysis, Ttl, five_min, duration}
use mur_model_gateway.CacheTrace.Diff.{
  Seq, new, PrevSlot, Canon, diverged_from, tools_hash_cap, system_hash_cap, msgs_hash_cap,
}
use mur_model_gateway.CacheTrace.Guard.{Key, SendTrace, InflightGuard}
use mur_model_gateway.CacheTrace.Table.{Lru, Recency, no_recency, read_entry, touch, settle_entry}

abbrev pub prev_bytes_budget : ℕ
prev_bytes_budget = 524288

-- The table of previous requests, by client and model: `get` makes the slot the most recent one.
pub record Slots (P : Type 0) : Type 0 where
  pub get : P → String × String → Option PrevSlot × P
  pub put : P → String × String → PrevSlot → P

-- `Inner`
pub record Tables (P T : Type 0) : Type 0 where
  pub prev : P
  pub prefix : T
  pub tools : T
  pub seq : ℕ

abbrev slot_for : Analysis → Seq → Seq → Seq → PrevSlot
slot_for a tools system msgs = record {
  ctx_fp = a.ctx_fp;
  tools = tools;
  system = system;
  msgs = msgs;
  canon =
      if leb (a.tools_bytes + a.system_bytes) prev_bytes_budget
      then some record { tools = a.tools_canon; system = a.system_canon }
      else none;
}

abbrev divergence : Analysis → Seq → Seq → Seq → Option PrevSlot → String
divergence a tools system msgs none = "first"
divergence a tools system msgs (some prev) = diverged_from prev a tools system msgs

-- what a table tells of the key and holds of the send; it tells nothing where it refuses the send
abbrev held : {T : Type 0} → Key → ℕ → Recency → Bool × T → Recency × Option (Key × ℕ) × T
held k expiry r (true, t) = (r, some (k, expiry), t)
held k expiry r (false, t) = (no_recency, none, t)

module _ {P T : Type 0} (slots : Slots P) (lru : Lru T) where
  abbrev read_then_touch : Key → ℕ → ℕ → ℕ → T → Recency × Option (Key × ℕ) × T
  read_then_touch k seq now expiry t =
      held k expiry (read_entry (lru.peek t k) now) (touch lru k seq now t)

  abbrev on_prefix : Option Ttl → Key → ℕ → ℕ → T → Recency × Option (Key × ℕ) × T
  on_prefix none k seq now t = (read_entry (lru.peek t k) now, none, t)
  on_prefix (some ttl) k seq now t = read_then_touch k seq now (now + duration ttl) t

  abbrev on_tools : ℕ → Ttl → Key → ℕ → ℕ → T → Recency × Option (Key × ℕ) × T
  on_tools n ttl k seq now t =
      if n == 0
      then (read_entry (lru.peek t k) now, none, t)
      else read_then_touch k seq now (now + duration ttl) t

  abbrev pub send_analysis : String → Bool → ℕ → Analysis → Tables P T → InflightGuard × Tables P T
  send_analysis client compress_on now a inner =
      let tools_seq = new a.tools_hashes tools_hash_cap in
      let system_seq = new a.system_hashes system_hash_cap in
      let msgs_seq = new a.msgs_hashes msgs_hash_cap in
      let seq = (inner.seq + 1) % 2 ^ 64 in
      let (found, asked) = slots.get inner.prev (client, a.model) in
      let diverged = divergence a tools_seq system_seq msgs_seq found in
      let prev = slots.put asked (client, a.model) (slot_for a tools_seq system_seq msgs_seq) in
      let (prefix, prefix_hold, prefixes) =
        on_prefix a.ttl (a.model, a.ctx_fp, a.prefix_fp) seq now inner.prefix in
      let (tools, tools_hold, tool_sets) =
        on_tools a.tools_count (get_or a.ttl_max five_min) (a.model, a.ctx_fp, a.tools_fp) seq now
          inner.tools in
      (
        record {
          seq = seq;
          prefix = prefix_hold;
          tools = tools_hold;
          trace = record {
            client = client;
            compress_on = compress_on;
            analysis = a;
            diverged = diverged;
            prefix_seen_ago_ms = prefix.seen_ago_ms;
            prefix_ttl_left_ms = prefix.ttl_left_ms;
            tools_seen_ago_ms = tools.seen_ago_ms;
            tools_ttl_left_ms = tools.ttl_left_ms;
            inflight_same_prefix = prefix.pending;
            inflight_same_tools = tools.pending;
          };
          status = none;
          streaming = false;
          started = false;
          emitted = false;
        },
        record { prev = prev; prefix = prefixes; tools = tool_sets; seq = seq },
      )

  abbrev pub send_if :
      String → Bool → ℕ → Option Analysis → Tables P T → Option InflightGuard × Tables P T
  send_if client compress_on now none inner = (none, inner)
  send_if client compress_on now (some a) inner =
      let (guard, next) = send_analysis client compress_on now a inner in (some guard, next)

  -- `on_send`, of a body with this analysis; the canonical bytes stay in the analysis here, of which
  -- the guard reads the other fields
  unfoldable pub on_send :
      String → Bool → ℕ → Option Analysis → Tables P T → Option InflightGuard × Tables P T
  unfolding new diverged_from read_entry touch
  on_send client compress_on now analysis inner = send_if client compress_on now analysis inner

  abbrev settle_held : ℕ → Bool → Option (Key × ℕ) → T → T
  settle_held seq success none t = t
  settle_held seq success (some (k, expiry)) t = settle_entry lru k seq expiry success t

  -- `Tracker::settle`
  unfoldable pub settle : ℕ → Option (Key × ℕ) → Option (Key × ℕ) → Bool → Tables P T → Tables P T
  unfolding settle_entry
  settle seq prefix tools success inner = record inner {
    prefix = settle_held seq success prefix inner.prefix;
    tools = settle_held seq success tools inner.tools;
  }
