-- ===== src/CacheTrace/Table.antt =====
-- src/cache_trace.rs (`Entry`, `read_entry`, `make_room`, `touch`, `settle_entry`): one recency table.
-- The table itself is a cache of the lru crate: its operations are the functions of `Lru`. Times are
-- milliseconds of the monotonic clock.
pub mod Documented
pub mod Pending
pub mod Room
use mur_model_gateway.Common.{
  ℕ, zero, suc, ◌+◌, ◌-◌, ◌%◌, ◌^◌, Bool, true, false, not, ◌&&◌, List, [], ◌∷◌, ◌++◌, Option, none,
  some, String, if◌then◌else◌, ltb, leb, ◌==◌, is_some,
}
use mur_model_gateway.Common.Integer.{ℤ, pos, negsuc}
use mur_model_gateway.CacheTrace.Guard.{Key}

abbrev pub recency_cap : ℕ
recency_cap = 1024

pub record Entry : Type 0 where
  pub last_seq : ℕ
  pub last_sent : ℕ
  pub prev : Option (ℕ × ℕ)
  pub readable_until : Option ℕ
  pub pending : ℕ

-- The operations on a table that the program calls. `set` writes the entry that `get_mut` has found,
-- which makes it the most recent; `set_peeked` the one that `peek_mut` has found, where it is.
pub record Lru (T : Type 0) : Type 0 where
  pub len : T → ℕ
  pub cap : T → ℕ
  pub peek : T → Key → Option Entry
  pub set : T → Key → Entry → T
  pub set_peeked : T → Key → Entry → T
  pub peek_lru : T → Option (Key × Entry)
  pub pop_lru : T → T
  pub push : T → Key → Entry → T
  pub put : T → Key → Entry → T
  pub pop : T → Key → T

pub record Recency : Type 0 where
  pub seen_ago_ms : Option ℕ
  pub ttl_left_ms : Option ℤ
  pub pending : ℕ

-- `Recency::NONE`
abbrev pub no_recency : Recency
no_recency = record { seen_ago_ms = none; ttl_left_ms = none; pending = 0 }

abbrev minus : ℕ → ℤ
minus zero = pos 0
minus (suc n) = negsuc n

abbrev left_until : ℕ → Option ℕ → Option ℤ
left_until now none = none
left_until now (some r) = some (if leb now r then pos (r - now) else minus (now - r))

unfoldable pub read_entry : Option Entry → ℕ → Recency
read_entry none now = no_recency
read_entry (some e) now = record {
  seen_ago_ms = some (now - e.last_sent);
  ttl_left_ms = left_until now e.readable_until;
  pending = e.pending;
}

-- the entry of a key that is sent again; the count is a `u32`, and its increment wraps around
abbrev pub sent_again : ℕ → ℕ → Entry → Entry
sent_again seq now e = record e {
  prev = some (e.last_seq, e.last_sent);
  last_seq = seq;
  last_sent = now;
  pending = (e.pending + 1) % 2 ^ 32;
}

abbrev pub sent_first : ℕ → ℕ → Entry
sent_first seq now = record {
  last_seq = seq;
  last_sent = now;
  prev = none;
  readable_until = none;
  pending = 1;
}

abbrev max : ℕ → ℕ → ℕ
max a b = if leb a b then b else a

abbrev raised : Option ℕ → ℕ → Option ℕ
raised none expiry = some expiry
raised (some r) expiry = some (max r expiry)

-- one level of history back
abbrev pub rolled_back : Entry → Option (ℕ × ℕ) → Entry
rolled_back e none = e
rolled_back e (some (s, t)) = record e { last_seq = s; last_sent = t; prev = none }

-- an entry after the outcome of one of its sends
abbrev pub outcome : Bool → ℕ → ℕ → Entry → Entry
outcome success seq expiry e0 =
    let e = record e0 { pending = e0.pending - 1 } in
    if success
    then record e { readable_until = raised e.readable_until expiry }
    else if e.last_seq == seq
    then rolled_back e e.prev
    else e

-- whether the entry goes: its only send has failed, and no other is pending
abbrev pub goes : Bool → ℕ → Entry → Bool
goes success seq e =
    not success
    && (e.last_seq == seq)
    && not (is_some e.prev)
    && not (is_some e.readable_until)
    && (e.pending - 1 == 0)

module _ {T : Type 0} (lru : Lru T) where
  -- the loop of `make_room`, with so many rounds left
  unfoldable pub search_room : ℕ → T → Bool × T
  search_room zero t = (false, t)
  search_room (suc n) t = elim (lru.peek_lru t) [
    | none ↦ (true, t)
    | some (k, e) ↦
        let again = search_room n (lru.push (lru.pop_lru t) k e) in
        if e.pending == 0 then (true, lru.pop_lru t) else again
  ]

  unfoldable pub make_room : T → Bool × T
  unfolding search_room
  make_room t = if ltb (lru.len t) (lru.cap t) then (true, t) else search_room (lru.cap t) t

  abbrev pub insert_if : Key → Entry → Bool × T → Bool × T
  insert_if k e (true, t) = (true, lru.put t k e)
  insert_if k e (false, t) = (false, t)

  abbrev pub touch_found : Key → ℕ → ℕ → T → Option Entry → Bool × T
  touch_found k seq now t (some e) = (true, lru.set t k (sent_again seq now e))
  touch_found k seq now t none = insert_if k (sent_first seq now) (make_room t)

  unfoldable pub touch : Key → ℕ → ℕ → T → Bool × T
  unfolding make_room
  touch k seq now t = touch_found k seq now t (lru.peek t k)

  abbrev pub settle_found : Key → ℕ → ℕ → Bool → T → Option Entry → T
  settle_found k seq expiry success t none = t
  settle_found k seq expiry success t (some e) =
      if goes success seq e then lru.pop t k else lru.set_peeked t k (outcome success seq expiry e)

  unfoldable pub settle_entry : Key → ℕ → ℕ → Bool → T → T
  settle_entry k seq expiry success t = settle_found k seq expiry success t (lru.peek t k)
