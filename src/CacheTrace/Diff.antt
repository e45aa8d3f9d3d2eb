-- ===== src/CacheTrace/Diff.antt =====
-- src/cache_trace.rs (`Seq`, `seq_diff`, `section`, `diverged_from`): where a request first differs
-- from the one before it.
pub mod Tells
use mur_model_gateway.Common.{
  ℕ, zero, suc, ◌+◌, ◌≡◌, Bool, true, false, not, ◌&&◌, List, [], ◌∷◌, Option, none, some, String,
  min, if◌then◌else◌, ◌==◌, leb, ltb, length, get_or, or_else, get_elem?,
}
use mur_model_gateway.Common.Text.{push_str}
use mur_model_gateway.Common.Decimal.{decimal}
use mur_model_gateway.CacheTrace.{Bytes, Analysis, fnv1a_seq, take}

abbrev pub tools_hash_cap : ℕ
tools_hash_cap = 1024

abbrev pub system_hash_cap : ℕ
system_hash_cap = 64

abbrev pub msgs_hash_cap : ℕ
msgs_hash_cap = 4096

pub record Seq : Type 0 where
  pub head : List ℕ
  pub tail : Option ℕ
  pub total : ℕ

abbrev drop : ℕ → List ℕ → List ℕ
drop zero xs = xs
drop (suc n) [] = []
drop (suc n) (x ∷ xs) = drop n xs

-- `Seq::new`
unfoldable pub new : List ℕ → ℕ → Seq
unfolding fnv1a_seq
new hashes cap = record {
  head = if leb (length hashes) cap then hashes else take cap hashes;
  tail = if leb (length hashes) cap then none else some (fnv1a_seq (drop cap hashes));
  total = length hashes;
}

pub data SeqDiff : Type 0 where
  same : SeqDiff
  at : (index : ℕ) → SeqDiff
  beyond : SeqDiff
  count : (shared : ℕ) (cur_more : Bool) → SeqDiff

abbrev pub next : Option ℕ → Option ℕ
next none = none
next (some i) = some (suc i)

-- `(0..n).find(|&i| prev.head[i] != cur.head[i])`
unfoldable pub first_mismatch : List ℕ → List ℕ → Option ℕ
first_mismatch [] ys = none
first_mismatch (x ∷ xs) [] = none
first_mismatch (x ∷ xs) (y ∷ ys) = if x == y then next (first_mismatch xs ys) else some 0

abbrev pub hash_eq : Option ℕ → Option ℕ → Bool
hash_eq none none = true
hash_eq none (some b) = false
hash_eq (some a) none = false
hash_eq (some a) (some b) = a == b

abbrev pub seq_diff_from : Option ℕ → Seq → Seq → ℕ → SeqDiff
seq_diff_from (some i) prev cur cap = at i
seq_diff_from none prev cur cap =
    let shared = min prev.total cur.total in
    if not (prev.total == cur.total)
    then if leb cap shared then beyond else count shared (ltb prev.total cur.total)
    else if hash_eq prev.tail cur.tail
    then same
    else beyond

unfoldable pub seq_diff : Seq → Seq → ℕ → SeqDiff
unfolding first_mismatch
seq_diff prev cur cap = seq_diff_from (first_mismatch prev.head cur.head) prev cur cap

-- `Canon`
pub record Canon : Type 0 where
  pub tools : List Bytes
  pub system : List Bytes

pub record PrevSlot : Type 0 where
  pub ctx_fp : ℕ
  pub tools : Seq
  pub system : Seq
  pub msgs : Seq
  pub canon : Option Canon

-- the first place where two lists of bytes differ, or where the shorter ends
unfoldable pub first_diff : Bytes → Bytes → ℕ
unfolding first_mismatch
first_diff a b = get_or (first_mismatch a b) (min (length a) (length b))

abbrev sign : Bool → String
sign true = "+"
sign false = "-"

-- the byte offset, where both blocks are still there
abbrev offset : Option Bytes → Option Bytes → String
offset (some p) (some c) = decimal (first_diff p c)
offset (some p) none = "?"
offset none c = "?"

abbrev block_at : Option (List Bytes) → ℕ → Option Bytes
block_at none i = none
block_at (some bs) i = get_elem? bs i

unfoldable pub section : String → ℕ → SeqDiff → Option (List Bytes) → List Bytes → Option String
unfolding push_str first_diff
section name cap same prev cur = none
section name cap beyond prev cur = some (push_str name (push_str ":" (push_str (decimal cap) "+")))
section name cap (count shared more) prev cur =
    some (push_str name (push_str ":" (push_str (decimal shared) (push_str "@" (sign more)))))
section name cap (at i) prev cur =
    let where_ = offset (block_at prev i) (get_elem? cur i) in
    some (push_str name (push_str ":" (push_str (decimal i) (push_str "@" where_))))

unfoldable pub section_msgs : SeqDiff → Option String
unfolding push_str
section_msgs same = none
section_msgs beyond = some (push_str "msgs:" (push_str (decimal msgs_hash_cap) "+"))
section_msgs (count shared more) = some (push_str "msgs:" (decimal shared))
section_msgs (at i) = some (push_str "msgs:" (decimal i))

abbrev kept_tools : Option Canon → Option (List Bytes)
kept_tools none = none
kept_tools (some c) = some c.tools

abbrev kept_system : Option Canon → Option (List Bytes)
kept_system none = none
kept_system (some c) = some c.system

unfoldable pub diverged_from : PrevSlot → Analysis → Seq → Seq → Seq → String
unfolding seq_diff section section_msgs
diverged_from prev a tools system msgs =
    let in_tools =
      section "tools" tools_hash_cap (seq_diff prev.tools tools tools_hash_cap)
        (kept_tools prev.canon) a.tools_canon in
    let in_system =
      section "system" system_hash_cap (seq_diff prev.system system system_hash_cap)
        (kept_system prev.canon) a.system_canon in
    let in_msgs = section_msgs (seq_diff prev.msgs msgs msgs_hash_cap) in
    if prev.ctx_fp == a.ctx_fp
    then get_or (or_else in_tools (or_else in_system in_msgs)) "none"
    else "ctx"
