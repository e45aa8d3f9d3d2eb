-- ===== src/Compress/Engine.antt =====
-- src/compress.rs (`Memo`, `Verdict`, `Summary`, `extract_tool_result_text`, `note_composition`,
-- `stale_stub`, `compress_text`): the judgement of one text and what is kept of it. The engine of
-- mur-compress, the lru cache, the standard hasher and serde_json's printer and parser are the
-- functions of `External`; `W` is the state of the engine's store, `C` and `D` the two caches. Counts
-- are unbounded here: a `usize` counts the blocks and tokens of a body in memory.
pub mod Transparent
use mur_model_gateway.Common.{
  ℕ, suc, ◌+◌, ◌-◌, Bool, true, false, ◌&&◌, ◌||◌, not, List, [], ◌∷◌, Option, none, some, String,
  if◌then◌else◌, ltb, leb, ◌==◌, ◌>>=◌, get_or, or_else, is_empty,
}
use mur_model_gateway.Common.Text.{str_eq, push_str, join}
use mur_model_gateway.Common.Text.Search.{byte_len}
use mur_model_gateway.Json.{
  Value, null, bool, num, str, arr, obj, Items, nil, cons, get, as_str, as_array, elems,
}
use mur_model_gateway.Compress.{has_retrieve_marker}
use mur_model_gateway.Compress.Stale.{StaleReason, superseded_path, duplicate}

-- What `auto_compress` returns.
pub record Compressed : Type 0 where
  pub fired : Bool
  pub hash : Option String
  pub text : String
  pub original_tokens : ℕ
  pub compressed_tokens : ℕ

pub record Verdict : Type 0 where
  pub text : Option String
  pub tokens_before : ℕ
  pub tokens_after : ℕ

-- what the hasher is fed with
pub data Hashed : Type 0 where
  byte : ℕ → Hashed
  text : String → Hashed

pub record External (W C D : Type 0) : Type 0 where
  pub auto_compress : W → String → ℕ → Compressed × W
  pub archive : W → String → Option String × W
  pub skeletonize : String → String → Option String
  pub retrieval_note : String → String
  pub hash : List Hashed → ℕ
  pub cached : C → ℕ → Option Verdict × C
  pub cache : C → ℕ → Verdict → C
  pub stub_cached : D → ℕ → Option String × D
  pub cache_stub : D → ℕ → String → D
  pub print : Value → String
  pub parse : String → Option Value
  pub size : Value → ℕ
  pub decode : List ℕ → Option Value
  pub encode : Value → Option (List ℕ)

-- `Summary`, without the time that the rewrite took
pub record Summary : Type 0 where
  pub blocks : ℕ
  pub hit : ℕ
  pub miss : ℕ
  pub small : ℕ
  pub marker : ℕ
  pub exempt : ℕ
  pub fired : ℕ
  pub stale : Bool
  pub stale_hit : ℕ
  pub stale_miss : ℕ
  pub system_bytes : ℕ
  pub tools_bytes : ℕ
  pub messages_bytes : ℕ
  pub model : String
  pub before : ℕ
  pub after : ℕ
  pub tokens_before : ℕ
  pub tokens_after : ℕ

-- `Summary::default`
abbrev pub empty_summary : Summary
empty_summary = record {
  blocks = 0;
  hit = 0;
  miss = 0;
  small = 0;
  marker = 0;
  exempt = 0;
  fired = 0;
  stale = false;
  stale_hit = 0;
  stale_miss = 0;
  system_bytes = 0;
  tools_bytes = 0;
  messages_bytes = 0;
  model = "";
  before = 0;
  after = 0;
  tokens_before = 0;
  tokens_after = 0;
}

-- The state of one rewrite: the store, the two halves of `Memo`, the summary, and whether a text of
-- the body has been replaced.
pub record Run (W C D : Type 0) : Type 0 where
  pub store : W
  pub verdicts : C
  pub stubs : D
  pub summary : Summary
  pub changed : Bool

abbrev pub is_text : Value → Bool
is_text item = elim (get item "type" >>= as_str) [ none ↦ false | some t ↦ str_eq t "text" ]

abbrev pub text_of : Value → Option String
text_of item = get item "text" >>= as_str

abbrev pub all_text : Items → Bool
all_text nil = true
all_text (cons i is) = is_text i && all_text is

abbrev pub texts_of : Items → List String
texts_of nil = []
texts_of (cons i is) = elim (text_of i) [ none ↦ texts_of is | some t ↦ t ∷ texts_of is ]

unfoldable pub extract_tool_result_text : Value → Option String
unfolding get str_eq join
extract_tool_result_text (str s) = some s
extract_tool_result_text (arr nil) = none
extract_tool_result_text (arr (cons i is)) =
    if all_text (cons i is) then some (join "\n" (texts_of (cons i is))) else none
extract_tool_result_text null = none
extract_tool_result_text (bool b) = none
extract_tool_result_text (num n) = none
extract_tool_result_text (obj fs) = none

abbrev pub size_of : (Value → ℕ) → Option Value → ℕ
size_of size none = 0
size_of size (some v) = size v

abbrev is_system_role : Option String → Bool
is_system_role none = false
is_system_role (some r) = str_eq r "system" || str_eq r "developer"

abbrev system_sizes : (Value → ℕ) → List Value → ℕ
system_sizes size [] = 0
system_sizes size (m ∷ ms) =
    (if is_system_role (get m "role" >>= as_str) then size m else 0) + system_sizes size ms

abbrev system_part : (Value → ℕ) → ℕ → Option (List Value) → ℕ
system_part size n none = n
system_part size n (some ms) = if n == 0 then system_sizes size ms else n

abbrev max : ℕ → ℕ → ℕ
max a b = if leb a b then b else a

-- `note_composition`; `size` is the length of a value as serde_json prints it
unfoldable pub note_composition : (Value → ℕ) → Value → Summary → Summary
unfolding get str_eq
note_composition size root s =
    let messages =
      or_else (get root "messages") (or_else (get root "contents") (get root "input")) in
    let system =
      max (size_of size (get root "system")) (size_of size (get root "systemInstruction")) in
    record s {
      model = get_or (get root "model" >>= as_str) "";
      system_bytes = system_part size system (messages >>= as_array);
      tools_bytes = size_of size (get root "tools");
      messages_bytes = size_of size messages;
    }

module _ {W C D : Type 0} (ext : External W C D) where
  -- `Memo::key`
  abbrev pub key : String → ℕ
  key s = ext.hash (text s ∷ [])

  -- `Memo::stale_key`
  abbrev pub stale_key : StaleReason → String → ℕ
  stale_key (superseded_path path) s = ext.hash (byte 0 ∷ text path ∷ text s ∷ [])
  stale_key duplicate s = ext.hash (byte 1 ∷ text s ∷ [])

  abbrev pub why : StaleReason → String
  why (superseded_path path) =
      push_str "superseded: a later read or edit of "
        (push_str path " appears further below in this conversation")
  why duplicate = "identical to a later tool result in this conversation"

  abbrev pub skeleton : StaleReason → String → Option String
  skeleton (superseded_path path) original = ext.skeletonize original path
  skeleton duplicate original = none

  abbrev pub marker_for : String → Option String → String
  marker_for what (some h) =
      push_str "[" (push_str what (push_str ". " (push_str (ext.retrieval_note h) "]")))
  marker_for what none = push_str "[" (push_str what "]")

  abbrev pub with_skeleton : String → Option String → String
  with_skeleton m none = m
  with_skeleton m (some sk) = push_str m (push_str "\n\n" sk)

  abbrev pub make_stub : StaleReason → String → Option String → String
  make_stub reason original hash =
      with_skeleton (marker_for (why reason) hash) (skeleton reason original)

  abbrev pub build_stub : StaleReason → String → Run W C D → String × Run W C D
  build_stub reason original r =
      let (hash, store) = ext.archive r.store original in
      let stub = make_stub reason original hash in
      (
        stub,
        record r {
          store = store;
          stubs = ext.cache_stub r.stubs (stale_key reason original) stub;
          summary = record r.summary { stale_miss = r.summary.stale_miss + 1 };
        },
      )

  abbrev pub reuse_stub : StaleReason → String → Run W C D → Option String → String × Run W C D
  reuse_stub reason original r none = build_stub reason original r
  reuse_stub reason original r (some stub) =
      (stub, record r { summary = record r.summary { stale_hit = r.summary.stale_hit + 1 } })

  unfoldable pub stale_stub : StaleReason → String → Run W C D → String × Run W C D
  unfolding push_str
  stale_stub reason original r =
      let (found, stubs) = ext.stub_cached r.stubs (stale_key reason original) in
      reuse_stub reason original (record r { stubs = stubs }) found

  abbrev with_note : Option String → String → String
  with_note none t = t
  with_note (some h) t = push_str t (push_str "\n[" (push_str (ext.retrieval_note h) "]"))

  -- the verdict that a miss makes of what the engine returned
  unfoldable pub verdict_of : Compressed → Verdict
  unfolding push_str
  verdict_of out = record {
    text = if out.fired then some (with_note out.hash out.text) else none;
    tokens_before = out.original_tokens;
    tokens_after = out.compressed_tokens;
  }

  -- the verdict on a text that is not in the memo
  abbrev pub judge : ℕ → String → Run W C D → Verdict × Run W C D
  judge min_tokens s r =
      let (out, store) = ext.auto_compress r.store s min_tokens in
      let v = verdict_of out in
      (
        v,
        record r {
          store = store;
          verdicts = ext.cache r.verdicts (key s) v;
          summary = record r.summary { miss = r.summary.miss + 1 };
        },
      )

  abbrev pub recall : ℕ → String → Run W C D → Option Verdict → Verdict × Run W C D
  recall min_tokens s r none = judge min_tokens s r
  recall min_tokens s r (some v) =
      (v, record r { summary = record r.summary { hit = r.summary.hit + 1 } })

  -- the verdict on a text, from the memo or made anew
  unfoldable pub verdict_for : ℕ → String → Run W C D → Verdict × Run W C D
  unfolding verdict_of
  verdict_for min_tokens s r =
      let (found, verdicts) = ext.cached r.verdicts (key s) in
      recall min_tokens s (record r { verdicts = verdicts }) found

  abbrev pub replace_if : Option String → String → Run W C D → String × Run W C D
  replace_if none s r = (s, r)
  replace_if (some t) s r =
      (t, record r { changed = true; summary = record r.summary { fired = r.summary.fired + 1 } })

  abbrev pub apply_verdict : String → Verdict × Run W C D → String × Run W C D
  apply_verdict s (v, r) =
      let before = r.summary.tokens_before + v.tokens_before in
      let after = r.summary.tokens_after + v.tokens_after in
      replace_if v.text s
        (record r { summary = record r.summary { tokens_before = before; tokens_after = after } })

  -- `compress_text`, with `changed |=` around it: the text in its place and the state after it
  unfoldable pub compress_text : ℕ → String → Run W C D → String × Run W C D
  unfolding verdict_for has_retrieve_marker byte_len
  compress_text min_tokens s r0 =
      let r = record r0 { summary = record r0.summary { blocks = r0.summary.blocks + 1 } } in
      if ltb (byte_len s) min_tokens
      then (s, record r { summary = record r.summary { small = r.summary.small + 1 } })
      else if has_retrieve_marker s
      then (s, record r { summary = record r.summary { marker = r.summary.marker + 1 } })
      else apply_verdict s (verdict_for min_tokens s r)
