-- ===== src/CacheTrace/Tests.antt =====
-- The analysis, the comparison, the tables and the guard of src/cache_trace.rs on small inputs.
use mur_model_gateway.Common.{
  ◌≡◌, refl, sym, ap, ap₂, subst, ℕ, ◌+◌, ◌<◌, true, false, ◌&&◌, List, [], ◌∷◌, Option, none, some,
  String, if◌then◌else◌, ◌==◌, ==_iff, length, arith, Bool-cases, inl, inr,
}
use mathlib.Core.Bool.{and-eq-true_iff}
use mathlib.Core.Option.{none-ne-some, some-injective}
use mur_model_gateway.Common.Text.{str_eq}
use mur_model_gateway.Common.Text.Prefix.{str_eq_iff}
use mur_model_gateway.Json.{Value, Fields, str, object, array, fields}
use mur_model_gateway.CacheTrace.{Bytes, analyze_object, Analysis}
use mur_model_gateway.CacheTrace.Sizes.{Sizes, analyze_object-Sizes}
use mur_model_gateway.CacheTrace.Diff.{new, seq_diff, count}
use mur_model_gateway.CacheTrace.Diff.Tells.{Tells, seq_diff-Tells}
use mur_model_gateway.CacheTrace.Guard.{Key, InflightGuard, Call, on_status, begun, completed, life}
use mur_model_gateway.CacheTrace.Guard.Once.{outcomes, usages, start_seen, first_usage}
use mur_model_gateway.CacheTrace.Send.{Slots, Tables, send_analysis, on_send}
use mur_model_gateway.CacheTrace.Send.Life.{on_send-once}
use mur_model_gateway.CacheTrace.Table.{Entry, Lru, touch, settle_entry, sent_first}
use mur_model_gateway.CacheTrace.Table.Documented.{key_eq, Entries, pending_of, Documented}
use mur_model_gateway.CacheTrace.Table.Pending.{Touched, touch-Touched, ended, settle_entry-pending}

abbrev print : Value → Bytes
print v = 1 ∷ 2 ∷ 3 ∷ []

abbrev marked_block : Value
marked_block =
    object (("type", str "text") ∷ ("cache_control", object (("type", str "ephemeral") ∷ [])) ∷ [])

abbrev plain_block : Value
plain_block = object (("type", str "text") ∷ [])

abbrev marked_body : Fields
marked_body = fields (
    ("tools", array (plain_block ∷ marked_block ∷ []))
    ∷ ("system", array (marked_block ∷ plain_block ∷ []))
    ∷ [])

marked_counts : (analyze_object print marked_body).bp_bytes ≡ 6 ∷ 9 ∷ []
unfolding analyze_object
marked_counts = refl

analyze_object-Sizes_example : Sizes (analyze_object print marked_body)
analyze_object-Sizes_example = analyze_object-Sizes print marked_body

seq_diff-Tells_example :
    Tells 3 (1 ∷ 2 ∷ []) (1 ∷ 2 ∷ 3 ∷ []) (seq_diff (new (1 ∷ 2 ∷ []) 3) (new (1 ∷ 2 ∷ 3 ∷ []) 3) 3)
seq_diff-Tells_example = seq_diff-Tells 3 (1 ∷ 2 ∷ []) (1 ∷ 2 ∷ 3 ∷ [])

one_more_block : seq_diff (new (1 ∷ 2 ∷ []) 3) (new (1 ∷ 2 ∷ 3 ∷ []) 3) 3 ≡ count 2 true
unfolding seq_diff new
one_more_block = refl

abbrev streamed_calls : List Call
streamed_calls = on_status 200 true ∷ begun ∷ begun ∷ completed none ∷ []

-- A cache for one entry.
abbrev Cell : Type 0
Cell = Option (Key × Entry)

abbrev in_cell : Cell → Entries
in_cell none = []
in_cell (some x) = x ∷ []

abbrev look : Cell → Key → Option Entry
look none k = none
look (some (j, e)) k = if key_eq k j then some e else none

abbrev cell : Lru Cell
cell = record {
  len = λ t. length (in_cell t);
  cap = λ t. 1;
  peek = look;
  set = λ t k e. some (k, e);
  set_peeked = λ t k e. some (k, e);
  peek_lru = λ t. t;
  pop_lru = λ t. none;
  push = λ t k e. some (k, e);
  put = λ t k e. some (k, e);
  pop = λ t k. none;
}

key_eq_sound : (k j : Key) → key_eq k j ≡ true → k ≡ j
unfolding key_eq
key_eq_sound (a, b, c) (d, e, f) h =
    let (front, blocks) = (and-eq-true_iff (str_eq a d && b == e) (c == f)).0 h in
    let (name, context) = (and-eq-true_iff (str_eq a d) (b == e)).0 front in
    triple a d b e c f ((str_eq_iff a d).0 name) ((==_iff b e).0 context) ((==_iff c f).0 blocks)
  where
    triple :
        (x y : String) (m n k l : ℕ) → x ≡ y → m ≡ n → k ≡ l → ◌≡◌ {A = Key} (x, m, k) (y, n, l)
    triple x y m n k l p q r = rw (p, q, r) refl

look-some : (t : Cell) (k : Key) (e : Entry) → look t k ≡ some e → in_cell t ≡ (k, e) ∷ []
look-some none k e h = absurd (none-ne-some e h)
look-some (some (j, x)) k e h = elim (Bool-cases (key_eq k j)) [
  | inl d ↦
      ap₂ (λ (i : Key) (y : Entry). (i, y) ∷ []) (sym (key_eq_sound k j d))
        (some-injective _ _ (rw (d) at h))
  | inr d ↦ absurd (none-ne-some e (rw (d) at h))
]

in_cell-whole : (t : Cell) (k : Key) (e : Entry) → t ≡ some (k, e) → in_cell t ≡ (k, e) ∷ []
in_cell-whole t k e h = ap in_cell h

put_in_empty :
    (t : Cell) (k : Key) (e : Entry) → length (in_cell t) < 1 → (k, e) ∷ [] ≡ (k, e) ∷ in_cell t
put_in_empty none k e l = refl
put_in_empty (some x) k e l = absurd (omega (arith, l))

documented : Documented Cell cell in_cell
documented = record {
  len = λ t. refl;
  least = in_cell-whole;
  nothing = λ t h. ap in_cell h;
  push = λ t k e h. refl;
  put = λ t k e h l. put_in_empty t k e l;
  set = λ t k e f h. ([], [], look-some t k e h, refl);
  set_peeked = λ t k e f h. ([], [], look-some t k e h, refl);
  pop = λ t k e h. ([], [], look-some t k e h, refl);
  peek_popped = λ t k h. refl;
  peek_pushed = λ t k j e h n. subst (λ u. look u k ≡ none) h n;
  positive = λ t. omega arith;
  cap_popped = λ t. refl;
  cap_pushed = λ t k e. refl;
}

abbrev key : Key
key = ("m", 1, 2)

abbrev full : Cell
full = some (("n", 1, 2), record (sent_first 1 5) { pending = 0 })

absent : (e : Entry) → look full key ≡ some e → e.pending + 1 < 4294967296
unfolding key_eq str_eq
absent e h = absurd (none-ne-some e h)

touch-Touched_example : Touched cell in_cell documented key full (touch cell key 2 9 full)
touch-Touched_example = touch-Touched cell in_cell documented key 2 9 full absent (omega arith)

settle_entry-pending_example :
    pending_of key (in_cell (settle_entry cell key 2 300 true (some (key, sent_first 2 9))))
      + (if key_eq key key
          then ended cell in_cell documented (look (some (key, sent_first 2 9)) key)
          else 0)
    ≡ pending_of key (in_cell (some (key, sent_first 2 9)))
settle_entry-pending_example =
    settle_entry-pending cell in_cell documented key key 2 300 true (some (key, sent_first 2 9))

abbrev no_slots : Slots ℕ
no_slots = record { get = λ p k. (none, p); put = λ p k s. p + 1 }

abbrev tables : Tables ℕ Cell
tables = record { prev = 0; prefix = full; tools = none; seq = 6 }

abbrev marked : Analysis
marked = analyze_object print marked_body

abbrev guard : InflightGuard
guard = (send_analysis no_slots cell "cli" false 9 marked tables).0

guard_made : (on_send no_slots cell "cli" false 9 (some marked) tables).0 ≡ some guard
unfolding on_send
guard_made = refl

on_send-once_example :
    (outcomes (life streamed_calls guard) ≡ start_seen streamed_calls ∷ [])
    × (usages (life streamed_calls guard) ≡ first_usage streamed_calls ∷ [])
on_send-once_example =
    on_send-once no_slots cell "cli" false 9 (some marked) tables guard streamed_calls guard_made
