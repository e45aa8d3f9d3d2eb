-- ===== src/Compress/Rewrite/Blocks.antt =====
-- src/compress.rs: the parts that the rewrites of the three wire formats share: the edits of one text
-- payload, what is known of the call behind a tool result, and the loop that puts the stubs in place.
use mur_model_gateway.Common.{
  ℕ, ◌+◌, Bool, true, false, List, [], ◌∷◌, Option, none, some, String, if◌then◌else◌, any, ◌||◌,
  ◌>>=◌, get_or,
}
use mur_model_gateway.Common.Text.{str_eq, is_empty}
use mur_model_gateway.Json.{Value, null, bool, num, str, arr, obj, Items, get, as_str, as_array}
use mur_model_gateway.Compress.{has_retrieve_marker, is_read_tool}
use mur_model_gateway.Compress.Edits.{Edit, each_item, at_field}
use mur_model_gateway.Compress.Engine.{External, Run, compress_text, stale_stub, note_composition}
use mur_model_gateway.Compress.Stale.{StaleReason, StaleCandidate}

-- what is known of a call: its tool's name, the file that it names and its view
pub record ToolMeta : Type 0 where
  pub name : String
  pub path : Option String
  pub view : String

-- `HashMap::get`, on the writes of the map with the latest in front
unfoldable pub meta_of : String → List (String × ToolMeta) → Option ToolMeta
unfolding str_eq
meta_of id [] = none
meta_of id ((j, m) ∷ ms) = if str_eq j id then some m else meta_of id ms

-- the candidate that a tool result with this text makes, when its call is known
abbrev candidate_if : Bool → ToolMeta → String → Option StaleCandidate
candidate_if true m t = none
candidate_if false m t =
    some record { path = m.path; view = m.view; is_read = is_read_tool m.name; text = t }

abbrev pub candidate : ToolMeta → String → Option StaleCandidate
candidate m t = candidate_if (is_empty t || has_retrieve_marker t) m t

unfoldable pub contains_id : List String → String → Bool
unfolding str_eq
contains_id ids id = any (λ j. str_eq j id) ids

abbrev pub is_in : List String → Option String → Bool
is_in ids none = false
is_in ids (some id) = contains_id ids id

-- `get(key).and_then(as_str) == Some(text)`
unfoldable pub has_text : String → String → Value → Bool
unfolding get str_eq
has_text k t v = elim (get v k >>= as_str) [ none ↦ false | some u ↦ str_eq u t ]

-- the elements of the list at a key, none where there is no list
unfoldable pub elems_at : String → Value → List Value
unfolding get
elems_at k v = get_or (get v k >>= as_array) []

abbrev pub name_of : Value → String
name_of v = get_or (get v "name" >>= as_str) ""

abbrev pub note_call :
    Option (String × ToolMeta) → List (String × ToolMeta) → List (String × ToolMeta)
note_call none m = m
note_call (some x) m = x ∷ m

abbrev pub place :
    {L : Type 0} → L → Option StaleCandidate → List (L × StaleCandidate) → List (L × StaleCandidate)
place l none xs = xs
place l (some c) xs = (l, c) ∷ xs

abbrev pub add_id : Option String → List String → List String
add_id none ids = ids
add_id (some id) ids = id ∷ ids

module _ {W C D : Type 0} where
  -- a result that is left verbatim is counted
  abbrev pub count_exempt : Run W C D → Run W C D
  count_exempt r = record r { summary = record r.summary { exempt = r.summary.exempt + 1 } }

  abbrev pub put_stub : String → Edit (Run W C D)
  put_stub stub r v = (str stub, record r { changed = true })

module _ {W C D : Type 0} (ext : External W C D) where
  abbrev as_text : String × Run W C D → Value × Run W C D
  as_text (s, r) = (str s, r)

  -- `if let Value::String(s) = v { changed |= compress_text(…, s) }`
  unfoldable pub edit_text : ℕ → Edit (Run W C D)
  unfolding compress_text
  edit_text min_tokens r (str s) = as_text (compress_text ext min_tokens s r)
  edit_text min_tokens r null = (null, r)
  edit_text min_tokens r (bool b) = (bool b, r)
  edit_text min_tokens r (num n) = (num n, r)
  edit_text min_tokens r (arr vs) = (arr vs, r)
  edit_text min_tokens r (obj fs) = (obj fs, r)

  -- an item of a payload that is a list
  unfoldable pub edit_item : ℕ → Edit (Run W C D)
  unfolding edit_text at_field has_text
  edit_item min_tokens r item =
      if has_text "type" "text" item
      then at_field "text" (edit_text min_tokens) r item
      else (item, r)

  abbrev as_items : Items × Run W C D → Value × Run W C D
  as_items (vs, r) = (arr vs, r)

  -- the payload of a tool result, in the Anthropic and the OpenAI formats
  unfoldable pub edit_payload : ℕ → Edit (Run W C D)
  unfolding edit_text edit_item each_item
  edit_payload min_tokens r (arr vs) = as_items (each_item (edit_item min_tokens) r vs)
  edit_payload min_tokens r (str s) = edit_text min_tokens r (str s)
  edit_payload min_tokens r null = (null, r)
  edit_payload min_tokens r (bool b) = (bool b, r)
  edit_payload min_tokens r (num n) = (num n, r)
  edit_payload min_tokens r (obj fs) = (obj fs, r)

  module _ {L : Type 0} (put : L → String → Edit (Run W C D)) where
    abbrev put_at : L → String × Run W C D → Value → Value × Run W C D
    put_at l (stub, r) root = put l stub r root

    abbrev collapse_at : L × StaleCandidate → Option StaleReason → Edit (Run W C D)
    collapse_at (l, c) none r root = (root, r)
    collapse_at (l, c) (some reason) r root = put_at l (stale_stub ext reason c.text r) root

    -- the loop over the locators: a stub for each candidate with a reason, where it stands
    unfoldable pub collapse :
        List (L × StaleCandidate) → List (Option StaleReason) → Edit (Run W C D)
    unfolding stale_stub
    collapse [] rs r root = (root, r)
    collapse (x ∷ xs) [] r root = (root, r)
    collapse (x ∷ xs) (reason ∷ rs) r root =
        let (next, r1) = collapse_at x reason r root in collapse xs rs r1 next

  abbrev pub note_if : Bool → Value → Run W C D → Run W C D
  note_if traced root r =
      if traced then record r { summary = note_composition ext.size root r.summary } else r

  abbrev pub note_stale : Run W C D → Run W C D
  note_stale r = record r { summary = record r.summary { stale = r.changed } }

  -- what the three rewrites have in common: the composition is noted when it will be logged, the stale
  -- results are collapsed, and the texts that are left are compressed
  unfoldable pub two_passes :
      Bool → Edit (Run W C D) → (Value → Edit (Run W C D)) → Edit (Run W C D)
  unfolding note_composition
  two_passes traced first second r root =
      let (collapsed, r1) = first (note_if traced root r) root in
      second collapsed (note_stale r1) collapsed
