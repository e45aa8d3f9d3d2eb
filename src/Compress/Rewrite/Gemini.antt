-- ===== src/Compress/Rewrite/Gemini.antt =====
-- src/compress.rs (`collapse_stale_tool_results_gemini`, `rewrite_gemini_with`): the rewrite of a
-- Gemini body, whose responses are matched with their calls in order, by the name of the function.
pub mod Whole
use mur_model_gateway.Common.{
  ℕ, zero, suc, ◌+◌, Bool, true, false, List, [], ◌∷◌, ◌++◌, map, Option, none, some, String,
  if◌then◌else◌, ◌>>=◌, get_or,
}
use mur_model_gateway.Common.Text.{str_eq}
use mur_model_gateway.Json.{
  Value, null, bool, num, str, arr, obj, Fields, get, find, insert, as_str,
}
use mur_model_gateway.Compress.{file_path_of, view_key, is_verbatim_tool}
use mur_model_gateway.Compress.Edits.{Edit, leave, each_elem, at_field, at_elem, in_fields}
use mur_model_gateway.Compress.Engine.{External, Run}
use mur_model_gateway.Compress.Stale.{StaleCandidate, compute_stale_reasons}
use mur_model_gateway.Compress.Rewrite.Blocks.{
  ToolMeta, candidate, count_exempt, put_stub, edit_text, collapse, two_passes, elems_at, name_of,
  place,
}

-- what a call that awaits its response asked for: its path and its view
abbrev pub Asked : Type 0
Asked = Option String × String

-- the queues of `pending_meta`
abbrev pub Pending : Type 0
Pending = List (String × List Asked)

-- `entry(name).or_default().push_back(asked)`
unfoldable pub push_back : String → Asked → Pending → Pending
unfolding str_eq
push_back name asked [] = (name, asked ∷ []) ∷ []
push_back name asked ((n, q) ∷ ps) =
    if str_eq n name then (n, q ++ asked ∷ []) ∷ ps else (n, q) ∷ push_back name asked ps

abbrev after_pop : String → List Asked → Pending → Asked × Pending
after_pop n [] ps = ((none, ""), (n, []) ∷ ps)
after_pop n (asked ∷ q) ps = (asked, (n, q) ∷ ps)

abbrev pass_queue : String × List Asked → Asked × Pending → Asked × Pending
pass_queue e (asked, ps) = (asked, e ∷ ps)

-- `get_mut(name).and_then(pop_front).unwrap_or_default()`
unfoldable pub pop_front : String → Pending → Asked × Pending
unfolding str_eq
pop_front name [] = ((none, ""), [])
pop_front name ((n, q) ∷ ps) =
    if str_eq n name then after_pop n q ps else pass_queue (n, q) (pop_front name ps)

-- the text of a response, which is a string or stands at `result`
unfoldable pub response_text : Value → Option String
unfolding find
response_text (str s) = some s
response_text (obj fs) = find fs "result" >>= as_str
response_text null = none
response_text (bool b) = none
response_text (num n) = none
response_text (arr vs) = none

abbrev asked_by : (Value → String) → Value → Asked
asked_by print call =
    let args = get call "args" in (file_path_of args, view_key print (name_of call) args)

abbrev meta_with : String → Asked → ToolMeta
meta_with name (path, view) = record { name = name; path = path; view = view }

abbrev response_candidate : String → Asked → Value → Option StaleCandidate
response_candidate name asked response =
    get response "response" >>= (λ v. response_text v >>= candidate (meta_with name asked))

abbrev on_response : Pending → Option Value → Option StaleCandidate × Pending
on_response ps none = (none, ps)
on_response ps (some response) =
    let name = name_of response in
    let (asked, next) = pop_front name ps in (response_candidate name asked response, next)

-- one part: a call joins its queue, a response takes the front of its queue
unfoldable pub on_part : (Value → String) → Pending → Value → Option StaleCandidate × Pending
unfolding get push_back pop_front file_path_of view_key response_text
on_part print ps part = elim (get part "functionCall") [
  | some call ↦ (none, push_back (name_of call) (asked_by print call) ps)
  | none ↦ on_response ps (get part "functionResponse")
]

-- what a loop that goes through parts carries along: the queues, and the candidates in reverse
abbrev pub Found : Type 0
Found = Pending × List ((ℕ × ℕ) × StaleCandidate)

abbrev note_part : ℕ × ℕ → Option StaleCandidate × Pending → List ((ℕ × ℕ) × StaleCandidate) → Found
note_part l (c, ps) xs = (ps, place l c xs)

abbrev part_candidates : (Value → String) → ℕ → ℕ → List Value → Found → Found
part_candidates print i j [] found = found
part_candidates print i j (p ∷ parts) (ps, xs) =
    part_candidates print i (j + 1) parts (note_part (i, j) (on_part print ps p) xs)

abbrev reverse_onto : {A : Type 0} → List A → List A → List A
reverse_onto [] ys = ys
reverse_onto (x ∷ xs) ys = reverse_onto xs (x ∷ ys)

abbrev content_candidates : (Value → String) → ℕ → List Value → Found → Found
content_candidates print i [] found = found
content_candidates print i (c ∷ cs) found =
    content_candidates print (i + 1) cs (part_candidates print i 0 (elems_at "parts" c) found)

-- the loop that fills `locators` and `candidates`
unfoldable pub gemini_candidates : (Value → String) → List Value → List ((ℕ × ℕ) × StaleCandidate)
unfolding on_part elems_at
gemini_candidates print contents = reverse_onto (content_candidates print 0 contents ([], [])).1 []

module _ {W C D : Type 0} (ext : External W C D) where
  -- `insert("result", stub)` in a response that is a map, the stub itself for one that is a string
  unfoldable pub put_response : String → Edit (Run W C D)
  unfolding insert
  put_response stub r (str s) = (str stub, record r { changed = true })
  put_response stub r (obj fs) = (obj (insert "result" (str stub) fs), record r { changed = true })
  put_response stub r null = (null, r)
  put_response stub r (bool b) = (bool b, r)
  put_response stub r (num n) = (num n, r)
  put_response stub r (arr vs) = (arr vs, r)

  -- the response at a locator
  unfoldable pub put_gemini : ℕ × ℕ → String → Edit (Run W C D)
  unfolding at_field at_elem put_response
  put_gemini (i, j) stub = at_field "contents" (
      at_elem i (
        at_field "parts"
          (at_elem j (at_field "functionResponse" (at_field "response" (put_response stub))))))

  unfoldable pub collapse_stale_tool_results_gemini : Edit (Run W C D)
  unfolding gemini_candidates put_gemini collapse compute_stale_reasons elems_at
  collapse_stale_tool_results_gemini r root =
      let found = gemini_candidates ext.print (elems_at "contents" root) in
      collapse ext put_gemini found (compute_stale_reasons (map (λ x. x.1) found)) r root

  abbrev as_obj : Fields × Run W C D → Value × Run W C D
  as_obj (fs, r) = (obj fs, r)

  -- a response that is a string, or the string at its `result`
  unfoldable pub edit_response : ℕ → Edit (Run W C D)
  unfolding edit_text in_fields
  edit_response min_tokens r (str s) = edit_text ext min_tokens r (str s)
  edit_response min_tokens r (obj fs) = as_obj (in_fields "result" (edit_text ext min_tokens) r fs)
  edit_response min_tokens r null = (null, r)
  edit_response min_tokens r (bool b) = (bool b, r)
  edit_response min_tokens r (num n) = (num n, r)
  edit_response min_tokens r (arr vs) = (arr vs, r)

  -- a `functionResponse`, in the inner loop of `rewrite_gemini_with`
  unfoldable pub edit_function_response : ℕ → Edit (Run W C D)
  unfolding get edit_response at_field is_verbatim_tool
  edit_function_response min_tokens r fr =
      if is_verbatim_tool (name_of fr) none
      then (fr, count_exempt r)
      else at_field "response" (edit_response min_tokens) r fr

  -- the loop of `rewrite_gemini_with`
  unfoldable pub compress_gemini : ℕ → Edit (Run W C D)
  unfolding edit_function_response at_field each_elem
  compress_gemini min_tokens = at_field "contents" (
      each_elem (
        at_field "parts"
          (each_elem (at_field "functionResponse" (edit_function_response min_tokens)))))

  -- `rewrite_gemini_with` between the parser and the printer
  unfoldable pub rewrite_gemini : Bool → ℕ → Edit (Run W C D)
  unfolding two_passes collapse_stale_tool_results_gemini compress_gemini
  rewrite_gemini traced min_tokens =
      two_passes ext traced collapse_stale_tool_results_gemini (λ _. compress_gemini min_tokens)
