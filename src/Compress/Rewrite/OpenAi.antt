-- ===== src/Compress/Rewrite/OpenAi.antt =====
-- src/compress.rs (`collapse_stale_tool_results_openai`, `exempt_tool_call_ids_openai`,
-- `rewrite_openai_with`): the rewrite of a Chat Completions body.
pub mod Frame
pub mod Whole
use mur_model_gateway.Common.{
  ℕ, zero, suc, ◌+◌, Bool, true, false, List, [], ◌∷◌, ◌++◌, map, Option, none, some, String,
  if◌then◌else◌, ◌>>=◌, get_or,
}
use mur_model_gateway.Json.{Value, get, as_str}
use mur_model_gateway.Compress.{file_path_of, view_key, is_verbatim_tool}
use mur_model_gateway.Compress.Edits.{Edit, each_elem, at_field, at_elem}
use mur_model_gateway.Compress.Engine.{External, Run, extract_tool_result_text}
use mur_model_gateway.Compress.Stale.{StaleCandidate, compute_stale_reasons}
use mur_model_gateway.Compress.Rewrite.Blocks.{
  ToolMeta, meta_of, candidate, is_in, has_text, contains_id, count_exempt, put_stub, edit_payload,
  collapse, two_passes, elems_at, name_of, note_call, place, add_id,
}

-- the arguments of a function, a JSON text inside the JSON body
abbrev arguments_of : (String → Option Value) → Value → Option Value
arguments_of parse func = (get func "arguments" >>= as_str) >>= parse

-- what a member of `tool_calls` with an id and a function says of its call
abbrev called : (Value → String) → (String → Option Value) → Value → Option (String × ToolMeta)
called print parse call = (get call "id" >>= as_str) >>= (λ id. get call "function" >>= (λ func.
    let name = name_of func in
    let args = arguments_of parse func in
    some (id, record { name = name; path = file_path_of args; view = view_key print name args })))

abbrev note_tool_calls :
    (Value → String)
    → (String → Option Value)
    → List Value
    → List (String × ToolMeta)
    → List (String × ToolMeta)
note_tool_calls print parse [] m = m
note_tool_calls print parse (c ∷ cs) m =
    note_tool_calls print parse cs (note_call (called print parse c) m)

-- the loop that fills `tool_meta`
unfoldable pub openai_calls :
    (Value → String)
    → (String → Option Value)
    → List Value
    → List (String × ToolMeta)
    → List (String × ToolMeta)
unfolding get file_path_of view_key elems_at
openai_calls print parse [] m = m
openai_calls print parse (msg ∷ msgs) m =
    openai_calls print parse msgs (note_tool_calls print parse (elems_at "tool_calls" msg) m)

abbrev pub message_candidate : List (String × ToolMeta) → Value → Option StaleCandidate
message_candidate m msg =
    if has_text "role" "tool" msg
    then (get msg "tool_call_id" >>= as_str) >>= (λ id. meta_of id m >>= (λ t.
        get msg "content" >>= (λ content. extract_tool_result_text content >>= candidate t)))
    else none

-- the loop that fills `locators` and `candidates`
unfoldable pub openai_candidates :
    List (String × ToolMeta) → ℕ → List Value → List (ℕ × StaleCandidate)
unfolding get has_text meta_of extract_tool_result_text
openai_candidates m i [] = []
openai_candidates m i (msg ∷ msgs) =
    place i (message_candidate m msg) (openai_candidates m (i + 1) msgs)

abbrev is_verbatim_call : (String → Option Value) → Option Value → Bool
is_verbatim_call parse none = false
is_verbatim_call parse (some func) = is_verbatim_tool (name_of func) (arguments_of parse func)

abbrev verbatim_call_id : (String → Option Value) → Value → Option String
verbatim_call_id parse call =
    if is_verbatim_call parse (get call "function") then get call "id" >>= as_str else none

abbrev verbatim_call_ids : (String → Option Value) → List Value → List String
verbatim_call_ids parse [] = []
verbatim_call_ids parse (c ∷ cs) = add_id (verbatim_call_id parse c) (verbatim_call_ids parse cs)

unfoldable pub exempt_tool_call_ids_openai : (String → Option Value) → List Value → List String
unfolding get is_verbatim_tool elems_at
exempt_tool_call_ids_openai parse [] = []
exempt_tool_call_ids_openai parse (m ∷ ms) =
    verbatim_call_ids parse (elems_at "tool_calls" m) ++ exempt_tool_call_ids_openai parse ms

module _ {W C D : Type 0} (ext : External W C D) where
  -- the payload of the message at a locator
  unfoldable pub put_openai : ℕ → String → Edit (Run W C D)
  unfolding at_field at_elem
  put_openai i stub = at_field "messages" (at_elem i (at_field "content" (put_stub stub)))

  abbrev pub collapse_known : List (String × ToolMeta) → Edit (Run W C D)
  collapse_known [] r root = (root, r)
  collapse_known (m ∷ ms) r root =
      let found = openai_candidates (m ∷ ms) 0 (elems_at "messages" root) in
      collapse ext put_openai found (compute_stale_reasons (map (λ x. x.1) found)) r root

  unfoldable pub collapse_stale_tool_results_openai : Edit (Run W C D)
  unfolding openai_calls openai_candidates put_openai collapse compute_stale_reasons elems_at
  collapse_stale_tool_results_openai r root =
      collapse_known (openai_calls ext.print ext.parse (elems_at "messages" root) []) r root

  -- one round of the loop of `rewrite_openai_with`
  unfoldable pub edit_message : ℕ → List String → Edit (Run W C D)
  unfolding get has_text edit_payload at_field contains_id
  edit_message min_tokens ids r msg =
      if has_text "role" "tool" msg
      then if is_in ids (get msg "tool_call_id" >>= as_str)
        then (msg, count_exempt r)
        else at_field "content" (edit_payload ext min_tokens) r msg
      else (msg, r)

  -- the loop of `rewrite_openai_with`
  unfoldable pub compress_openai : ℕ → List String → Edit (Run W C D)
  unfolding edit_message at_field each_elem
  compress_openai min_tokens ids = at_field "messages" (each_elem (edit_message min_tokens ids))

  -- `rewrite_openai_with` between the parser and the printer
  unfoldable pub rewrite_openai : Bool → ℕ → Edit (Run W C D)
  unfolding two_passes collapse_stale_tool_results_openai exempt_tool_call_ids_openai
      compress_openai elems_at
  rewrite_openai traced min_tokens =
      two_passes ext traced collapse_stale_tool_results_openai (λ collapsed.
        compress_openai min_tokens
          (exempt_tool_call_ids_openai ext.parse (elems_at "messages" collapsed)))
