-- ===== src/Compress/Rewrite/Anthropic.antt =====
-- src/compress.rs (`collapse_stale_tool_results_anthropic`, `exempt_tool_use_ids_anthropic`,
-- `rewrite_anthropic_with`): the rewrite of a Messages body.
pub mod Frame
pub mod Kept
pub mod Whole
use mur_model_gateway.Common.{
  ℕ, zero, suc, ◌+◌, Bool, true, false, List, [], ◌∷◌, ◌++◌, map, Option, none, some, String,
  if◌then◌else◌, ◌>>=◌, get_or,
}
use mur_model_gateway.Common.Text.{str_eq, is_empty}
use mur_model_gateway.Json.{Value, get, as_str, as_array}
use mur_model_gateway.Compress.{
  has_retrieve_marker, is_read_tool, file_path_of, view_key, is_verbatim_tool,
}
use mur_model_gateway.Compress.Edits.{Edit, each_elem, at_field, at_elem}
use mur_model_gateway.Compress.Engine.{
  External, Run, stale_stub, extract_tool_result_text, note_composition,
}
use mur_model_gateway.Compress.Stale.{StaleCandidate, compute_stale_reasons}
use mur_model_gateway.Compress.Rewrite.Blocks.{
  ToolMeta, meta_of, candidate, is_in, has_text, contains_id, count_exempt, put_stub, edit_payload,
  collapse, two_passes, elems_at, name_of, note_call, place, add_id,
}

-- what a `tool_use` block with an id says of its call
abbrev tool_use : (Value → String) → Value → Option (String × ToolMeta)
tool_use print block =
    if has_text "type" "tool_use" block
    then (get block "id" >>= as_str) >>= (λ id.
        let name = name_of block in
        let input = get block "input" in
        some
          (id, record { name = name; path = file_path_of input; view = view_key print name input }))
    else none

abbrev note_blocks :
    (Value → String) → List Value → List (String × ToolMeta) → List (String × ToolMeta)
note_blocks print [] m = m
note_blocks print (b ∷ bs) m = note_blocks print bs (note_call (tool_use print b) m)

-- the loop that fills `tool_meta`
unfoldable pub anthropic_calls :
    (Value → String) → List Value → List (String × ToolMeta) → List (String × ToolMeta)
unfolding get has_text file_path_of view_key elems_at
anthropic_calls print [] m = m
anthropic_calls print (msg ∷ msgs) m =
    anthropic_calls print msgs
      (if has_text "role" "assistant" msg then note_blocks print (elems_at "content" msg) m else m)

abbrev pub block_candidate : List (String × ToolMeta) → Value → Option StaleCandidate
block_candidate m block =
    if has_text "type" "tool_result" block
    then (get block "tool_use_id" >>= as_str) >>= (λ id. meta_of id m >>= (λ t.
        get block "content" >>= (λ inner. extract_tool_result_text inner >>= candidate t)))
    else none

abbrev pub block_candidates :
    List (String × ToolMeta) → ℕ → ℕ → List Value → List ((ℕ × ℕ) × StaleCandidate)
block_candidates m i j [] = []
block_candidates m i j (b ∷ bs) =
    place (i, j) (block_candidate m b) (block_candidates m i (j + 1) bs)

-- the loop that fills `locators` and `candidates`
unfoldable pub anthropic_candidates :
    List (String × ToolMeta) → ℕ → List Value → List ((ℕ × ℕ) × StaleCandidate)
unfolding get has_text meta_of extract_tool_result_text has_retrieve_marker is_read_tool elems_at
anthropic_candidates m i [] = []
anthropic_candidates m i (msg ∷ msgs) =
    block_candidates m i 0 (elems_at "content" msg) ++ anthropic_candidates m (i + 1) msgs

abbrev verbatim_id : Value → Option String
verbatim_id b =
    if has_text "type" "tool_use" b
    then if is_verbatim_tool (name_of b) (get b "input") then get b "id" >>= as_str else none
    else none

abbrev verbatim_ids : List Value → List String
verbatim_ids [] = []
verbatim_ids (b ∷ bs) = add_id (verbatim_id b) (verbatim_ids bs)

unfoldable pub exempt_tool_use_ids_anthropic : List Value → List String
unfolding get has_text is_verbatim_tool elems_at
exempt_tool_use_ids_anthropic [] = []
exempt_tool_use_ids_anthropic (m ∷ ms) =
    verbatim_ids (elems_at "content" m) ++ exempt_tool_use_ids_anthropic ms

module _ {W C D : Type 0} (ext : External W C D) where
  -- the payload of the block at a locator
  unfoldable pub put_anthropic : ℕ × ℕ → String → Edit (Run W C D)
  unfolding at_field at_elem
  put_anthropic (i, j) stub =
      at_field "messages"
        (at_elem i (at_field "content" (at_elem j (at_field "content" (put_stub stub)))))

  abbrev pub collapse_known : List (String × ToolMeta) → Edit (Run W C D)
  collapse_known [] r root = (root, r)
  collapse_known (m ∷ ms) r root =
      let found = anthropic_candidates (m ∷ ms) 0 (elems_at "messages" root) in
      collapse ext put_anthropic found (compute_stale_reasons (map (λ x. x.1) found)) r root

  unfoldable pub collapse_stale_tool_results_anthropic : Edit (Run W C D)
  unfolding anthropic_calls anthropic_candidates put_anthropic collapse compute_stale_reasons
      elems_at
  collapse_stale_tool_results_anthropic r root =
      collapse_known (anthropic_calls ext.print (elems_at "messages" root) []) r root

  -- one round of the inner loop of `rewrite_anthropic_with`
  unfoldable pub edit_block : ℕ → List String → Edit (Run W C D)
  unfolding get has_text edit_payload at_field contains_id
  edit_block min_tokens ids r block =
      if has_text "type" "tool_result" block
      then if is_in ids (get block "tool_use_id" >>= as_str)
        then (block, count_exempt r)
        else at_field "content" (edit_payload ext min_tokens) r block
      else (block, r)

  -- the loop of `rewrite_anthropic_with`
  unfoldable pub compress_anthropic : ℕ → List String → Edit (Run W C D)
  unfolding edit_block at_field each_elem
  compress_anthropic min_tokens ids =
      at_field "messages" (each_elem (at_field "content" (each_elem (edit_block min_tokens ids))))

  -- `rewrite_anthropic_with` between the parser and the printer; `traced` says whether the level of
  -- the log is at least `DEBUG`
  unfoldable pub rewrite_anthropic : Bool → ℕ → Edit (Run W C D)
  unfolding two_passes collapse_stale_tool_results_anthropic exempt_tool_use_ids_anthropic
      compress_anthropic elems_at
  rewrite_anthropic traced min_tokens =
      two_passes ext traced collapse_stale_tool_results_anthropic (λ collapsed.
        compress_anthropic min_tokens
          (exempt_tool_use_ids_anthropic (elems_at "messages" collapsed)))
