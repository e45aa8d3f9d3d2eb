-- ===== src/Compress/Rewrite/OpenAi/Whole.antt =====
-- What `rewrite_openai_with` of src/compress.rs may change, and that it changes nothing where it says
-- so.
use mur_model_gateway.Common.{
  ◌≡◌, refl, inl, inr, ℕ, Bool, false, List, [], ◌∷◌, map, String, if◌then◌else◌, Bool-cases, ◌>>=◌,
  ap, ◌∙◌,
}
use mur_model_gateway.Common.Text.{str_eq}
use mur_model_gateway.Json.{Value, get, as_str}
use mur_model_gateway.Compress.Edits.{each_elem, over_field, over_elems}
use mur_model_gateway.Compress.Edits.Laws.{
  Agrees, at_field-Agrees, each_elem-Agrees, Flagged-leave, at_field-Flagged, at_elem-Flagged,
  each_elem-Flagged,
}
use mur_model_gateway.Compress.Engine.{External, Run}
use mur_model_gateway.Compress.Stale.{compute_stale_reasons}
use mur_model_gateway.Compress.Rewrite.Blocks.{
  ToolMeta, has_text, is_in, edit_payload, put_stub, elems_at,
}
use mur_model_gateway.Compress.Rewrite.Payload.{
  Anything, erase_payload, edit_payload-erase, has_text-at_field, get-at_field,
}
use mur_model_gateway.Compress.Rewrite.Unchanged.{
  changed, IsFlagged, put_stub-IsFlagged, edit_payload-IsFlagged, collapse-IsFlagged,
  two_passes-unchanged,
}
use mur_model_gateway.Compress.Rewrite.OpenAi.{
  openai_calls, openai_candidates, exempt_tool_call_ids_openai, put_openai, collapse_known,
  collapse_stale_tool_results_openai, edit_message, compress_openai, rewrite_openai,
}

-- A message without the texts that may be compressed: those of a tool result whose call is not in
-- `ids`.
abbrev pub erase_message : List String → Value → Value
erase_message ids m =
    if has_text "role" "tool" m
    then if is_in ids (get m "tool_call_id" >>= as_str)
      then m
      else over_field "content" erase_payload m
    else m

abbrev pub erase_openai : List String → Value → Value
erase_openai ids = over_field "messages" (over_elems (erase_message ids))

not_role : str_eq "content" "role" ≡ false
unfolding str_eq
not_role = refl

not_id : str_eq "content" "tool_call_id" ≡ false
unfolding str_eq
not_id = refl

module _ {W C D : Type 0} (ext : External W C D) where
  edit_message-erase :
      (m : ℕ) (ids : List String)
      → Agrees Anything (erase_message ids) (erase_message ids) (edit_message ext m ids)
  unfolding edit_message
  edit_message-erase m ids r b i = elim (Bool-cases (has_text "role" "tool" b)) [
    | inr e ↦ rw (e, e) (refl, i)
    | inl e ↦ elim (Bool-cases (is_in ids (get b "tool_call_id" >>= as_str))) [
      | inl d ↦ rw (e, d) (rw (e, d) refl, i)
      | inr d ↦
          let f = edit_payload ext m in
          let (p, q) =
            at_field-Agrees Anything erase_payload erase_payload f (edit_payload-erase ext m)
              "content" r b i in
          let t = has_text-at_field "content" "role" "tool" f r b not_role ∙ e in
          let u =
            ap (λ o. is_in ids (o >>= as_str)) (get-at_field "content" "tool_call_id" f r b not_id)
            ∙ d in
          rw (e, d) (rw (t, u) p, i)
    ]
  ]

  -- The loop over the messages changes the texts of tool results only: the body without the texts of
  -- those results whose call is not in `ids` is as before. So are the results of the calls in `ids`,
  -- with their texts, and every member beside a text.
  pub compress_openai-erase :
      (m : ℕ) (ids : List String) (r : Run W C D) (root : Value)
      → erase_openai ids (compress_openai ext m ids r root).0 ≡ erase_openai ids root
  unfolding compress_openai
  compress_openai-erase m ids r root =
      (at_field-Agrees Anything _ _ (each_elem (edit_message ext m ids))
        (each_elem-Agrees Anything _ _ (edit_message ext m ids) (edit_message-erase m ids))
        "messages" r root tt).0

  put_openai-IsFlagged : (l : ℕ) (s : String) → IsFlagged (put_openai ext l s)
  unfolding put_openai
  put_openai-IsFlagged i s =
      at_field-Flagged changed _
        (at_elem-Flagged changed _
          (at_field-Flagged changed (put_stub s) (put_stub-IsFlagged s) "content") i)
        "messages"

  collapse_known-IsFlagged : (ms : List (String × ToolMeta)) → IsFlagged (collapse_known ext ms)
  collapse_known-IsFlagged [] r v = Flagged-leave changed v r
  collapse_known-IsFlagged (m ∷ ms) r v =
      let found = openai_candidates (m ∷ ms) 0 (elems_at "messages" v) in
      collapse-IsFlagged ext (put_openai ext) put_openai-IsFlagged found
        (compute_stale_reasons (map (λ x. x.1) found)) r v

  edit_message-IsFlagged : (m : ℕ) (ids : List String) → IsFlagged (edit_message ext m ids)
  unfolding edit_message
  edit_message-IsFlagged m ids r b = elim (Bool-cases (has_text "role" "tool" b)) [
    | inr e ↦ rw (e) (Flagged-leave changed b r)
    | inl e ↦ elim (Bool-cases (is_in ids (get b "tool_call_id" >>= as_str))) [
      | inl d ↦ rw (e, d) (λ h. h, inl refl)
      | inr d ↦
          rw (e, d)
            (at_field-Flagged changed (edit_payload ext m) (edit_payload-IsFlagged ext m) "content"
              r b)
    ]
  ]

  compress_openai-IsFlagged : (m : ℕ) (ids : List String) → IsFlagged (compress_openai ext m ids)
  unfolding compress_openai
  compress_openai-IsFlagged m ids =
      at_field-Flagged changed _
        (each_elem-Flagged changed (edit_message ext m ids) (edit_message-IsFlagged m ids))
        "messages"

  -- A rewrite of a Chat Completions body that does not report a change leaves the body as it is.
  pub rewrite_openai-unchanged :
      (traced : Bool) (m : ℕ) (r : Run W C D) (root : Value)
      → (rewrite_openai ext traced m r root).1.changed ≡ false
      → (rewrite_openai ext traced m r root).0 ≡ root
  unfolding rewrite_openai collapse_stale_tool_results_openai
  rewrite_openai-unchanged traced m =
      two_passes-unchanged ext traced (collapse_stale_tool_results_openai ext)
        (λ v. compress_openai ext m (exempt_tool_call_ids_openai ext.parse (elems_at "messages" v)))
        (λ s v.
          collapse_known-IsFlagged (openai_calls ext.print ext.parse (elems_at "messages" v) []) s
            v)
        (λ v.
          compress_openai-IsFlagged m
            (exempt_tool_call_ids_openai ext.parse (elems_at "messages" v)))
