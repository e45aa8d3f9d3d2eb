-- ===== src/Compress/Rewrite/Anthropic/Kept.antt =====
-- What `rewrite_anthropic_with` of src/compress.rs leaves of a Messages body.
use mur_model_gateway.Common.{
  ◌≡◌, refl, ◌∙◌, ap, inl, inr, ℕ, false, List, String, if◌then◌else◌, Bool-cases, ◌>>=◌,
}
use mur_model_gateway.Common.Text.{str_eq}
use mur_model_gateway.Json.{Value, get, as_str}
use mur_model_gateway.Compress.Edits.{at_field, each_elem, over_field, over_elems}
use mur_model_gateway.Compress.Edits.Laws.{Agrees, at_field-Agrees, each_elem-Agrees}
use mur_model_gateway.Compress.Engine.{External, Run}
use mur_model_gateway.Compress.Rewrite.Blocks.{has_text, is_in, edit_payload}
use mur_model_gateway.Compress.Rewrite.Payload.{
  Anything, erase_payload, edit_payload-erase, has_text-at_field, get-at_field,
}
use mur_model_gateway.Compress.Rewrite.Anthropic.{edit_block, compress_anthropic}

-- A block without the texts that may be compressed: those of a tool result whose call is not in `ids`.
abbrev pub erase_block : List String → Value → Value
erase_block ids b =
    if has_text "type" "tool_result" b
    then if is_in ids (get b "tool_use_id" >>= as_str)
      then b
      else over_field "content" erase_payload b
    else b

-- A body without these texts.
abbrev pub erase_anthropic : List String → Value → Value
erase_anthropic ids =
    over_field "messages" (over_elems (over_field "content" (over_elems (erase_block ids))))

not_type : str_eq "content" "type" ≡ false
unfolding str_eq
not_type = refl

not_id : str_eq "content" "tool_use_id" ≡ false
unfolding str_eq
not_id = refl

module _ {W C D : Type 0} (ext : External W C D) (min_tokens : ℕ) (ids : List String) where
  edit_block-erase :
      Agrees Anything (erase_block ids) (erase_block ids) (edit_block ext min_tokens ids)
  unfolding edit_block
  edit_block-erase r b i = elim (Bool-cases (has_text "type" "tool_result" b)) [
    | inr e ↦ rw (e, e) (refl, i)
    | inl e ↦ elim (Bool-cases (is_in ids (get b "tool_use_id" >>= as_str))) [
      | inl d ↦ rw (e, d) (rw (e, d) refl, i)
      | inr d ↦
          let (p, q) =
            at_field-Agrees Anything erase_payload erase_payload (edit_payload ext min_tokens)
              (edit_payload-erase ext min_tokens) "content" r b i in
          let t =
            has_text-at_field "content" "type" "tool_result" (edit_payload ext min_tokens) r b
              not_type
            ∙ e in
          let u =
            ap (λ o. is_in ids (o >>= as_str))
              (get-at_field "content" "tool_use_id" (edit_payload ext min_tokens) r b not_id)
            ∙ d in
          rw (e, d) (rw (t, u) p, i)
    ]
  ]

  edit_message-erase :
      Agrees Anything
        (over_field "content" (over_elems (erase_block ids)))
        (over_field "content" (over_elems (erase_block ids)))
        (at_field "content" (each_elem (edit_block ext min_tokens ids)))
  edit_message-erase =
      at_field-Agrees Anything _ _ (each_elem (edit_block ext min_tokens ids))
        (each_elem-Agrees Anything _ _ (edit_block ext min_tokens ids) edit_block-erase) "content"

  -- The loop over the messages changes the texts of tool results only: the body without the texts of
  -- those results whose call is not in `ids` is as before. So are the results of the calls in `ids`,
  -- with their texts, and every member beside a text.
  pub compress_anthropic-erase :
      (r : Run W C D) (root : Value)
      → erase_anthropic ids (compress_anthropic ext min_tokens ids r root).0
        ≡ erase_anthropic ids root
  unfolding compress_anthropic
  compress_anthropic-erase r root =
      (at_field-Agrees Anything _ _
        (each_elem (at_field "content" (each_elem (edit_block ext min_tokens ids))))
        (each_elem-Agrees Anything _ _
          (at_field "content" (each_elem (edit_block ext min_tokens ids))) edit_message-erase)
        "messages" r root tt).0
