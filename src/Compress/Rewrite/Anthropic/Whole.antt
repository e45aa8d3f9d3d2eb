-- ===== src/Compress/Rewrite/Anthropic/Whole.antt =====
-- `rewrite_anthropic_with` of src/compress.rs changes nothing where it says so.
use mur_model_gateway.Common.{
  ◌≡◌, refl, inl, inr, ℕ, Bool, false, List, [], ◌∷◌, map, String, Bool-cases, ◌>>=◌,
}
use mur_model_gateway.Json.{Value, get, as_str}
use mur_model_gateway.Compress.Edits.Laws.{
  Flagged-leave, at_field-Flagged, at_elem-Flagged, each_elem-Flagged,
}
use mur_model_gateway.Compress.Engine.{External, Run}
use mur_model_gateway.Compress.Stale.{compute_stale_reasons}
use mur_model_gateway.Compress.Rewrite.Blocks.{
  ToolMeta, has_text, is_in, edit_payload, put_stub, elems_at,
}
use mur_model_gateway.Compress.Rewrite.Unchanged.{
  changed, IsFlagged, put_stub-IsFlagged, edit_payload-IsFlagged, collapse-IsFlagged,
  two_passes-unchanged,
}
use mur_model_gateway.Compress.Rewrite.Anthropic.{
  anthropic_calls, anthropic_candidates, exempt_tool_use_ids_anthropic, put_anthropic,
  collapse_known, collapse_stale_tool_results_anthropic, edit_block, compress_anthropic,
  rewrite_anthropic,
}

module _ {W C D : Type 0} (ext : External W C D) where
  put_anthropic-IsFlagged : (l : ℕ × ℕ) (s : String) → IsFlagged (put_anthropic ext l s)
  unfolding put_anthropic
  put_anthropic-IsFlagged (i, j) s =
      at_field-Flagged changed _
        (at_elem-Flagged changed _
          (at_field-Flagged changed _
            (at_elem-Flagged changed _
              (at_field-Flagged changed (put_stub s) (put_stub-IsFlagged s) "content") j)
            "content")
          i)
        "messages"

  collapse_known-IsFlagged : (ms : List (String × ToolMeta)) → IsFlagged (collapse_known ext ms)
  collapse_known-IsFlagged [] r v = Flagged-leave changed v r
  collapse_known-IsFlagged (m ∷ ms) r v =
      let found = anthropic_candidates (m ∷ ms) 0 (elems_at "messages" v) in
      collapse-IsFlagged ext (put_anthropic ext) put_anthropic-IsFlagged found
        (compute_stale_reasons (map (λ x. x.1) found)) r v

  edit_block-IsFlagged : (m : ℕ) (ids : List String) → IsFlagged (edit_block ext m ids)
  unfolding edit_block
  edit_block-IsFlagged m ids r b = elim (Bool-cases (has_text "type" "tool_result" b)) [
    | inr e ↦ rw (e) (Flagged-leave changed b r)
    | inl e ↦ elim (Bool-cases (is_in ids (get b "tool_use_id" >>= as_str))) [
      | inl d ↦ rw (e, d) (λ h. h, inl refl)
      | inr d ↦
          rw (e, d)
            (at_field-Flagged changed (edit_payload ext m) (edit_payload-IsFlagged ext m) "content"
              r b)
    ]
  ]

  compress_anthropic-IsFlagged :
      (m : ℕ) (ids : List String) → IsFlagged (compress_anthropic ext m ids)
  unfolding compress_anthropic
  compress_anthropic-IsFlagged m ids =
      at_field-Flagged changed _
        (each_elem-Flagged changed _ (
          at_field-Flagged changed _
            (each_elem-Flagged changed (edit_block ext m ids) (edit_block-IsFlagged m ids))
            "content"))
        "messages"

  -- A rewrite of a Messages body that does not report a change leaves the body as it is.
  pub rewrite_anthropic-unchanged :
      (traced : Bool) (m : ℕ) (r : Run W C D) (root : Value)
      → (rewrite_anthropic ext traced m r root).1.changed ≡ false
      → (rewrite_anthropic ext traced m r root).0 ≡ root
  unfolding rewrite_anthropic collapse_stale_tool_results_anthropic
  rewrite_anthropic-unchanged traced m =
      two_passes-unchanged ext traced (collapse_stale_tool_results_anthropic ext)
        (λ v. compress_anthropic ext m (exempt_tool_use_ids_anthropic (elems_at "messages" v)))
        (λ s v. collapse_known-IsFlagged (anthropic_calls ext.print (elems_at "messages" v) []) s v)
        (λ v.
          compress_anthropic-IsFlagged m (exempt_tool_use_ids_anthropic (elems_at "messages" v)))
