-- ===== src/Compress/Rewrite/Anthropic/Frame.antt =====
-- What `rewrite_anthropic_with` of src/compress.rs may change of a Messages body.
use mur_model_gateway.Common.{
  ◌≡◌, refl, sym, ◌∙◌, inl, inr, ℕ, ◌+◌, Bool, true, false, List, [], ◌∷◌, map, String, Bool-cases,
  ◌>>=◌, some,
}
use mathlib.Core.Option.{none-ne-some}
use mur_model_gateway.Common.Text.{str_eq}
use mur_model_gateway.Json.{Value, get, as_str}
use mur_model_gateway.Compress.Edits.{over_field, over_elems}
use mur_model_gateway.Compress.Edits.Guarded.{
  Guarded, Shows, field_holds, elem_holds, at_field-Guarded, at_elem-Guarded, field_holds-Shows,
  elem_holds-Shows, Tells, Tells-head, Tells-tail, elems_at-Tells,
}
use mur_model_gateway.Compress.Edits.Laws.{Agrees, at_field-Agrees, each_elem-Agrees}
use mur_model_gateway.Compress.Engine.{External, Run}
use mur_model_gateway.Compress.Stale.{StaleCandidate, compute_stale_reasons}
use mur_model_gateway.Compress.Rewrite.Blocks.{ToolMeta, has_text, is_in, edit_payload, elems_at}
use mur_model_gateway.Compress.Rewrite.Payload.{Anything, two_passes-Agrees, has_text-at_field}
use mur_model_gateway.Compress.Rewrite.Located.{
  nothing, without_content, without_content-Shows, put_stub-Guarded, AllHold, AllHold-append,
  AllHold-place, collapse-Guarded,
}
use mur_model_gateway.Compress.Rewrite.Anthropic.{
  anthropic_calls, anthropic_candidates, block_candidate, block_candidates,
  exempt_tool_use_ids_anthropic, put_anthropic, collapse_known,
  collapse_stale_tool_results_anthropic, edit_block, compress_anthropic, rewrite_anthropic,
}

abbrev is_result : Value → Bool
is_result = has_text "type" "tool_result"

-- A Messages body without the contents of its tool results.
abbrev pub frame_anthropic : Value → Value
frame_anthropic =
    over_field "messages"
      (over_elems (over_field "content" (over_elems (without_content "type" "tool_result"))))

-- The block at a locator is a tool result, where there is one.
abbrev block_is_result : ℕ × ℕ → Value → Bool
block_is_result l =
    field_holds "messages" (elem_holds l.0 (field_holds "content" (elem_holds l.1 is_result)))

not_type : str_eq "content" "type" ≡ false
unfolding str_eq
not_type = refl

block_is_result-Shows : (l : ℕ × ℕ) → Shows frame_anthropic (block_is_result l)
block_is_result-Shows l =
    field_holds-Shows _ _
      (elem_holds-Shows _ _
        (field_holds-Shows _ _
          (elem_holds-Shows _ _ (without_content-Shows "type" "tool_result" not_type) l.1)
          "content")
        l.0)
      "messages"

block_candidate-is_result :
    (m : List (String × ToolMeta)) (b : Value) (c : StaleCandidate)
    → block_candidate m b ≡ some c
    → is_result b ≡ true
block_candidate-is_result m b c h = elim (Bool-cases (is_result b)) [
  | inl e ↦ e
  | inr e ↦ absurd (none-ne-some _ (rw (e) at h))
]

module _ (m : List (String × ToolMeta)) (root : Value) where
  -- The locators of one message, from the place of its next block on.
  block_candidates-hold :
      (i j : ℕ) (bs : List Value)
      → Tells bs j (λ n c.
        field_holds "messages" (elem_holds i (field_holds "content" (elem_holds n c))) root)
      → AllHold block_is_result (block_candidates m i j bs) root
  block_candidates-hold i j [] h = tt
  block_candidates-hold i j (b ∷ bs) h =
      AllHold-place block_is_result (i, j) (block_candidate m b) (block_candidates m i (j + 1) bs)
        root (λ c e. sym (Tells-head b bs j _ is_result h) ∙ block_candidate-is_result m b c e)
        (block_candidates-hold i (j + 1) bs (Tells-tail b bs j _ h))

  anthropic_candidates-hold :
      (i : ℕ) (msgs : List Value)
      → Tells msgs i (λ n c. field_holds "messages" (elem_holds n c) root)
      → AllHold block_is_result (anthropic_candidates m i msgs) root
  unfolding anthropic_candidates
  anthropic_candidates-hold i [] h = tt
  anthropic_candidates-hold i (msg ∷ msgs) h =
      AllHold-append block_is_result (block_candidates m i 0 (elems_at "content" msg))
        (anthropic_candidates m (i + 1) msgs) root
        (block_candidates-hold i 0 (elems_at "content" msg) (λ n k c e.
          elems_at-Tells "content" msg n k c e
          ∙ Tells-head msg msgs i _ (field_holds "content" (elem_holds k c)) h))
        (anthropic_candidates-hold (i + 1) msgs (Tells-tail msg msgs i _ h))

module _ {W C D : Type 0} (ext : External W C D) where
  put_anthropic-Guarded :
      (l : ℕ × ℕ) (stub : String)
      → Guarded frame_anthropic (block_is_result l) (put_anthropic ext l stub)
  unfolding put_anthropic
  put_anthropic-Guarded (i, j) stub =
      at_field-Guarded _ _ _
        (at_elem-Guarded _ _ _
          (at_field-Guarded _ _ _
            (at_elem-Guarded _ _ _ (put_stub-Guarded "type" "tool_result" not_type stub) j)
            "content")
          i)
        "messages"

  collapse_known-frame :
      (ms : List (String × ToolMeta))
      → Agrees Anything frame_anthropic frame_anthropic (collapse_known ext ms)
  collapse_known-frame [] r v i = (refl, i)
  collapse_known-frame (m ∷ ms) r v i =
      let found = anthropic_candidates (m ∷ ms) 0 (elems_at "messages" v) in
      (
        collapse-Guarded ext frame_anthropic block_is_result (put_anthropic ext)
            block_is_result-Shows put_anthropic-Guarded found
            (compute_stale_reasons (map (λ x. x.1) found)) r v
            (anthropic_candidates-hold (m ∷ ms) v 0 (elems_at "messages" v)
              (elems_at-Tells "messages" v)),
        i,
      )

  edit_block-frame :
      (m : ℕ) (ids : List String)
      → Agrees Anything
          (without_content "type" "tool_result")
          (without_content "type" "tool_result")
          (edit_block ext m ids)
  unfolding edit_block
  edit_block-frame m ids r b i = elim (Bool-cases (has_text "type" "tool_result" b)) [
    | inr e ↦ rw (e, e) (refl, i)
    | inl e ↦ elim (Bool-cases (is_in ids (get b "tool_use_id" >>= as_str))) [
      | inl d ↦ rw (e, d) (rw (e) refl, i)
      | inr d ↦
          let f = edit_payload ext m in
          let (p, q) =
            at_field-Agrees Anything nothing nothing f (λ s v i. (refl, i)) "content" r b i in
          let still = has_text-at_field "content" "type" "tool_result" f r b not_type ∙ e in
          rw (e, d) (rw (still) p, i)
    ]
  ]

  compress_anthropic-frame :
      (m : ℕ) (ids : List String)
      → Agrees Anything frame_anthropic frame_anthropic (compress_anthropic ext m ids)
  unfolding compress_anthropic
  compress_anthropic-frame m ids =
      at_field-Agrees Anything _ _ _
        (each_elem-Agrees Anything _ _ _ (
          at_field-Agrees Anything _ _ _
            (each_elem-Agrees Anything _ _ (edit_block ext m ids) (edit_block-frame m ids))
            "content"))
        "messages"

  -- The rewrite of a Messages body changes the contents of the tool results of its messages only.
  pub rewrite_anthropic-frame :
      (traced : Bool) (m : ℕ) (r : Run W C D) (root : Value)
      → frame_anthropic (rewrite_anthropic ext traced m r root).0 ≡ frame_anthropic root
  unfolding rewrite_anthropic collapse_stale_tool_results_anthropic
  rewrite_anthropic-frame traced m r root =
      two_passes-Agrees ext frame_anthropic traced (collapse_stale_tool_results_anthropic ext)
        (λ v. compress_anthropic ext m (exempt_tool_use_ids_anthropic (elems_at "messages" v)))
        (λ s v. collapse_known-frame (anthropic_calls ext.print (elems_at "messages" v) []) s v)
        (λ v. compress_anthropic-frame m (exempt_tool_use_ids_anthropic (elems_at "messages" v))) r
        root
