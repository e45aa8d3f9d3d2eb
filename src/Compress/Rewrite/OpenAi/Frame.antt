-- ===== src/Compress/Rewrite/OpenAi/Frame.antt =====
-- What `rewrite_openai_with` of src/compress.rs may change of a Chat Completions body.
use mur_model_gateway.Common.{
  ◌≡◌, refl, sym, ◌∙◌, inl, inr, ℕ, ◌+◌, Bool, true, false, List, [], ◌∷◌, map, String, Bool-cases,
  ◌>>=◌, some,
}
use mathlib.Core.Option.{none-ne-some}
use mur_model_gateway.Common.Text.{str_eq}
use mur_model_gateway.Json.{Value, get, as_str}
use mur_model_gateway.Compress.Edits.{over_field, over_elems}
use mur_model_gateway.Compress.Edits.Guarded.{
  Guarded, Shows, field_holds, elem_holds, at_field-Guarded, at_elem-Guarded, field_holds-Shows,
  elem_holds-Shows, Tells, Tells-head, Tells-tail, elems_at-Tells,
}
use mur_model_gateway.Compress.Edits.Laws.{Agrees, at_field-Agrees, each_elem-Agrees}
use mur_model_gateway.Compress.Engine.{External, Run}
use mur_model_gateway.Compress.Stale.{StaleCandidate, compute_stale_reasons}
use mur_model_gateway.Compress.Rewrite.Blocks.{ToolMeta, has_text, is_in, edit_payload, elems_at}
use mur_model_gateway.Compress.Rewrite.Payload.{Anything, two_passes-Agrees, has_text-at_field}
use mur_model_gateway.Compress.Rewrite.Located.{
  nothing, without_content, without_content-Shows, put_stub-Guarded, AllHold, AllHold-place,
  collapse-Guarded,
}
use mur_model_gateway.Compress.Rewrite.OpenAi.{
  openai_calls, openai_candidates, message_candidate, exempt_tool_call_ids_openai, put_openai,
  collapse_known, collapse_stale_tool_results_openai, edit_message, compress_openai, rewrite_openai,
}

abbrev is_result : Value → Bool
is_result = has_text "role" "tool"

-- A Chat Completions body without the contents of its tool results.
abbrev pub frame_openai : Value → Value
frame_openai = over_field "messages" (over_elems (without_content "role" "tool"))

-- The message at a locator is a tool result, where there is one.
abbrev message_is_result : ℕ → Value → Bool
message_is_result i = field_holds "messages" (elem_holds i is_result)

not_role : str_eq "content" "role" ≡ false
unfolding str_eq
not_role = refl

message_is_result-Shows : (i : ℕ) → Shows frame_openai (message_is_result i)
message_is_result-Shows i =
    field_holds-Shows _ _ (elem_holds-Shows _ _ (without_content-Shows "role" "tool" not_role) i)
      "messages"

message_candidate-is_result :
    (m : List (String × ToolMeta)) (b : Value) (c : StaleCandidate)
    → message_candidate m b ≡ some c
    → is_result b ≡ true
message_candidate-is_result m b c h = elim (Bool-cases (is_result b)) [
  | inl e ↦ e
  | inr e ↦ absurd (none-ne-some _ (rw (e) at h))
]

module _ (m : List (String × ToolMeta)) (root : Value) where
  openai_candidates-hold :
      (i : ℕ) (msgs : List Value)
      → Tells msgs i (λ n c. field_holds "messages" (elem_holds n c) root)
      → AllHold message_is_result (openai_candidates m i msgs) root
  unfolding openai_candidates
  openai_candidates-hold i [] h = tt
  openai_candidates-hold i (msg ∷ msgs) h =
      AllHold-place message_is_result i (message_candidate m msg) (openai_candidates m (i + 1) msgs)
        root
        (λ c e. sym (Tells-head msg msgs i _ is_result h) ∙ message_candidate-is_result m msg c e)
        (openai_candidates-hold (i + 1) msgs (Tells-tail msg msgs i _ h))

module _ {W C D : Type 0} (ext : External W C D) where
  put_openai-Guarded :
      (i : ℕ) (stub : String) → Guarded frame_openai (message_is_result i) (put_openai ext i stub)
  unfolding put_openai
  put_openai-Guarded i stub =
      at_field-Guarded _ _ _
        (at_elem-Guarded _ _ _ (put_stub-Guarded "role" "tool" not_role stub) i) "messages"

  collapse_known-frame :
      (ms : List (String × ToolMeta))
      → Agrees Anything frame_openai frame_openai (collapse_known ext ms)
  collapse_known-frame [] r v i = (refl, i)
  collapse_known-frame (m ∷ ms) r v i =
      let found = openai_candidates (m ∷ ms) 0 (elems_at "messages" v) in
      (
        collapse-Guarded ext frame_openai message_is_result (put_openai ext) message_is_result-Shows
            put_openai-Guarded found (compute_stale_reasons (map (λ x. x.1) found)) r v
            (openai_candidates-hold (m ∷ ms) v 0 (elems_at "messages" v)
              (elems_at-Tells "messages" v)),
        i,
      )

  edit_message-frame :
      (m : ℕ) (ids : List String)
      → Agrees Anything
          (without_content "role" "tool")
          (without_content "role" "tool")
          (edit_message ext m ids)
  unfolding edit_message
  edit_message-frame m ids r b i = elim (Bool-cases (has_text "role" "tool" b)) [
    | inr e ↦ rw (e, e) (refl, i)
    | inl e ↦ elim (Bool-cases (is_in ids (get b "tool_call_id" >>= as_str))) [
      | inl d ↦ rw (e, d) (rw (e) refl, i)
      | inr d ↦
          let f = edit_payload ext m in
          let (p, q) =
            at_field-Agrees Anything nothing nothing f (λ s v i. (refl, i)) "content" r b i in
          let still = has_text-at_field "content" "role" "tool" f r b not_role ∙ e in
          rw (e, d) (rw (still) p, i)
    ]
  ]

  compress_openai-frame :
      (m : ℕ) (ids : List String)
      → Agrees Anything frame_openai frame_openai (compress_openai ext m ids)
  unfolding compress_openai
  compress_openai-frame m ids =
      at_field-Agrees Anything _ _ _
        (each_elem-Agrees Anything _ _ (edit_message ext m ids) (edit_message-frame m ids))
        "messages"

  -- The rewrite of a Chat Completions body changes the contents of its tool results only.
  pub rewrite_openai-frame :
      (traced : Bool) (m : ℕ) (r : Run W C D) (root : Value)
      → frame_openai (rewrite_openai ext traced m r root).0 ≡ frame_openai root
  unfolding rewrite_openai collapse_stale_tool_results_openai
  rewrite_openai-frame traced m r root =
      two_passes-Agrees ext frame_openai traced (collapse_stale_tool_results_openai ext)
        (λ v. compress_openai ext m (exempt_tool_call_ids_openai ext.parse (elems_at "messages" v)))
        (λ s v.
          collapse_known-frame (openai_calls ext.print ext.parse (elems_at "messages" v) []) s v)
        (λ v.
          compress_openai-frame m (exempt_tool_call_ids_openai ext.parse (elems_at "messages" v)))
        r root
