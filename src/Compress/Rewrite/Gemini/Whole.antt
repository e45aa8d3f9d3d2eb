-- ===== src/Compress/Rewrite/Gemini/Whole.antt =====
-- What `rewrite_gemini_with` of src/compress.rs may change, and that it changes nothing where it says
-- so.
use mur_model_gateway.Common.{◌≡◌, refl, inl, inr, ℕ, Bool, false, map, String, Bool-cases, none}
use mur_model_gateway.Json.{Value, null, bool, num, str, arr, obj}
use mur_model_gateway.Compress.{is_verbatim_tool}
use mur_model_gateway.Compress.Edits.{in_fields, over_field, over_elems}
use mur_model_gateway.Compress.Edits.Laws.{
  Agrees, at_field-Agrees, at_elem-Agrees, each_elem-Agrees, Flagged-leave, Flagged-inside,
  in_fields-Flagged, at_field-Flagged, at_elem-Flagged, each_elem-Flagged,
}
use mur_model_gateway.Compress.Engine.{External, Run}
use mur_model_gateway.Compress.Stale.{compute_stale_reasons}
use mur_model_gateway.Compress.Rewrite.Blocks.{edit_text, elems_at, name_of}
use mur_model_gateway.Compress.Rewrite.Payload.{Anything, collapse-Agrees, two_passes-Agrees}
use mur_model_gateway.Compress.Rewrite.Unchanged.{
  changed, IsFlagged, edit_text-IsFlagged, collapse-IsFlagged, two_passes-unchanged,
}
use mur_model_gateway.Compress.Rewrite.Gemini.{
  gemini_candidates, put_response, put_gemini, collapse_stale_tool_results_gemini, edit_response,
  edit_function_response, compress_gemini, rewrite_gemini,
}

abbrev nothing : Value → Value
nothing v = null

abbrev frame_parts : Value → Value
frame_parts = over_elems (over_field "functionResponse" (over_field "response" nothing))

-- A Gemini body without the responses in its parts.
abbrev pub frame_gemini : Value → Value
frame_gemini = over_field "contents" (over_elems (over_field "parts" frame_parts))

module _ {W C D : Type 0} (ext : External W C D) where
  put_gemini-frame :
      (l : ℕ × ℕ) (stub : String)
      → Agrees Anything frame_gemini frame_gemini (put_gemini ext l stub)
  unfolding put_gemini
  put_gemini-frame (i, j) stub =
      let response =
        at_field-Agrees Anything nothing nothing (put_response ext stub) (λ s v i. (refl, i))
          "response" in
      let part =
        at_elem-Agrees Anything _ _ (at_field-Agrees Anything _ _ _ response "functionResponse")
          j in
      at_field-Agrees Anything _ _ _
        (at_elem-Agrees Anything _ _ (at_field-Agrees Anything _ _ _ part "parts") i) "contents"

  collapse-frame :
      Agrees Anything frame_gemini frame_gemini (collapse_stale_tool_results_gemini ext)
  unfolding collapse_stale_tool_results_gemini
  collapse-frame r v i =
      let found = gemini_candidates ext.print (elems_at "contents" v) in
      collapse-Agrees ext frame_gemini (put_gemini ext) put_gemini-frame found
        (compute_stale_reasons (map (λ x. x.1) found)) r v i

  edit_function_response-frame :
      (m : ℕ)
      → Agrees Anything
          (over_field "response" nothing)
          (over_field "response" nothing)
          (edit_function_response ext m)
  unfolding edit_function_response
  edit_function_response-frame m r b i = elim (Bool-cases (is_verbatim_tool (name_of b) none)) [
    | inl e ↦ rw (e) (refl, i)
    | inr e ↦ rw (e) (
        at_field-Agrees Anything nothing nothing (edit_response ext m) (λ s v i. (refl, i))
          "response" r b i)
  ]

  compress_gemini-frame :
      (m : ℕ) → Agrees Anything frame_gemini frame_gemini (compress_gemini ext m)
  unfolding compress_gemini
  compress_gemini-frame m =
      let part =
        at_field-Agrees Anything _ _ (edit_function_response ext m) (edit_function_response-frame m)
          "functionResponse" in
      let parts = at_field-Agrees Anything _ _ _ (each_elem-Agrees Anything _ _ _ part) "parts" in
      at_field-Agrees Anything _ _ _ (each_elem-Agrees Anything _ _ _ parts) "contents"

  -- The rewrite of a Gemini body changes the responses in its parts only.
  pub rewrite_gemini-frame :
      (traced : Bool) (m : ℕ) (r : Run W C D) (root : Value)
      → frame_gemini (rewrite_gemini ext traced m r root).0 ≡ frame_gemini root
  unfolding rewrite_gemini
  rewrite_gemini-frame traced m r root =
      two_passes-Agrees ext frame_gemini traced (collapse_stale_tool_results_gemini ext)
        (λ v. compress_gemini ext m) collapse-frame (λ v. compress_gemini-frame m) r root

  put_response-IsFlagged : (s : String) → IsFlagged (put_response ext s)
  unfolding put_response
  put_response-IsFlagged s r (str t) = (λ h. refl, inr refl)
  put_response-IsFlagged s r (obj fs) = (λ h. refl, inr refl)
  put_response-IsFlagged s r null = Flagged-leave changed _ r
  put_response-IsFlagged s r (bool b) = Flagged-leave changed _ r
  put_response-IsFlagged s r (num n) = Flagged-leave changed _ r
  put_response-IsFlagged s r (arr vs) = Flagged-leave changed _ r

  put_gemini-IsFlagged : (l : ℕ × ℕ) (s : String) → IsFlagged (put_gemini ext l s)
  unfolding put_gemini
  put_gemini-IsFlagged (i, j) s =
      let response = at_field-Flagged changed _ (put_response-IsFlagged s) "response" in
      let part =
        at_elem-Flagged changed _ (at_field-Flagged changed _ response "functionResponse") j in
      at_field-Flagged changed _
        (at_elem-Flagged changed _ (at_field-Flagged changed _ part "parts") i) "contents"

  collapse_gemini-IsFlagged : IsFlagged (collapse_stale_tool_results_gemini ext)
  unfolding collapse_stale_tool_results_gemini
  collapse_gemini-IsFlagged r v =
      let found = gemini_candidates ext.print (elems_at "contents" v) in
      collapse-IsFlagged ext (put_gemini ext) put_gemini-IsFlagged found
        (compute_stale_reasons (map (λ x. x.1) found)) r v

  edit_response-IsFlagged : (m : ℕ) → IsFlagged (edit_response ext m)
  unfolding edit_response
  edit_response-IsFlagged m r (str s) = edit_text-IsFlagged ext m r (str s)
  edit_response-IsFlagged m r (obj fs) =
      Flagged-inside changed obj fs r (in_fields "result" (edit_text ext m) r fs)
        (in_fields-Flagged changed (edit_text ext m) (edit_text-IsFlagged ext m) "result" r fs)
  edit_response-IsFlagged m r null = Flagged-leave changed _ r
  edit_response-IsFlagged m r (bool b) = Flagged-leave changed _ r
  edit_response-IsFlagged m r (num n) = Flagged-leave changed _ r
  edit_response-IsFlagged m r (arr vs) = Flagged-leave changed _ r

  edit_function_response-IsFlagged : (m : ℕ) → IsFlagged (edit_function_response ext m)
  unfolding edit_function_response
  edit_function_response-IsFlagged m r b = elim (Bool-cases (is_verbatim_tool (name_of b) none)) [
    | inl e ↦ rw (e) (λ h. h, inl refl)
    | inr e ↦
        rw (e) (
          at_field-Flagged changed (edit_response ext m) (edit_response-IsFlagged m) "response" r b)
  ]

  compress_gemini-IsFlagged : (m : ℕ) → IsFlagged (compress_gemini ext m)
  unfolding compress_gemini
  compress_gemini-IsFlagged m =
      let part =
        at_field-Flagged changed _ (edit_function_response-IsFlagged m) "functionResponse" in
      let parts = at_field-Flagged changed _ (each_elem-Flagged changed _ part) "parts" in
      at_field-Flagged changed _ (each_elem-Flagged changed _ parts) "contents"

  -- A rewrite of a Gemini body that does not report a change leaves the body as it is.
  pub rewrite_gemini-unchanged :
      (traced : Bool) (m : ℕ) (r : Run W C D) (root : Value)
      → (rewrite_gemini ext traced m r root).1.changed ≡ false
      → (rewrite_gemini ext traced m r root).0 ≡ root
  unfolding rewrite_gemini
  rewrite_gemini-unchanged traced m =
      two_passes-unchanged ext traced (collapse_stale_tool_results_gemini ext)
        (λ v. compress_gemini ext m) collapse_gemini-IsFlagged (λ v. compress_gemini-IsFlagged m)
