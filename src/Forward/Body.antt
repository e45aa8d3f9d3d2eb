-- ===== src/Forward/Body.antt =====
-- src/lib.rs, `forward` from the bytes of the client's body to those that the exchange starts with: the
-- compression, where it is switched on, and the translation of a chat request for Codex. What the
-- compression logs, with the count of tokens that is only logged, is left out.
pub mod Whole
use mur_model_gateway.Common.{
  ◌≡◌, refl, sym, ap, ◌∙◌, ◌⊎◌, inl, inr, ℕ, Bool, true, false, ◌&&◌, List, Option, none, some,
  String, Bool-cases, Option-cases, if◌then◌else◌, get_or, ◌>>=◌,
}
use mur_model_gateway.Common.Text.{push_str}
use mur_model_gateway.Json.{Value, get, as_str, as_bool}
use mur_model_gateway.Route.{Provider, should_translate}
use mur_model_gateway.Translate.Request.{
  Result, ok, err, rejected, not_an_object, chat_to_responses,
}
use mur_model_gateway.Compress.{should_compress}
use mur_model_gateway.Compress.Engine.{External}
use mur_model_gateway.Compress.Rewrite.{Setup, Shared, Rewrite, rewrite_request_body}
use mur_model_gateway.Compress.Rewrite.Request.{Framed, rewrite_request_body-Framed}
use mur_model_gateway.Forward.Exchange.{Bytes}

-- How the body is prepared: the bytes with the client's model and its wish for a stream, where the
-- answer is to be translated; or an answer with the status 400; or an error.
pub data Prepared : Type 0 where
  forwards : Bytes → Option String → Bool → Prepared
  refuses : String → Prepared
  fails : Prepared

module _ {W C D : Type 0} (ext : External W C D) where
  abbrev rewritten : Bytes → Rewrite × Option (Shared W C D) → Bytes × Option (Shared W C D)
  rewritten body (rewrite, slot) = (get_or rewrite.body body, slot)

  -- the compression, on the slot of the shared engine; `traced` says whether the level of the log is at
  -- least `DEBUG`
  unfoldable pub compressed_body :
      Setup W C D
      → Bool
      → Bool
      → String
      → Provider
      → Bytes
      → Option (Shared W C D)
      → Bytes × Option (Shared W C D)
  unfolding should_compress rewrite_request_body
  compressed_body setup traced compress path p body slot =
      if compress && should_compress path p
      then rewritten body (rewrite_request_body ext setup traced p body slot)
      else (body, slot)

  abbrev encoded : Value → Option Bytes → Prepared
  encoded chat none = fails
  encoded chat (some out) =
      forwards out (get chat "model" >>= as_str) (get_or (get chat "stream" >>= as_bool) false)

  abbrev answered : Value → Result → Prepared
  answered chat (ok v) = encoded chat (ext.encode v)
  answered chat (err (rejected param)) =
      refuses (push_str "`" (push_str param "` is not supported on the Codex route"))
  answered chat (err not_an_object) = refuses "request body must be a JSON object"

  abbrev parsed_chat : Option Value → Prepared
  parsed_chat none = fails
  parsed_chat (some chat) = answered chat (chat_to_responses chat)

  -- the translation of a chat request
  unfoldable pub translated_body : String → Bytes → Prepared
  unfolding should_translate get push_str
  translated_body path body =
      if should_translate path then parsed_chat (ext.decode body) else forwards body none false

  unfoldable pub prepare :
      Setup W C D
      → Bool
      → Bool
      → String
      → Provider
      → Bytes
      → Option (Shared W C D)
      → Prepared × Option (Shared W C D)
  unfolding compressed_body translated_body
  prepare setup traced compress path p body slot =
      let (out, next) = compressed_body setup traced compress path p body slot in
      (translated_body path out, next)
