-- ===== src/Forward/Body/Whole.antt =====
-- What `forward` makes of the client's body.
use mur_model_gateway.Common.{
  ◌≡◌, refl, sym, ap, ◌⊎◌, inl, inr, Bool, true, false, ◌&&◌, Option, none, some, String,
  Bool-cases, get_or,
}
use mathlib.Core.Bool.{true≢false}
use mur_model_gateway.Json.{Value}
use mur_model_gateway.Route.{Provider, should_translate}
use mur_model_gateway.Translate.Request.{
  Result, ok, err, rejected, not_an_object, chat_to_responses,
}
use mur_model_gateway.Compress.{should_compress}
use mur_model_gateway.Compress.Engine.{External}
use mur_model_gateway.Compress.Rewrite.{Setup, Shared, rewrite_request_body}
use mur_model_gateway.Compress.Rewrite.Request.{Framed, rewrite_request_body-Framed}
use mur_model_gateway.Forward.Exchange.{Bytes}
use mur_model_gateway.Forward.Body.{
  Prepared, forwards, refuses, fails, compressed_body, translated_body, parsed_chat, answered,
  encoded, prepare,
}

-- The bytes that a case of `Prepared` forwards.
abbrev pub Forwards : Prepared → Bytes → Type 0
Forwards (forwards b m s) out = b ≡ out
Forwards (refuses t) out = ⊥
Forwards fails out = ⊥

both : (a b : Bool) → (a && b) ≡ true → (a ≡ true) × (b ≡ true)
both true b h = (refl, h)
both false b h = (h, absurd (true≢false (sym h)))

module _ {W C D : Type 0} (ext : External W C D) where
  -- The bytes are those of the client, or the compression is switched on, is made for requests of this
  -- kind, and has put the bytes in their place, which keep the frame.
  abbrev pub Kept : Bool → String → Provider → Bytes → Bytes → Type 0
  Kept compress path p body mid =
      (mid ≡ body) ⊎ ((compress ≡ true) × (should_compress path p ≡ true) × Framed ext p body mid)

  -- The bytes of the request of the Responses API for the chat in these bytes.
  abbrev pub Responses : Bytes → Bytes → Type 0
  Responses mid out =
      (chat : Value) × (v : Value) × (ext.decode mid ≡ some chat)
      × (chat_to_responses chat ≡ ok v)
      × (ext.encode v ≡ some out)

  replaced-Kept :
      (compress : Bool) (path : String) (p : Provider) (body : Bytes) (o : Option Bytes)
      → (compress ≡ true) × (should_compress path p ≡ true)
      → ((out : Bytes) → o ≡ some out → Framed ext p body out)
      → Kept compress path p body (get_or o body)
  replaced-Kept compress path p body none on h = inl refl
  replaced-Kept compress path p body (some out) (c, d) h = inr (c, d, h out refl)

  compressed_body-Kept :
      (setup : Setup W C D) (traced compress : Bool) (path : String) (p : Provider) (body : Bytes)
      (slot : Option (Shared W C D))
      → Kept compress path p body (compressed_body ext setup traced compress path p body slot).0
  unfolding compressed_body
  compressed_body-Kept setup traced compress path p body slot =
      elim (Bool-cases (compress && should_compress path p)) [
        | inr e ↦ rw (e) (inl refl)
        | inl e ↦ rw (e) (
            replaced-Kept compress path p body
              (rewrite_request_body ext setup traced p body slot).0.body
              (both compress (should_compress path p) e)
              (λ out. rewrite_request_body-Framed ext setup traced p body out slot))
      ]

  encoded-Forwards :
      (chat v : Value) (out : Bytes) (o : Option Bytes)
      → Forwards (encoded ext chat o) out
      → o ≡ some out
  encoded-Forwards chat v out none h = absurd h
  encoded-Forwards chat v out (some b) h = ap some h

  answered-Forwards :
      (chat : Value) (out : Bytes) (r : Result)
      → Forwards (answered ext chat r) out
      → (v : Value) × (r ≡ ok v) × (ext.encode v ≡ some out)
  answered-Forwards chat out (ok v) h = (v, refl, encoded-Forwards chat v out (ext.encode v) h)
  answered-Forwards chat out (err (rejected t)) h = absurd h
  answered-Forwards chat out (err not_an_object) h = absurd h

  parsed_chat-Forwards :
      (out : Bytes) (o : Option Value)
      → Forwards (parsed_chat ext o) out
      → (chat : Value) × (v : Value) × (o ≡ some chat)
        × (chat_to_responses chat ≡ ok v)
        × (ext.encode v ≡ some out)
  parsed_chat-Forwards out none h = absurd h
  parsed_chat-Forwards out (some chat) h =
      let (v, p, q) = answered-Forwards chat out (chat_to_responses chat) h in (chat, v, refl, p, q)

  translated_body-Forwards :
      (path : String) (mid out : Bytes)
      → Forwards (translated_body ext path mid) out
      → ((should_translate path ≡ false) × (out ≡ mid))
        ⊎ ((should_translate path ≡ true) × Responses mid out)
  unfolding translated_body
  translated_body-Forwards path mid out h = elim (Bool-cases (should_translate path)) [
    | inr e ↦ inl (e, sym (rw (e) at h))
    | inl e ↦ inr (e, parsed_chat-Forwards out (ext.decode mid) (rw (e) at h))
  ]

  -- The bytes that `forward` makes of the client's body, where it neither refuses the request nor fails,
  -- are the client's own, or, where the compression is on and made for the path, the print of a value
  -- that keeps all of the client's value but the payloads of tool results: the `content` of blocks of
  -- the type `tool_result` in a Messages body and of messages of the role `tool` in a Chat Completions
  -- body, the responses in the parts of a Gemini body. On the path that is translated for Codex they are
  -- the print of the Responses request for the chat in these bytes.
  pub prepare-Kept :
      (setup : Setup W C D) (traced compress : Bool) (path : String) (p : Provider) (body : Bytes)
      (slot : Option (Shared W C D)) (out : Bytes)
      → Forwards (prepare ext setup traced compress path p body slot).0 out
      → (mid : Bytes) × Kept compress path p body mid
        × (((should_translate path ≡ false) × (out ≡ mid))
            ⊎ ((should_translate path ≡ true) × Responses mid out))
  unfolding prepare
  prepare-Kept setup traced compress path p body slot out h =
      let mid = (compressed_body ext setup traced compress path p body slot).0 in
      (
        mid,
        compressed_body-Kept setup traced compress path p body slot,
        translated_body-Forwards path mid out h,
      )
