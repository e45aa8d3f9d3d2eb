-- ===== src/Compress/Rewrite/Request.antt =====
-- The whole of `rewrite_request_body` of src/compress.rs.
use mur_model_gateway.Common.{
  ◌≡◌, refl, subst, ◌⊎◌, inl, inr, ℕ, Bool, true, false, List, Option, none, some, String,
  Option-cases, if◌then◌else◌, ==_iff, ◌||◌, not,
}
use mathlib.Core.Option.{none-ne-some, some-injective}
use mur_model_gateway.Json.{Value}
use mur_model_gateway.Route.{Provider, anthropic, open_ai, gemini, codex}
use mur_model_gateway.Compress.Engine.{External, Run}
use mur_model_gateway.Compress.Rewrite.{
  Config, Shared, Setup, shared_engine, engine_at, new_shared, fits, rewrite_root, start_run,
  edit_parsed, rewrite_with, rewrite_request_body, rewrite_shared,
}
use mur_model_gateway.Compress.Rewrite.Anthropic.Frame.{frame_anthropic, rewrite_anthropic-frame}
use mur_model_gateway.Compress.Rewrite.Anthropic.Whole.{rewrite_anthropic-unchanged}
use mur_model_gateway.Compress.Rewrite.OpenAi.Frame.{frame_openai, rewrite_openai-frame}
use mur_model_gateway.Compress.Rewrite.OpenAi.Whole.{rewrite_openai-unchanged}
use mur_model_gateway.Compress.Rewrite.Gemini.Whole.{
  frame_gemini, rewrite_gemini-frame, rewrite_gemini-unchanged,
}

-- What a body keeps, whatever the rewrite does: in a Messages body all but the `content` of the blocks
-- of the type `tool_result` in its messages, in a Chat Completions body all but the `content` of its
-- messages of the role `tool`, in a Gemini body all but the responses in its parts.
abbrev pub frame : Provider → Value → Value
frame anthropic = frame_anthropic
frame open_ai = frame_openai
frame codex = frame_openai
frame gemini = frame_gemini

if-some :
    {A : Type 0} (b : Bool) (o : Option A) (a : A) → (if b then o else none) ≡ some a → o ≡ some a
if-some true o a h = h
if-some false o a h = absurd (none-ne-some _ h)

-- What is used is the slot or what is made, and only where both switches are on.
guarded :
    {A : Type 0} (a b c : Bool) (slot : Option A) (made : Option A × Option A) (x : A)
    → (if not a || not b then (none, slot) else if c then (slot, slot) else made).0 ≡ some x
    → (a ≡ true) × (b ≡ true) × (((c ≡ true) × (slot ≡ some x)) ⊎ (made.0 ≡ some x))
guarded false b c slot made x h = absurd (none-ne-some _ h)
guarded true false c slot made x h = absurd (none-ne-some _ h)
guarded true true true slot made x h = (refl, refl, inl (refl, h))
guarded true true false slot made x h = (refl, refl, inr h)

module _ {W C D : Type 0} (ext : External W C D) where
  rewrite_root-frame :
      (p : Provider) (traced : Bool) (m : ℕ) (r : Run W C D) (root : Value)
      → frame p (rewrite_root ext p traced m r root).0 ≡ frame p root
  unfolding rewrite_root
  rewrite_root-frame anthropic = rewrite_anthropic-frame ext
  rewrite_root-frame open_ai = rewrite_openai-frame ext
  rewrite_root-frame codex = rewrite_openai-frame ext
  rewrite_root-frame gemini = rewrite_gemini-frame ext

  -- Where the rewrite of a body, in any of the formats, ends without having reported a change, the body
  -- is as it was, so that what is forwarded in its place loses nothing.
  pub rewrite_root-unchanged :
      (p : Provider) (traced : Bool) (m : ℕ) (r : Run W C D) (root : Value)
      → (rewrite_root ext p traced m r root).1.changed ≡ false
      → (rewrite_root ext p traced m r root).0 ≡ root
  unfolding rewrite_root
  rewrite_root-unchanged anthropic = rewrite_anthropic-unchanged ext
  rewrite_root-unchanged open_ai = rewrite_openai-unchanged ext
  rewrite_root-unchanged codex = rewrite_openai-unchanged ext
  rewrite_root-unchanged gemini = rewrite_gemini-unchanged ext

  -- A body that the rewrite puts in the place of another is the print of a value that keeps the frame
  -- of the value that the other was parsed to.
  abbrev pub Framed : Provider → List ℕ → List ℕ → Type 0
  Framed p body out =
      (root : Value) × (new : Value) × (ext.decode body ≡ some root)
      × (ext.encode new ≡ some out)
      × (frame p new ≡ frame p root)

  edit_parsed-Framed :
      (traced : Bool) (p : Provider) (s : Shared W C D) (body out : List ℕ) (o : Option Value)
      → ext.decode body ≡ o
      → (edit_parsed ext traced p s o).0 ≡ some out
      → Framed p body out
  edit_parsed-Framed traced p s body out none e h = absurd (none-ne-some _ h)
  edit_parsed-Framed traced p s body out (some root) e h =
      let q = rewrite_root ext p traced s.min_tokens (start_run ext s) root in
      (root, q.0, e, if-some q.1.changed _ out h, rewrite_root-frame p traced _ _ root)

  rewrite_shared-Framed :
      (traced : Bool) (p : Provider) (body out : List ℕ) (o slot : Option (Shared W C D))
      → (rewrite_shared ext traced p body o slot).0.body ≡ some out
      → Framed p body out
  rewrite_shared-Framed traced p body out none slot h = absurd (none-ne-some _ h)
  rewrite_shared-Framed traced p body out (some s) slot h =
      edit_parsed-Framed traced p s body out (ext.decode body) refl (unfold rewrite_with in h)

  -- A body that the program forwards in the place of the client's is the print of a value that keeps
  -- all of the client's value but the payloads of tool results: the `content` of blocks of the type
  -- `tool_result` in a Messages body and of messages of the role `tool` in a Chat Completions body, the
  -- responses in the parts of a Gemini body.
  pub rewrite_request_body-Framed :
      (setup : Setup W C D) (traced : Bool) (p : Provider) (body out : List ℕ)
      (slot : Option (Shared W C D))
      → (rewrite_request_body ext setup traced p body slot).0.body ≡ some out
      → Framed p body out
  unfolding rewrite_request_body
  rewrite_request_body-Framed setup traced p body out slot h =
      rewrite_shared-Framed traced p body out (shared_engine setup slot).0 _ h

module _ {W C D : Type 0} (setup : Setup W C D) where
  -- The engine was made from the configuration, with a memo that nothing has been written to.
  abbrev pub IsNew : String → Shared W C D → Type 0
  IsNew home s =
      (setup.new_engine home (setup.load home) ≡ some s.engine)
      × (s.min_tokens ≡ (setup.load home).min_tokens)
      × (s.verdicts ≡ setup.new_verdicts)
      × (s.stubs ≡ setup.new_stubs)

  -- The engine goes with the configuration as it is now: it is the one in the slot, or a new one.
  abbrev pub Current : Option (Shared W C D) → Shared W C D → Type 0
  Current slot s =
      (home : String) × (setup.mur_home ≡ some home)
      × ((setup.load home).enabled ≡ true)
      × ((setup.load home).auto_enabled ≡ true)
      × (s.fingerprint ≡ setup.config_fingerprint (setup.load home))
      × ((slot ≡ some s) ⊎ IsNew home s)

  fits-slot :
      (cfg : Config) (slot : Option (Shared W C D)) (s : Shared W C D)
      → fits setup cfg slot ≡ true
      → slot ≡ some s
      → s.fingerprint ≡ setup.config_fingerprint cfg
  fits-slot cfg none s h e = absurd (none-ne-some _ e)
  fits-slot cfg (some t) s h e =
      subst (λ (x : Shared W C D). x.fingerprint ≡ setup.config_fingerprint cfg)
        (some-injective _ _ e) ((==_iff _ _).0 h)

  new_shared-IsNew :
      (home : String) (o : Option W) (s : Shared W C D)
      → setup.new_engine home (setup.load home) ≡ o
      → new_shared setup (setup.load home) o ≡ some s
      → (s.fingerprint ≡ setup.config_fingerprint (setup.load home)) × IsNew home s
  new_shared-IsNew home none s e h = absurd (none-ne-some _ h)
  new_shared-IsNew home (some w) s e h =
      subst
        (λ (x : Shared W C D).
          (x.fingerprint ≡ setup.config_fingerprint (setup.load home)) × IsNew home x)
        (some-injective _ _ h) (refl, (e, refl, refl, refl))

  engine_at-Current :
      (home : String) (slot : Option (Shared W C D)) (s : Shared W C D)
      → setup.mur_home ≡ some home
      → (engine_at setup home slot).0 ≡ some s
      → Current slot s
  engine_at-Current home slot s at_home h =
      let cfg = setup.load home in
      let (on, auto_on, found) =
        guarded cfg.enabled cfg.auto_enabled (fits setup cfg slot) slot _ s h in
      elim found [
        | inl (same, e) ↦ (home, at_home, on, auto_on, fits-slot cfg slot s same e, inl e)
        | inr made ↦
            let (fp, new) = new_shared-IsNew home (setup.new_engine home cfg) s refl made in
            (home, at_home, on, auto_on, fp, inr new)
      ]

  -- The engine that a request uses goes with the configuration as it is read for the request, and is
  -- either the one in the slot, whose memo goes on, or one made anew together with an empty memo.
  pub shared_engine-Current :
      (slot : Option (Shared W C D)) (s : Shared W C D)
      → (shared_engine setup slot).0 ≡ some s
      → Current slot s
  unfolding shared_engine
  shared_engine-Current slot s h = elim (Option-cases setup.mur_home) [
    | inl e ↦ absurd (none-ne-some s (rw (e) at h))
    | inr (home, e) ↦ engine_at-Current home slot s e (rw (e) at h)
  ]
