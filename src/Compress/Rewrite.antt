-- ===== src/Compress/Rewrite.antt =====
-- src/compress.rs (`shared_engine`, `rewrite_request_body`): the engine that outlives a request, and
-- the rewrite of one request's body. The configuration file, the hash of its text and the making of
-- an engine and of an empty memo are arguments.
pub mod Anthropic
pub mod Blocks
pub mod Gemini
pub mod OpenAi
pub mod Located
pub mod Payload
pub mod Unchanged
pub mod Request
use mur_model_gateway.Common.{
  ℕ, ◌-◌, ◌==◌, Bool, true, false, not, ◌||◌, ◌&&◌, List, Option, none, some, String, if◌then◌else◌,
  ◌>>=◌, length, is_some,
}
use mur_model_gateway.Json.{Value}
use mur_model_gateway.Route.{Provider, anthropic, open_ai, gemini, codex}
use mur_model_gateway.Compress.Edits.{Edit}
use mur_model_gateway.Compress.Engine.{External, Run, Summary, empty_summary}
use mur_model_gateway.Compress.Rewrite.Anthropic.{rewrite_anthropic}
use mur_model_gateway.Compress.Rewrite.OpenAi.{rewrite_openai}
use mur_model_gateway.Compress.Rewrite.Gemini.{rewrite_gemini}

-- what `shared_engine` reads of a `CompressConfig`
pub record Config : Type 0 where
  pub enabled : Bool
  pub auto_enabled : Bool
  pub min_tokens : ℕ

-- the engine's store, its threshold and its memo
pub record Shared (W C D : Type 0) : Type 0 where
  pub engine : W
  pub min_tokens : ℕ
  pub verdicts : C
  pub stubs : D
  pub fingerprint : ℕ

pub record Setup (W C D : Type 0) : Type 0 where
  pub mur_home : Option String
  pub load : String → Config
  pub config_fingerprint : Config → ℕ
  pub new_engine : String → Config → Option W
  pub new_verdicts : C
  pub new_stubs : D

module _ {W C D : Type 0} (setup : Setup W C D) where
  abbrev new_shared : Config → Option W → Option (Shared W C D)
  new_shared cfg none = none
  new_shared cfg (some w) = some record {
    engine = w;
    min_tokens = cfg.min_tokens;
    verdicts = setup.new_verdicts;
    stubs = setup.new_stubs;
    fingerprint = setup.config_fingerprint cfg;
  }

  -- the slot keeps what it holds when an engine cannot be made
  abbrev keep : Option (Shared W C D) → Option (Shared W C D) → Option (Shared W C D)
  keep slot none = slot
  keep slot (some s) = some s

  abbrev fits : Config → Option (Shared W C D) → Bool
  fits cfg none = false
  fits cfg (some s) = s.fingerprint == setup.config_fingerprint cfg

  abbrev engine_at : String → Option (Shared W C D) → Option (Shared W C D) × Option (Shared W C D)
  engine_at home slot =
      let cfg = setup.load home in
      if not cfg.enabled || not cfg.auto_enabled
      then (none, slot)
      else if fits cfg slot
      then (slot, slot)
      else (let s = new_shared cfg (setup.new_engine home cfg) in (s, keep slot s))

  -- `shared_engine`: the engine to use, and the slot after the call
  unfoldable pub shared_engine :
      Option (Shared W C D) → Option (Shared W C D) × Option (Shared W C D)
  shared_engine slot = elim setup.mur_home [ none ↦ (none, slot) | some home ↦ engine_at home slot ]

-- `Rewrite`
pub record Rewrite : Type 0 where
  pub body : Option (List ℕ)
  pub tokens_saved : ℕ

module _ {W C D : Type 0} (ext : External W C D) where
  unfoldable pub rewrite_root : Provider → Bool → ℕ → Edit (Run W C D)
  unfolding rewrite_anthropic rewrite_openai rewrite_gemini
  rewrite_root anthropic traced min_tokens = rewrite_anthropic ext traced min_tokens
  rewrite_root open_ai traced min_tokens = rewrite_openai ext traced min_tokens
  rewrite_root codex traced min_tokens = rewrite_openai ext traced min_tokens
  rewrite_root gemini traced min_tokens = rewrite_gemini ext traced min_tokens

  -- the state in which a rewrite starts
  abbrev pub start_run : Shared W C D → Run W C D
  start_run s = record {
    store = s.engine;
    verdicts = s.verdicts;
    stubs = s.stubs;
    summary = empty_summary;
    changed = false;
  }

  abbrev edited : Value × Run W C D → Option (List ℕ) × Run W C D
  edited (root, r) = (if r.changed then ext.encode root else none, r)

  abbrev edit_parsed : Bool → Provider → Shared W C D → Option Value → Option (List ℕ) × Run W C D
  edit_parsed traced provider s none = (none, start_run s)
  edit_parsed traced provider s (some root) =
      edited (rewrite_root provider traced s.min_tokens (start_run s) root)

  -- `rewrite_anthropic_with`, `rewrite_openai_with` and `rewrite_gemini_with`, on the bytes of a body
  unfoldable pub rewrite_with :
      Bool → Provider → Shared W C D → List ℕ → Option (List ℕ) × Run W C D
  unfolding rewrite_root
  rewrite_with traced provider s body = edit_parsed traced provider s (ext.decode body)

  abbrev saved : Option (List ℕ) × Run W C D → Rewrite
  saved (out, r) = record {
    body = out;
    tokens_saved = r.summary.tokens_before - r.summary.tokens_after;
  }

  -- what the next request finds: the memo and the store as this one leaves them
  abbrev left_by : Shared W C D → Run W C D → Shared W C D
  left_by s r = record s { engine = r.store; verdicts = r.verdicts; stubs = r.stubs }

  abbrev rewrite_shared :
      Bool
      → Provider
      → List ℕ
      → Option (Shared W C D)
      → Option (Shared W C D)
      → Rewrite × Option (Shared W C D)
  rewrite_shared traced provider body none slot = (record { body = none; tokens_saved = 0 }, slot)
  rewrite_shared traced provider body (some s) slot =
      let out = rewrite_with traced provider s body in (saved out, some (left_by s out.1))

  -- `rewrite_request_body`, on the slot of the shared engine, without the line that it logs
  unfoldable pub rewrite_request_body :
      Setup W C D
      → Bool
      → Provider
      → List ℕ
      → Option (Shared W C D)
      → Rewrite × Option (Shared W C D)
  unfolding shared_engine rewrite_with
  rewrite_request_body setup traced provider body slot =
      let (shared, next) = shared_engine setup slot in
      rewrite_shared traced provider body shared next
