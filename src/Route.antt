-- ===== src/Route.antt =====
-- src/lib.rs (`Provider`, `detect_provider`, `codex_target_path`), src/codex.rs (`should_route`,
-- `should_translate`), src/disguise.rs (`should_disguise`) and src/cache_trace.rs (`applies`): which
-- provider a request goes to, and which of the rewrites its path takes part in.
pub mod Bases
pub mod Query
mod Tests
use mur_model_gateway.Common.{Bool, ◌||◌, ◌==◌, Option, none, some, String, if◌then◌else◌}
use mur_model_gateway.Common.Text.{str_eq, push_str, starts_with, strip_prefix, first_split}
use Prim.Native.Char.{code}

pub data Provider : Type 0 where
  anthropic open_ai gemini codex : Provider

-- `Provider::name`
unfoldable pub name : Provider → String
name anthropic = "anthropic"
name open_ai = "openai"
name gemini = "gemini"
name codex = "codex"

-- The test that the routing tables repeat for each endpoint: the path itself, a path below it, or
-- the path with a query.
unfoldable pub is_under : String → String → Bool
unfolding str_eq push_str starts_with
is_under base path =
    str_eq path base || starts_with path (push_str base "/") || starts_with path (push_str base "?")

-- `codex::should_translate`
unfoldable pub should_translate : String → Bool
should_translate path = is_under "/codex/v1/chat/completions" path

-- `codex::should_route`
unfoldable pub should_route : String → Bool
should_route path = is_under "/v1/responses" path || should_translate path

abbrev is_open_ai : String → Bool
is_open_ai path =
    is_under "/v1/chat/completions" path
    || is_under "/v1/embeddings" path
    || is_under "/v1/images" path
    || is_under "/v1/files" path
    || is_under "/v1/threads" path
    || is_under "/v1/assistants" path

unfoldable pub detect_provider : String → Provider
detect_provider path =
    if is_under "/v1/messages" path
    then anthropic
    else if is_open_ai path
    then open_ai
    else if is_under "/v1beta/models" path
    then gemini
    else if should_route path
    then codex
    else anthropic

abbrev or_whole : Option String → String → String
or_whole none path = path
or_whole (some rest) path = rest

unfoldable pub codex_target_path : String → String
unfolding should_translate strip_prefix first_split
codex_target_path path_and_query =
    let path_only = first_split (λ c. code c == b'?') path_and_query in
    if should_translate path_only
    then "/responses"
    else or_whole (strip_prefix path_and_query "/v1") path_and_query

-- `disguise::should_disguise`
unfoldable pub should_disguise : String → Bool
unfolding str_eq starts_with
should_disguise path =
    str_eq path "/v1/messages"
    || str_eq path "/v1/messages/count_tokens"
    || starts_with path "/v1/messages?"
    || starts_with path "/v1/messages/count_tokens?"

-- `cache_trace::applies`
unfoldable pub applies : String → Bool
unfolding str_eq starts_with
applies path = str_eq path "/v1/messages" || starts_with path "/v1/messages?"
