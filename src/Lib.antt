-- ===== src/Lib.antt =====
-- A model of mur-model-gateway, a local proxy between LLM clients and the Anthropic, OpenAI, Gemini
-- and Codex APIs, and what makes it correct.
--
-- The program. `forward` in src/lib.rs handles a request: the path decides the provider
-- (`detect_provider`), the client's headers decide whose credential goes upstream, and the credential's
-- kind decides the host and the path. On the Codex route a Chat Completions request is translated into
-- a Responses request, and the answer, an event stream, is translated back, chunk by chunk or as a
-- whole (src/translate.rs). A rejected credential of the gateway's own is retried once: on Codex with a
-- refreshed token, on Anthropic with a token that its owner has replaced meanwhile
-- (src/anthropic_retry.rs). Credentials come from the keychain, from the credentials file of Claude
-- Code, from the auth.json of Codex, or from the environment (src/keychain.rs, src/codex.rs,
-- `TokenSource` in src/lib.rs); the keychain is read through a cache. A background loop has Claude Code
-- renew its credential before it expires (src/oauth_keepalive.rs).
--
-- The files.
--   Common, Common/*    the names that all parts share; `str` functions of the standard library on
--                       texts (Text), i64 (Integer), `Display` of numbers (Decimal)
--   Json, Json/Laws     `serde_json::Value` and the look-ups that the program makes
--   Route               `detect_provider`, `codex_target_path` (src/lib.rs), `should_route`,
--                       `should_translate` (src/codex.rs), `should_disguise` (src/disguise.rs),
--                       `applies` (src/cache_trace.rs). Bases: endpoints; Query: queries
--   Translate/Request   `chat_to_responses`. Rejection, Parameters, Calls (with Tags and Assistant):
--                       what is refused, which parameters and which tool calls are carried over
--   Translate/Frames    `split_sse_frames`. Drain: its loop; Chunks: a text in parts
--   Translate/Response  `ResponseAggregator` and `responses_to_chat`. Aggregate, Reply, RoundTrip
--   Translate/Stream    `SseTranslator`: its fields are a record, `push` and `finish` give the new
--                       record and the chunks. Deltas, Indices, Pieces (with Observe), Ending
--   Credentials         `TokenSource::resolve`, `resolve_credential`, `keychain_fallback`,
--                       `parse_oauth_blob`, `interpret_security_result`, `parse_auth`,
--                       `read_credential`. Codex, Fallback
--   Permits             `ProviderSemaphores` and the life of a permit, as a step relation. Cap
--   Refresh             `refreshed_access_token` and `persist_rotation`: the memo, the document and the
--                       two files. Document, Others, Writes, Flight
--   Keychain            `cached`, `credential_freshness`, `claim_rejection_slot`. Times, Serving,
--                       Cooldown; Callers: several callers, as a step relation
--   Keepalive           the loop of `spawn_if_enabled`: `tick` is one pass, `run` the sequence of
--                       passes. Spawns
--   Forward             the decisions of `forward`: `codex_cred`, `override_token`, `target`, the loops
--                       over the headers, `codex_retry_eligible`. Copying, Ownership, Target
--   Forward/Body        what `forward` makes of the client's body. Whole
--   Forward/Front       `client_label`, `proxy` with the guard `InFlight`, `health`
--   Forward/Rotation    `wait_for_rotation`. Bounded
--   Forward/Exchange    the sends of `forward` from the first request to the answer, as the list of
--                       requests and the ending. Retries, Passthrough
--   Forward/Streaming   the two translated answers of `forward`. Whole
--
--   Compress            the tests of src/compress.rs on paths, tools and texts: `should_compress`,
--                       `has_retrieve_marker` (Marker), `is_verbatim_tool`, `view_key`
--   Compress/Stale      `compute_stale_reasons`. Reference: the same said of the later results alone;
--                       Kept: what stays in the conversation
--   Compress/Engine     `Memo`, `Summary`, `stale_stub`, `compress_text`. Transparent: the memo
--   Compress/Edits      edits of a JSON value in place, as loops over `get_mut`. Laws, Guarded
--   Compress/Rewrite    `shared_engine`, `rewrite_request_body` and the three rewrites. Blocks, Anthropic,
--                       OpenAi and Gemini; Payload, Located and Unchanged, with Kept, Frame and Whole
--                       below the formats,
--                       and Request: what a rewrite leaves as it is
--
--   CacheTrace          `fnv1a`, `breakpoint` and `analyze` of src/cache_trace.rs. Sizes: its byte counts
--   CacheTrace/Diff     `Seq`, `seq_diff`, `diverged_from`. Tells: what an answer says
--   CacheTrace/Guard    `InflightGuard`: a call gives the next guard and its events. Once
--   CacheTrace/Table    `make_room`, `touch`, `settle_entry` on one recency table. Documented, Room,
--                       Pending
--   CacheTrace/Send     `on_send` and `Tracker::settle` on the three tables. Life: from the send to the drop
--   Version             `VersionCache`, `parse_version` of src/cc_version.rs. Fresh: what the cache answers;
--                       Lookup: `which_claude` of src/lib.rs
--   Usage, Usage/Tap    `UpstreamUsage`, `usage_from_sse` and `UsageTap` of src/lib.rs. Observes
--
-- How code became definitions. A struct is a record, an enum a data type with the source's variants. A
-- function that mutates takes the state and gives the new one. A look at the world is an argument: what
-- the keychain, the files and the environment hold (`Stores`), what serde_json parses and prints, what
-- the upstream answers, what the two hooks that are not in the repository do (`Outside`), what each poll
-- and each tick reads, and the clock. An error that only ends a request is `none` or `failed`.
--
-- Numbers. An index of a tool call is a usize of 64 bits, and its increment wraps around. Times are
-- milliseconds, those of Version nanoseconds. The pending sends of an entry are a u32, whose increment
-- wraps around. An i64 is `ℤ`; the sums with a constant wrap around as in a release build. JSON
-- numbers that are no integers are their bits, which no look-up reads.
--
-- Fuel. `split_sse_frames` drains its buffer on as much fuel as the buffer has characters, and each step
-- of the loop takes two of them at least. `wait_for_rotation` has fuel for eleven polls: one at the
-- start of its 500 ms, and one after each of their ten sleeps of 50 ms. `has_retrieve_marker` has a round for
-- each character of the text and one more. All other loops are structural.
--
-- What is not modelled. The library under the compression of tool results, mur-compress, which is an
-- argument (`External`), like the lru crate (`External`, `Lru`, `Slots`) and the hasher of the
-- standard library; the lines that a rewrite and the tap log. The exchange starts with the body that
-- `prepare` leaves. The HTTP server and client, TLS and logging. The grant of a Codex token, a hook,
-- is an argument. The installer (src/install.rs) and the entry point (src/main.rs). The lookup of the
-- `claude` binary is the one built for Unix, without PATHEXT. The decoder `from_utf8_lossy`, which is
-- an argument: it is called for each chunk of a translated stream on its own, so a character that a
-- chunk boundary cuts is two texts of its making.
pub mod CacheTrace
pub mod Common
pub mod Compress
pub mod Credentials
pub mod Forward
pub mod Json
pub mod Keepalive
pub mod Keychain
pub mod Permits
pub mod Refresh
pub mod Route
pub mod Translate
pub mod Usage
pub mod Version
