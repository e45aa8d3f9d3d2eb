-- ===== src/Translate.antt =====
-- src/translate.rs: Chat Completions to Responses and back, for whole replies and for streams.
pub mod Request
pub mod Response
pub mod Frames
pub mod Stream
