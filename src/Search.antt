-- ===== src/Search.antt =====
-- src/search: the tokenizer, the engine and its HTTP endpoints.
pub mod Types
pub mod Tokenizer
pub mod Engine
pub mod Handlers
